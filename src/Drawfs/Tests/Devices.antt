-- ===== src/Drawfs/Tests/Devices.antt =====
-- Two sessions, each with a surface 1.
use awase.Base.{ℕ, ◌≡◌, refl, List, [], ◌∷◌, arith, some, replicate}
use awase.Drawfs.Proto.{evt_key}
use awase.Drawfs.Session.{open_session}
use awase.Drawfs.Surface.{find}
use awase.Drawfs.Device.{Registry, at_addr, find_session, is_found, inject_input}
use awase.Drawfs.Device.Sessions.{Distinct}
use awase.Drawfs.Device.Injection.{Injects, inject_input_cases}
use awase.Drawfs.Tests.Queues.{limits}
use awase.Drawfs.Tests.Surfaces.{holding, idle}

abbrev two_sessions : Registry
two_sessions = record {
  sessions = (100, holding.session) ∷ (200, holding.session) ∷ [];
  kernel = idle;
}

two_sessions-Distinct : Distinct two_sessions.sessions
unfolding at_addr
two_sessions-Distinct = (refl, (refl, tt))

abbrev key_payload : List ℕ
key_payload = replicate 32 0

inject_input_cases_example :
    Injects two_sessions 1 evt_key key_payload
      (inject_input limits (λ x. x) two_sessions 1 evt_key key_payload)
unfolding open_session
inject_input_cases_example =
    inject_input_cases limits two_sessions 1 evt_key key_payload two_sessions-Distinct (omega arith)
      refl

-- The second session's surface 1 is out of reach: the first has one too.
finds_first : find_session two_sessions.sessions 1 ≡ some 100
unfolding find_session is_found find open_session
finds_first = refl
