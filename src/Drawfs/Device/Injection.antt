-- ===== src/Drawfs/Device/Injection.antt =====
-- Input events: which session gets them.
use awase.Base.{
  ℕ, ◌^◌, ◌<◌, ◌≡◌, ◌≢◌, ◌⊎◌, refl, List, [], ◌∷◌, ◌++◌, arith, Option, some, none, ◌==◌, true,
  false, Bool-cases, inl, inr, Option-cases, length, All, ap, ◌∙◌,
}
use awase.Drawfs.Session.{Session, Surface, Event, Tunables, einval, enoent}
use awase.Drawfs.Surface.{find}
use awase.Drawfs.Reply.{send_reply}
use awase.Drawfs.Reply.Framing.{CarriesReply, send_reply_cases}
use awase.Drawfs.Device.{
  Registry, at_addr, set_addr, is_found, find_session, session_free, returns, uses_freed, Injected,
  is_input_event, send_input, inject_input,
}
use awase.Drawfs.Device.Sessions.{Distinct, session_free-frees}

-- Some surface of a list has an id, and none has.
abbrev pub HasSurface : ℕ → List Surface → Type 0
HasSurface id [] = ⊥
HasSurface id (sf ∷ surfaces) = (sf.id ≡ id) ⊎ HasSurface id surfaces

abbrev pub Lacks : ℕ → List Surface → Type 0
Lacks id surfaces = All (λ sf. sf.id ≢ id) surfaces

find-HasSurface :
    (xs : List Surface) (id : ℕ) (sf : Surface) → find xs id ≡ some sf → HasSurface id xs
unfolding find
find-HasSurface [] id sf e = absurd (ground arith)
find-HasSurface (x ∷ xs) id sf e = elim (Bool-cases (x.id == id)) [
  | inl t ↦ inl (ground arith)
  | inr f ↦ inr (find-HasSurface xs id sf (rw f at e))
]

find-Lacks : (xs : List Surface) (id : ℕ) → find xs id ≡ none → Lacks id xs
unfolding find
find-Lacks [] id e = tt
find-Lacks (x ∷ xs) id e = elim (Bool-cases (x.id == id)) [
  | inl t ↦ absurd (ground arith)
  | inr f ↦ (ground arith, find-Lacks xs id (rw f at e))
]

-- A session is open and has the surface, or it is not so.
abbrev pub Owns : ℕ → Session → Type 0
Owns surface_id s = (s.closing ≡ false) × HasSurface surface_id s.surfaces

abbrev pub Disowns : ℕ → ℕ × Session → Type 0
Disowns surface_id p = (p.1.closing ≡ true) ⊎ Lacks surface_id p.1.surfaces

-- The session is the first of the registry that has the surface: what stands before it has not.
pub record FirstOwner (xs : List (ℕ × Session)) (surface_id addr : ℕ) : Type 0 where
  pub before : List (ℕ × Session)
  pub session : Session
  pub after : List (ℕ × Session)
  pub whole : xs ≡ before ++ ((addr, session) ∷ after)
  pub owns : Owns surface_id session
  pub first : All (Disowns surface_id) before

here : (a b : ℕ) → ◌≡◌ {A = Option ℕ} (some a) (some b) → a ≡ b
here a b e = ground arith

find_session-some :
    (xs : List (ℕ × Session)) (surface_id addr : ℕ)
    → find_session xs surface_id ≡ some addr
    → FirstOwner xs surface_id addr
unfolding find_session is_found
find_session-some [] surface_id addr e = absurd (ground arith)
find_session-some ((a, s) ∷ rest) surface_id addr e = elim (Bool-cases s.closing) [
  | inl closing ↦
      let o = find_session-some rest surface_id addr (rw closing at e) in
      record {
        before = (a, s) ∷ o.before;
        session = o.session;
        after = o.after;
        whole = ap (◌∷◌ (a, s)) o.whole;
        owns = o.owns;
        first = (inl closing, o.first);
      }
  | inr open' ↦ elim (Option-cases (find s.surfaces surface_id)) [
    | inl missing ↦
        let o = find_session-some rest surface_id addr (rw (open', missing) at e) in
        record {
          before = (a, s) ∷ o.before;
          session = o.session;
          after = o.after;
          whole = ap (◌∷◌ (a, s)) o.whole;
          owns = o.owns;
          first = (inr (find-Lacks s.surfaces surface_id missing), o.first);
        }
    | inr (sf, found) ↦ record {
      before = [];
      session = s;
      after = rest;
      whole = ap (λ (k : ℕ). (k, s) ∷ rest) (here a addr (rw (open', found) at e));
      owns = (open', find-HasSurface s.surfaces surface_id sf found);
      first = tt;
    }
  ]
]

find_session-none :
    (xs : List (ℕ × Session)) (surface_id : ℕ)
    → find_session xs surface_id ≡ none
    → All (Disowns surface_id) xs
unfolding find_session is_found
find_session-none [] surface_id e = tt
find_session-none ((a, s) ∷ rest) surface_id e = elim (Bool-cases s.closing) [
  | inl closing ↦ (inl closing, find_session-none rest surface_id (rw closing at e))
  | inr open' ↦ elim (Option-cases (find s.surfaces surface_id)) [
    | inl missing ↦ (
      inr (find-Lacks s.surfaces surface_id missing),
      find_session-none rest surface_id (rw (open', missing) at e),
    )
    | inr (sf, found) ↦ absurd (ground (arith, rw (open', found) at e))
  ]
]

at-split :
    (before after : List (ℕ × Session)) (addr : ℕ) (s : Session)
    → Distinct (before ++ ((addr, s) ∷ after))
    → at_addr (before ++ ((addr, s) ∷ after)) addr ≡ some s
unfolding at_addr
at-split [] after addr s d = ground arith
at-split ((a, x) ∷ before) after addr s d = ground (arith, at-split before after addr s d.1)

set-split :
    (before after : List (ℕ × Session)) (addr : ℕ) (s s' : Session)
    → Distinct (before ++ ((addr, s) ∷ after))
    → set_addr (before ++ ((addr, s) ∷ after)) addr s' ≡ before ++ ((addr, s') ∷ after)
unfolding set_addr
set-split [] after addr s s' d = ground arith
set-split ((a, x) ∷ before) after addr s s' d =
    ground (arith, set-split before after addr s s' d.1, at-split before after addr s d.1)

owner-at :
    (xs : List (ℕ × Session)) (surface_id addr : ℕ) (o : FirstOwner xs surface_id addr)
    → Distinct xs
    → at_addr xs addr ≡ some o.session
owner-at xs surface_id addr o d =
    rw o.whole (at-split o.before o.after addr o.session (rw o.whole at d))

owner-set :
    (xs : List (ℕ × Session)) (surface_id addr : ℕ) (o : FirstOwner xs surface_id addr)
    (s' : Session)
    → Distinct xs
    → set_addr xs addr s' ≡ o.before ++ ((addr, s') ∷ o.after)
owner-set xs surface_id addr o s' d =
    ap (λ (ys : List (ℕ × Session)). set_addr ys addr s') o.whole
    ∙ set-split o.before o.after addr o.session s' (rw o.whole at d)

-- The types of input events: key, pointer, scroll, touch.
abbrev pub IsInput : ℕ → Type 0
IsInput ty = (ty ≡ 0x9010) ⊎ (ty ≡ 0x9011) ⊎ (ty ≡ 0x9012) ⊎ (ty ≡ 0x9013)

abbrev pub IsOther : ℕ → Type 0
IsOther ty = (ty ≢ 0x9010) × (ty ≢ 0x9011) × (ty ≢ 0x9012) × (ty ≢ 0x9013)

is_input_event-IsInput : (ty : ℕ) → is_input_event ty ≡ true → IsInput ty
unfolding is_input_event
is_input_event-IsInput ty e = ground arith

is_input_event-IsOther : (ty : ℕ) → is_input_event ty ≡ false → IsOther ty
unfolding is_input_event
is_input_event-IsOther ty e = ground arith

is_input_event-small : (event_type : ℕ) → is_input_event event_type ≡ true → event_type < 2 ^ 16
unfolding is_input_event
is_input_event-small event_type e = ground arith

-- The outcome at the session that gets the event.
abbrev pub Delivered : Session → Session → ℕ → ℕ → List ℕ → Type 0
Delivered s s' err event_type payload =
    ((err ≢ 0) × (s'.evq ≡ s.evq))
    ⊎ ((err ≡ 0)
        × ((ev : Event) × (s'.evq ≡ s.evq ++ (ev ∷ []))
            × CarriesReply ev s.next_out_frame_id event_type 0 payload))

numbered-at :
    (before after : List (ℕ × Session)) (addr : ℕ) (s : Session)
    → All (λ (p : ℕ × Session). p.1.next_out_frame_id < 2 ^ 32) (before ++ ((addr, s) ∷ after))
    → s.next_out_frame_id < 2 ^ 32
numbered-at [] after addr s h = h.0
numbered-at (x ∷ before) after addr s h = numbered-at before after addr s h.1

delivery :
    (t : Tunables) (s : Session) (event_type : ℕ) (payload : List ℕ)
    → event_type < 2 ^ 16
    → s.next_out_frame_id < 2 ^ 32
    → length payload ≡ 32
    → Delivered s
        (send_reply t s event_type 0 payload).1
        (send_reply t s event_type 0 payload).0
        event_type
        payload
delivery t s event_type payload ty num len =
    elim (send_reply_cases t s event_type 0 payload ty (omega arith) num (omega arith)) [
      | inl failed ↦ inl failed
      | inr (done, _, queued) ↦ inr (done, queued)
    ]

abbrev pub Injects : Registry → ℕ → ℕ → List ℕ → Injected → Type 0
Injects r surface_id event_type payload done =
    (IsOther event_type × (done ≡ returns einval r))
    ⊎ (IsInput event_type × All (Disowns surface_id) r.sessions × (done ≡ returns enoent r))
    ⊎ (IsInput event_type
        × ((addr : ℕ) × ((o : FirstOwner r.sessions surface_id addr) × ((err : ℕ) × ((s' : Session)
                  × (done
                      ≡ returns err (record r { sessions = o.before ++ ((addr, s') ∷ o.after) }))
                  × Delivered o.session s' err event_type payload)))))

-- With no other thread at work, among sessions with different addresses and with numbers of frames of 32
-- bits, and a payload of 32 bytes: an event that is no key, pointer, scroll or touch is refused, a
-- surface that no open session has is reported, and nothing changes; otherwise the first open session
-- of the registry that has a surface of that id gets the event at the end of its queue, in a frame with
-- its type and its payload, or an error is returned and its queue stays, and every other session stays
-- as it is.
pub inject_input_cases :
    (t : Tunables) (r : Registry) (surface_id event_type : ℕ) (payload : List ℕ)
    → Distinct r.sessions
    → All (λ (p : ℕ × Session). p.1.next_out_frame_id < 2 ^ 32) r.sessions
    → length payload ≡ 32
    → Injects r surface_id event_type payload
        (inject_input t (λ x. x) r surface_id event_type payload)
unfolding inject_input send_input
inject_input_cases t r surface_id event_type payload d num len =
    elim (Bool-cases (is_input_event event_type)) [
      | inr other ↦ rw (other, inject_input) (inl (is_input_event-IsOther event_type other, refl))
      | inl input ↦ elim (Option-cases (find_session r.sessions surface_id)) [
        | inl missing ↦
            rw (input, missing, inject_input)
              (inr (
                inl (
                  is_input_event-IsInput event_type input,
                  find_session-none r.sessions surface_id missing,
                  refl,
                )))
        | inr (addr, found) ↦
            let o = find_session-some r.sessions surface_id addr found in
            let (err, s') = send_reply t o.session event_type 0 payload in
            let owner = owner-at r.sessions surface_id addr o d in
            let stored = owner-set r.sessions surface_id addr o s' d in
            let sent : inject_input t (λ x. x) r surface_id event_type payload
                ≡ returns err (record r { sessions = o.before ++ ((addr, s') ∷ o.after) }) =
              rw (input, found, owner, stored, inject_input, send_input) refl in
            let got : Delivered o.session s' err event_type payload =
              delivery t o.session event_type payload (is_input_event-small event_type input)
                (numbered-at o.before o.after addr o.session (rw o.whole at num)) len in
            inr (inr (is_input_event-IsInput event_type input, (addr, (o, (err, (s', sent, got))))))
      ]
    ]

-- Nothing holds the session that was found once both locks are free: if another thread frees it then,
-- among sessions with different addresses, the call goes on with the address of a session that is
-- no more.
pub inject_input-session_free :
    (t : Tunables) (r : Registry) (surface_id event_type addr : ℕ) (payload : List ℕ)
    → Distinct r.sessions
    → is_input_event event_type ≡ true
    → find_session r.sessions surface_id ≡ some addr
    → inject_input t (λ x. session_free x addr) r surface_id event_type payload
      ≡ uses_freed addr (session_free r addr)
unfolding inject_input send_input
inject_input-session_free t r surface_id event_type addr payload d input found =
    let o = find_session-some r.sessions surface_id addr found in
    let (gone, _) =
      session_free-frees r addr addr 0 o.session d (owner-at r.sessions surface_id addr o d) in
    let same : (addr == addr) ≡ true = ground arith in
    let free : at_addr (session_free r addr).sessions addr ≡ none = gone ∙ rw same refl in
    rw (input, found, free, inject_input, send_input) refl
