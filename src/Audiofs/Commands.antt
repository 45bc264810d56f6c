-- ===== src/Audiofs/Commands.antt =====
-- Commands to the codecs in audiofs.c: `audiofs_rirb_flush` and `audiofs_send_command`. What the
-- hardware has written when the driver looks, `Poll`, is an argument, as are HDA_INVALID and the way in
-- which the kernel's header puts a codec's address into a verb.
pub mod Deposits
pub mod Answers
use awase.Base.{
  ℕ, zero, suc, ◌+◌, ◌-◌, ◌%◌, Bool, true, false, ◌&&◌, Option, none, some, List, ltb, leb, ◌==◌,
  if◌then◌else◌,
}

abbrev pub codec_max : ℕ
codec_max = 16

pub record Response : Type 0 where
  pub value : ℕ
  pub unsolicited : Bool
  pub cad : ℕ

-- The commands of a codec that wait, and its newest response.
pub record Awaited : Type 0 where
  pub pending : ℕ
  pub response : ℕ

pub record CommandRings : Type 0 where
  pub corb_size : ℕ
  pub rirb_size : ℕ
  pub corb : ℕ → ℕ
  pub corb_wp : ℕ
  pub rirb_rp : ℕ
  pub codecs : ℕ → Awaited

-- The hardware's place in the ring of responses, and the ring.
pub record Poll : Type 0 where
  pub hw_wp : ℕ
  pub ring : ℕ → Response

abbrev pub store_at {ℓ} : {A : Type ℓ} → ℕ → A → (ℕ → A) → (ℕ → A)
store_at i a f = λ n. if n == i then a else f n

-- A response that was asked for is its codec's; others are dropped.
unfoldable pub deposit : Response → (ℕ → Awaited) → (ℕ → Awaited)
deposit r codecs =
    if r.unsolicited
    then codecs
    else if ltb r.cad codec_max && ltb 0 (codecs r.cad).pending
    then store_at r.cad (record { pending = (codecs r.cad).pending - 1; response = r.value }) codecs
    else codecs

-- The place read to, the codecs, and the number of responses; `none` is the model's, when the fuel is
-- used up.
unfoldable pub flush_loop : ℕ → ℕ → Poll → ℕ → (ℕ → Awaited) → Option (ℕ × (ℕ → Awaited) × ℕ)
unfolding deposit
flush_loop zero size poll rp codecs = none
flush_loop (suc fuel) size poll rp codecs =
    let next = (rp + 1) % size in
    let rest : Option (ℕ × (ℕ → Awaited) × ℕ) =
      elim (flush_loop fuel size poll next (deposit (poll.ring next) codecs)) [
        | none ↦ none
        | some (rp', codecs', consumed) ↦ some (rp', codecs', consumed + 1)
      ] in
    if rp == poll.hw_wp then some (rp, codecs, 0) else rest

unfoldable pub after_flush :
    CommandRings → Option (ℕ × (ℕ → Awaited) × ℕ) → Option (CommandRings × ℕ)
after_flush s none = none
after_flush s (some (rp, codecs, consumed)) =
    some (record s { rirb_rp = rp; codecs = codecs }, consumed)

unfoldable pub rirb_flush : ℕ → Poll → CommandRings → Option (CommandRings × ℕ)
unfolding flush_loop after_flush
rirb_flush fuel poll s = after_flush s (flush_loop fuel s.rirb_size poll s.rirb_rp s.codecs)

-- Looking until the codec has answered, `timeout` times at most.
unfoldable pub wait_response : ℕ → ℕ → (ℕ → Poll) → ℕ → ℕ → CommandRings → Option CommandRings
unfolding rirb_flush
wait_response zero fuel polls i cad s = some s
wait_response (suc timeout) fuel polls i cad s = elim (rirb_flush fuel (polls i) s) [
  | none ↦ none
  | some (s', consumed) ↦
      let later = wait_response timeout fuel polls (i + 1) cad s' in
      if (s'.codecs cad).pending == 0 then some s' else later
]

unfoldable pub finish_command : ℕ → ℕ → Option CommandRings → Option (ℕ × CommandRings)
finish_command invalid cad none = none
finish_command invalid cad (some s) =
    let c = s.codecs cad in
    if c.pending == 0
    then some (c.response, s)
    else some (invalid, record s { codecs = store_at cad (record c { pending = 0 }) s.codecs })

unfoldable pub send_command :
    ℕ → ℕ → ℕ → (ℕ → Poll) → (ℕ → ℕ → ℕ) → ℕ → ℕ → CommandRings → Option (ℕ × CommandRings)
unfolding wait_response finish_command
send_command invalid timeout fuel polls embed cad verb s =
    let c = s.codecs cad in
    let wp = (s.corb_wp + 1) % s.corb_size in
    let sent = record s {
      codecs = store_at cad (record { pending = c.pending + 1; response = invalid }) s.codecs;
      corb_wp = wp;
      corb = store_at wp (embed cad verb) s.corb;
    } in
    if leb codec_max cad
    then some (invalid, s)
    else finish_command invalid cad (wait_response timeout fuel polls 0 cad sent)
