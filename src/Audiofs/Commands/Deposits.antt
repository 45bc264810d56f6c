-- ===== src/Audiofs/Commands/Deposits.antt =====
-- The responses that a flush of audiofs.c takes, and what they do for a codec.
use awase.Base.{
  ℕ, zero, suc, ◌+◌, ◌-◌, ◌%◌, ◌<◌, ◌≡◌, ◌≢◌, ◌⊎◌, refl, ap, sym, ◌∙◌, Bool, Bool-cases, inl, inr,
  true, false, not, ◌&&◌, Option, none, some, List, [], ◌∷◌, ◌++◌, ltb, ◌==◌, if◌then◌else◌,
  if_split, if_false, arith,
}
use mathlib.Core.Path.{subst}
use awase.Audiofs.Commands.{Response, Awaited, Poll, deposit, flush_loop}

-- The responses behind a place in the ring.
abbrev pub responses : ℕ → ℕ → (ℕ → Response) → ℕ → List Response
responses zero size ring rp = []
responses (suc n) size ring rp = ring ((rp + 1) % size) ∷ responses n size ring ((rp + 1) % size)

-- Those that arrive while the driver looks so many times: each time the ones up to the hardware's place.
abbrev pub arrivals : ℕ → ℕ → (ℕ → Poll) → ℕ → ℕ → List Response
arrivals zero size polls i rp = []
arrivals (suc t) size polls i rp =
    responses (((polls i).hw_wp + size - rp) % size) size (polls i).ring rp
    ++ arrivals t size polls (i + 1) (polls i).hw_wp

abbrev pub is_answer : ℕ → Response → Bool
is_answer cad r = not r.unsolicited && (r.cad == cad)

-- The first that a codec was asked for.
unfoldable pub first_answer : ℕ → List Response → Option ℕ
first_answer cad [] = none
first_answer cad (r ∷ rs) = if is_answer cad r then some r.value else first_answer cad rs

pub deposit_all : List Response → (ℕ → Awaited) → (ℕ → Awaited)
deposit_all [] codecs = codecs
deposit_all (r ∷ rs) codecs = deposit_all rs (deposit r codecs)

-- The sizes of the rings that the hardware has.
abbrev pub IsSize : ℕ → Type 0
IsSize size = (size ≡ 2) ⊎ ((size ≡ 16) ⊎ (size ≡ 256))

abbrev pub distance : ℕ → ℕ → ℕ → ℕ
distance size rp wp = (wp + size - rp) % size

-- One step around the ring.
abbrev pub Steps : ℕ → ℕ → ℕ → Type 0
Steps rp wp size =
    rp < size
    → wp < size
    → (rp ≡ wp → distance size rp wp ≡ 0)
      × (rp ≢ wp → distance size ((rp + 1) % size) wp + 1 ≡ distance size rp wp)
      × ((rp + 1) % size < size)
      × (distance size rp wp < size)

pub steps : (rp wp size : ℕ) → IsSize size → Steps rp wp size
steps rp wp size (inl e) =
    subst (Steps rp wp) (sym e)
      (λ hr hw. (λ at. omega arith, λ off. omega arith, omega arith, omega arith))
steps rp wp size (inr (inl e)) =
    subst (Steps rp wp) (sym e)
      (λ hr hw. (λ at. omega arith, λ off. omega arith, omega arith, omega arith))
steps rp wp size (inr (inr e)) =
    subst (Steps rp wp) (sym e)
      (λ hr hw. (λ at. omega arith, λ off. omega arith, omega arith, omega arith))

-- A flush takes the responses up to the hardware's place, within as many rounds as they are.
pub flush_loop-takes :
    (fuel size : ℕ) (poll : Poll) (rp n : ℕ) (codecs : ℕ → Awaited)
    → IsSize size
    → rp < size
    → poll.hw_wp < size
    → distance size rp poll.hw_wp ≡ n
    → n < fuel
    → flush_loop fuel size poll rp codecs
      ≡ some (poll.hw_wp, deposit_all (responses n size poll.ring rp) codecs, n)
unfolding flush_loop deposit_all
flush_loop-takes zero size poll rp n codecs is hr hw e enough = absurd (omega arith)
flush_loop-takes (suc fuel) size poll rp zero codecs is hr hw e enough =
    let (here, on, inside, near) = steps rp poll.hw_wp size is hr hw in
    elim (Bool-cases (rp == poll.hw_wp)) [
      | inl t ↦
          let at : rp ≡ poll.hw_wp = ground arith in rw t (ap (λ (w : ℕ). some (w, codecs, 0)) at)
      | inr f ↦ let off : rp ≢ poll.hw_wp = ground arith in absurd (omega (arith, on off))
    ]
flush_loop-takes (suc fuel) size poll rp (suc n) codecs is hr hw e enough =
    let (here, on, inside, near) = steps rp poll.hw_wp size is hr hw in
    let next : ℕ = (rp + 1) % size in
    elim (Bool-cases (rp == poll.hw_wp)) [
      | inl t ↦ let at : rp ≡ poll.hw_wp = ground arith in absurd (omega (arith, here at))
      | inr f ↦
          let off : rp ≢ poll.hw_wp = ground arith in
          let one : n + 1 ≡ suc n = omega arith in
          let ih =
            flush_loop-takes fuel size poll next n (deposit (poll.ring next) codecs) is inside hw
              (omega (arith, on off)) (omega arith) in
          rw (f, ih)
            (ap
              (λ (k : ℕ). some (
                poll.hw_wp,
                deposit_all (responses n size poll.ring next) (deposit (poll.ring next) codecs),
                k,
              ))
              one)
    ]

-- What a response does for a codec that awaits one, and for one that awaits none.
deposit-answer :
    (cad : ℕ) (r : Response) (codecs : ℕ → Awaited)
    → cad < 16
    → (codecs cad).pending ≡ 1
    → is_answer cad r ≡ true
    → deposit r codecs cad ≡ record { pending = 0; response = r.value }
unfolding deposit
deposit-answer cad r codecs small one is =
    let at : r.cad ≡ cad = ground arith in
    let waits : (codecs r.cad).pending ≡ 1 = ap (λ n. (codecs n).pending) at ∙ one in
    let P : (ℕ → Awaited) → Type 0 = λ f. f cad ≡ record { pending = 0; response = r.value } in
    if_split P r.unsolicited _ _ (λ t. absurd (ground arith))
      (λ t.
        if_split P (ltb r.cad 16 && ltb 0 (codecs r.cad).pending) _ _
          (λ taken.
            if_split (λ (c : Awaited). c ≡ record { pending = 0; response = r.value })
              (cad == r.cad) _ _
              (λ same.
                let left : (codecs r.cad).pending - 1 ≡ 0 = omega (arith, waits) in
                ap (λ (n : ℕ). record { pending = n; response = r.value }) left)
              (λ differs. absurd (ground arith)))
          (λ dropped. absurd (ground arith)))

deposit-other :
    (cad : ℕ) (r : Response) (codecs : ℕ → Awaited)
    → is_answer cad r ≡ false
    → deposit r codecs cad ≡ codecs cad
unfolding deposit
deposit-other cad r codecs is =
    if_split (λ (f : ℕ → Awaited). f cad ≡ codecs cad) r.unsolicited _ _ (λ t. refl)
      (λ t.
        if_split (λ (f : ℕ → Awaited). f cad ≡ codecs cad)
          (ltb r.cad 16 && ltb 0 (codecs r.cad).pending) _ _
          (λ taken.
            let other : (cad == r.cad) ≡ false = ground arith in if_false (cad == r.cad) _ _ other)
          (λ dropped. refl))

deposit-idle :
    (cad : ℕ) (r : Response) (codecs : ℕ → Awaited)
    → (codecs cad).pending ≡ 0
    → deposit r codecs cad ≡ codecs cad
unfolding deposit
deposit-idle cad r codecs none_waits =
    if_split (λ (f : ℕ → Awaited). f cad ≡ codecs cad) r.unsolicited _ _ (λ t. refl)
      (λ t.
        if_split (λ (f : ℕ → Awaited). f cad ≡ codecs cad)
          (ltb r.cad 16 && ltb 0 (codecs r.cad).pending) _ _
          (λ taken.
            if_split (λ (c : Awaited). c ≡ codecs cad) (cad == r.cad) _ _
              (λ same.
                let at : r.cad ≡ cad = ground arith in
                let busy : 0 < (codecs r.cad).pending = ground arith in
                absurd (omega (arith, none_waits, ap (λ n. (codecs n).pending) at, busy)))
              (λ differs. refl))
          (λ dropped. refl))

deposit_all-idle :
    (cad : ℕ) (rs : List Response) (codecs : ℕ → Awaited)
    → (codecs cad).pending ≡ 0
    → deposit_all rs codecs cad ≡ codecs cad
unfolding deposit_all
deposit_all-idle cad [] codecs idle = refl
deposit_all-idle cad (r ∷ rs) codecs idle =
    let same = deposit-idle cad r codecs idle in
    deposit_all-idle cad rs (deposit r codecs) (ap (λ (c : Awaited). c.pending) same ∙ idle) ∙ same

-- What becomes of a codec that awaits a response: the first that is its, or it stays as it is.
abbrev pub Answered : Option ℕ → Awaited → Awaited → Type 0
Answered none before now = now ≡ before
Answered (some v) before now = now ≡ record { pending = 0; response = v }

pub deposit_all-Answered :
    (cad : ℕ) (rs : List Response) (codecs : ℕ → Awaited)
    → cad < 16
    → (codecs cad).pending ≡ 1
    → Answered (first_answer cad rs) (codecs cad) (deposit_all rs codecs cad)
unfolding deposit_all first_answer
deposit_all-Answered cad [] codecs small one = refl
deposit_all-Answered cad (r ∷ rs) codecs small one =
    let ih = deposit_all-Answered cad rs (deposit r codecs) small in
    if_split (λ o. Answered o (codecs cad) (deposit_all rs (deposit r codecs) cad))
      (is_answer cad r) _ _
      (λ is.
        let now = deposit-answer cad r codecs small one is in
        deposit_all-idle cad rs (deposit r codecs) (ap (λ (c : Awaited). c.pending) now) ∙ now)
      (λ other.
        let same = deposit-other cad r codecs other in
        subst
          (λ (c : Awaited).
            Answered (first_answer cad rs) c (deposit_all rs (deposit r codecs) cad))
          same (ih (ap (λ (c : Awaited). c.pending) same ∙ one)))
