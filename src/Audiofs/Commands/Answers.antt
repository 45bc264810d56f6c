-- ===== src/Audiofs/Commands/Answers.antt =====
-- What a command of audiofs.c returns, against the responses that arrive.
use awase.Base.{
  ℕ, zero, suc, ◌+◌, ◌%◌, ◌≤◌, ◌<◌, ◌≡◌, refl, ap, sym, ◌∙◌, Bool-cases, inl, inr, true, Option,
  none, some, List, [], ◌∷◌, ◌++◌, leb, ◌==◌, if◌then◌else◌, if_true, if_false, arith,
}
use mathlib.Core.Path.{subst}
use awase.Audiofs.Commands.{
  Response, Awaited, CommandRings, Poll, store_at, after_flush, rirb_flush, wait_response,
  finish_command, send_command,
}
use awase.Audiofs.Commands.Deposits.{
  responses, is_answer, arrivals, first_answer, deposit_all, IsSize, distance, steps,
  flush_loop-takes, Answered, deposit_all-Answered,
}

first_answer-append :
    (cad : ℕ) (xs ys : List Response)
    → first_answer cad (xs ++ ys)
      ≡ (elim (first_answer cad xs) [ none ↦ first_answer cad ys | some v ↦ some v ])
unfolding first_answer
first_answer-append cad [] ys = refl
first_answer-append cad (x ∷ xs) ys = elim (Bool-cases (is_answer cad x)) [
  | inl t ↦ rw t refl
  | inr f ↦ rw f (first_answer-append cad xs ys)
]

wait_response-Answered :
    (timeout fuel : ℕ) (polls : ℕ → Poll) (i cad : ℕ) (s : CommandRings)
    → IsSize s.rirb_size
    → s.rirb_size ≤ fuel
    → s.rirb_rp < s.rirb_size
    → ((k : ℕ) → (polls k).hw_wp < s.rirb_size)
    → cad < 16
    → (s.codecs cad).pending ≡ 1
    → (s' : CommandRings) × (wait_response timeout fuel polls i cad s ≡ some s')
      × Answered
          (first_answer cad (arrivals timeout s.rirb_size polls i s.rirb_rp))
          (s.codecs cad)
          (s'.codecs cad)
unfolding wait_response rirb_flush after_flush first_answer
wait_response-Answered zero fuel polls i cad s is enough hr hw small one = (s, refl, refl)
wait_response-Answered (suc timeout) fuel polls i cad s is enough hr hw small one =
    let (here, on, inside, near) = steps s.rirb_rp (polls i).hw_wp s.rirb_size is hr (hw i) in
    let n : ℕ = distance s.rirb_size s.rirb_rp (polls i).hw_wp in
    let rs : List Response = responses n s.rirb_size (polls i).ring s.rirb_rp in
    let taken =
      flush_loop-takes fuel s.rirb_size (polls i) s.rirb_rp n s.codecs is hr (hw i) refl
        (omega arith) in
    let s1 : CommandRings = record s {
      rirb_rp = (polls i).hw_wp;
      codecs = deposit_all rs s.codecs;
    } in
    let more : List Response = arrivals timeout s.rirb_size polls (i + 1) (polls i).hw_wp in
    let (s', went, now) =
      looked timeout fuel polls i cad s s1 more (first_answer cad rs)
        (deposit_all-Answered cad rs s.codecs small one) one
        (λ waits.
          wait_response-Answered timeout fuel polls (i + 1) cad s1 is enough (hw i) hw small
            waits) in
    let on : Option (CommandRings × ℕ) → Option CommandRings = λ f. elim f [
      | none ↦ none
      | some (s2, consumed) ↦
          let later = wait_response timeout fuel polls (i + 1) cad s2 in
          if (s2.codecs cad).pending == 0 then some s2 else later
    ] in
    (
      s',
      ap (λ f. on (after_flush s f)) taken ∙ went,
      subst (λ o. Answered o (s.codecs cad) (s'.codecs cad)) (sym (first_answer-append cad rs more))
          now,
    )
  where
    looked :
        (timeout fuel : ℕ) (polls : ℕ → Poll) (i cad : ℕ) (s s1 : CommandRings)
        (more : List Response) (o : Option ℕ)
        → Answered o (s.codecs cad) (s1.codecs cad)
        → (s.codecs cad).pending ≡ 1
        → ((s1.codecs cad).pending ≡ 1
            → (s' : CommandRings) × (wait_response timeout fuel polls (i + 1) cad s1 ≡ some s')
              × Answered (first_answer cad more) (s1.codecs cad) (s'.codecs cad))
        → (s' : CommandRings) × ((let later = wait_response timeout fuel polls (i + 1) cad s1 in
              if (s1.codecs cad).pending == 0 then some s1 else later)
            ≡ some s')
          × Answered
              (elim o [ none ↦ first_answer cad more | some v ↦ some v ])
              (s.codecs cad)
              (s'.codecs cad)
    looked timeout fuel polls i cad s s1 more none same one ih =
        let waits : (s1.codecs cad).pending ≡ 1 = ap (λ (c : Awaited). c.pending) same ∙ one in
        let (s', went, now) = ih waits in
        (
          s',
          if_false ((s1.codecs cad).pending == 0) _ _ (ground arith) ∙ went,
          subst (λ (c : Awaited). Answered (first_answer cad more) c (s'.codecs cad)) same now,
        )
    looked timeout fuel polls i cad s s1 more (some v) now one ih =
        let idle : (s1.codecs cad).pending ≡ 0 = ap (λ (c : Awaited). c.pending) now in
        (s1, if_true ((s1.codecs cad).pending == 0) _ _ (ground arith), now)

-- The first answer, or what stands for none.
abbrev pub answer_or : ℕ → Option ℕ → ℕ
answer_or invalid none = invalid
answer_or invalid (some v) = v

finish_command-answers :
    (invalid cad : ℕ) (o : Option ℕ) (before : Awaited) (s : CommandRings)
    → before.pending ≡ 1
    → Answered o before (s.codecs cad)
    → (s' : CommandRings) × (finish_command invalid cad (some s) ≡ some (answer_or invalid o, s'))
      × ((s'.codecs cad).pending ≡ 0)
unfolding finish_command
finish_command-answers invalid cad none before s one same =
    let c : Awaited = s.codecs cad in
    let waits : c.pending ≡ 1 = ap (λ (x : Awaited). x.pending) same ∙ one in
    let closed : CommandRings = record s {
      codecs = store_at cad (record c { pending = 0 }) s.codecs;
    } in
    let same_cad : (cad == cad) ≡ true = ground arith in
    (
      closed,
      if_false (c.pending == 0) _ _ (ground arith),
      ap (λ (x : Awaited). x.pending) (if_true (cad == cad) (record c { pending = 0 }) c same_cad),
    )
finish_command-answers invalid cad (some v) before s one now =
    let c : Awaited = s.codecs cad in
    let idle : c.pending ≡ 0 = ap (λ (x : Awaited). x.pending) now in
    (
      s,
      if_true (c.pending == 0) _ _ (ground arith) ∙ ap (λ (x : Awaited). some (x.response, s)) now,
      idle,
    )

-- For rings of a size that the hardware has, places within them, fuel for one round, and a codec of
-- which nothing is awaited: a command ends and returns the value of the first response that arrives
-- with the codec's address and was asked for, among all that arrive while the driver looks as often as
-- it does, and HDA_INVALID where there is none; and nothing of the codec is awaited then.
pub send_command-answers :
    (invalid timeout fuel : ℕ) (polls : ℕ → Poll) (embed : ℕ → ℕ → ℕ) (cad verb : ℕ)
    (s : CommandRings)
    → IsSize s.rirb_size
    → s.rirb_size ≤ fuel
    → s.rirb_rp < s.rirb_size
    → ((k : ℕ) → (polls k).hw_wp < s.rirb_size)
    → cad < 16
    → (s.codecs cad).pending ≡ 0
    → (s' : CommandRings) × (send_command invalid timeout fuel polls embed cad verb s
        ≡ some (
          answer_or invalid (first_answer cad (arrivals timeout s.rirb_size polls 0 s.rirb_rp)),
          s',
        ))
      × ((s'.codecs cad).pending ≡ 0)
unfolding send_command finish_command
send_command-answers invalid timeout fuel polls embed cad verb s is enough hr hw small idle =
    let c : Awaited = s.codecs cad in
    let asked : Awaited = record { pending = c.pending + 1; response = invalid } in
    let wp : ℕ = (s.corb_wp + 1) % s.corb_size in
    let sent : CommandRings = record s {
      codecs = store_at cad asked s.codecs;
      corb_wp = wp;
      corb = store_at wp (embed cad verb) s.corb;
    } in
    let same_cad : (cad == cad) ≡ true = ground arith in
    let is_asked : sent.codecs cad ≡ asked = if_true (cad == cad) asked c same_cad in
    let one : (sent.codecs cad).pending ≡ 1 =
      ap (λ (x : Awaited). x.pending) is_asked ∙ omega arith in
    let (s1, went, now) =
      wait_response-Answered timeout fuel polls 0 cad sent is enough hr hw small one in
    let o : Option ℕ = first_answer cad (arrivals timeout s.rirb_size polls 0 s.rirb_rp) in
    let (s2, done, quiet) = finish_command-answers invalid cad o (sent.codecs cad) s1 one now in
    (
      s2,
      if_false (leb 16 cad) _ _ (ground arith) ∙ ap (λ f. finish_command invalid cad f) went ∙ done,
      quiet,
    )
