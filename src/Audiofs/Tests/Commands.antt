-- ===== src/Audiofs/Tests/Commands.antt =====
-- A command to a codec with concrete responses, and the theorem on commands applied there.
use awase.Base.{ℕ, ◌+◌, ◌<◌, ◌≡◌, refl, true, false, inl, inr, some, ◌==◌, if◌then◌else◌, arith}
use awase.Audiofs.Commands.{CommandRings, Poll, send_command}
use awase.Audiofs.Commands.Deposits.{arrivals, first_answer}
use awase.Audiofs.Commands.Answers.{answer_or, send_command-answers}

-- At first nothing, then a response that nobody asked for, one of another codec, and the answer, around
-- the ring's end.
abbrev polls : ℕ → Poll
polls k = record {
  hw_wp = (if k == 0 then 14 else 1);
  ring = λ n.
      if n == 15
      then record { value = 3; unsolicited = true; cad = 2 }
      else if n == 0
      then record { value = 4; unsolicited = false; cad = 1 }
      else record { value = 5; unsolicited = false; cad = 2 };
}

abbrev rings : CommandRings
rings = record {
  corb_size = 256;
  rirb_size = 16;
  corb = λ n. 0;
  corb_wp = 255;
  rirb_rp = 14;
  codecs = λ n. record { pending = 0; response = 0 };
}

polls-inside : (k : ℕ) → (polls k).hw_wp < 16
polls-inside k = ground arith

the_answer : answer_or 99 (first_answer 2 (arrivals 3 16 polls 0 14)) ≡ 5
unfolding first_answer
the_answer = refl

send_command-answers_example :
    (s' : CommandRings) × (send_command 99 3 16 polls (λ cad verb. cad + verb) 2 7 rings
      ≡ some (answer_or 99 (first_answer 2 (arrivals 3 16 polls 0 14)), s'))
    × ((s'.codecs 2).pending ≡ 0)
send_command-answers_example =
    send_command-answers 99 3 16 polls (λ cad verb. cad + verb) 2 7 rings (inr (inl refl))
      (omega arith) (omega arith) polls-inside (omega arith) refl
