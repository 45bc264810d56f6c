-- ===== src/Audiofs/Ring/Contents.antt =====
-- The ring of audiofs.c as a queue of bytes: what the copies into it and out of it do.
use awase.Base.{
  ℕ, ◌+◌, ◌-◌, ◌%◌, ◌≤◌, ◌<◌, ◌≡◌, ap, sym, ◌∙◌, inl, inr, Bool-cases, blit, leb→le, leb→lt, List,
  ◌++◌, length, take, drop, length-append, length-take, length-drop, length-blit, leb, arith,
}
use awase.Base.Indexed.{
  get_elem?, get_elem?-blit_inside, get_elem?-blit_outside, get_elem?-drop, get_elem?-take,
  get_elem?-append_left, get_elem?-append_right, list_ext,
}
use Prim.Native.Nat.{min}
use native.Mathlib.Decide.{dec_lt}
use awase.Audiofs.Ring.{read_ring, write_ring}

-- The ring has these bytes from a position on, around its end.
unfoldable pub Holds : List ℕ → ℕ → List ℕ → Type 0
Holds bytes pos q = (i : ℕ) → i < length q → get_elem? bytes ((pos + i) % 32768) ≡ get_elem? q i

pub length-write_ring :
    (bytes : List ℕ) (idx want : ℕ) (chunk : List ℕ)
    → length (write_ring bytes idx want chunk) ≡ length bytes
unfolding write_ring
length-write_ring bytes idx want chunk = elim (Bool-cases (leb (idx + want) 32768)) [
  | inl t ↦ rw t (length-blit bytes idx chunk)
  | inr f ↦ rw f (
      length-blit (blit bytes idx (take (32768 - idx) chunk)) 0 (drop (32768 - idx) chunk)
      ∙ length-blit bytes idx (take (32768 - idx) chunk))
]

-- What a copy into the ring leaves at a place `i` behind its start.
write_ring-at :
    (bytes : List ℕ) (idx want : ℕ) (chunk : List ℕ) (i : ℕ)
    → length bytes ≡ 32768
    → idx < 32768
    → length chunk ≤ want
    → want ≤ 32768
    → i < length chunk
    → get_elem? (write_ring bytes idx want chunk) ((idx + i) % 32768) ≡ get_elem? chunk i
unfolding write_ring
write_ring-at bytes idx want chunk i room at fits small inside =
    let first : ℕ = 32768 - idx in
    elim (Bool-cases (leb (idx + want) 32768)) [
      | inl t ↦
          let below : idx + want ≤ 32768 = leb→le (idx + want) 32768 t in
          let e : (idx + i) % 32768 ≡ idx + i = omega arith in
          let e' : idx + i - idx ≡ i = omega arith in
          rw (t, e)
            (get_elem?-blit_inside bytes idx chunk (idx + i) (omega arith) (omega arith)
                (omega arith)
              ∙ ap (get_elem? chunk) e')
      | inr f ↦
          let above : 32768 < idx + want = leb→lt (idx + want) 32768 f in
          let lt : length (take first chunk) ≡ min first (length chunk) = length-take first chunk in
          let ld : length (drop first chunk) ≡ length chunk - first = length-drop first chunk in
          let lb : length (blit bytes idx (take first chunk)) ≡ length bytes =
            length-blit bytes idx (take first chunk) in
          rw f (elim (dec_lt i first) [
            | yes h ↦
                let e : (idx + i) % 32768 ≡ idx + i = omega arith in
                let e' : idx + i - idx ≡ i = omega arith in
                rw e (
                  get_elem?-blit_outside (blit bytes idx (take first chunk)) 0 (drop first chunk)
                    (idx + i) (inr (omega arith))
                  ∙ get_elem?-blit_inside bytes idx (take first chunk) (idx + i) (omega arith)
                      (omega arith) (omega arith)
                  ∙ ap (get_elem? (take first chunk)) e'
                  ∙ get_elem?-take first chunk i h)
            | no h ↦
                let far : first ≤ i = omega arith in
                let e : (idx + i) % 32768 ≡ i - first = omega arith in
                let e' : first + (i - first - 0) ≡ i = omega arith in
                rw e (
                  get_elem?-blit_inside (blit bytes idx (take first chunk)) 0 (drop first chunk)
                    (i - first) (omega arith) (omega arith) (omega arith)
                  ∙ get_elem?-drop first chunk (i - first - 0)
                  ∙ ap (get_elem? chunk) e')
          ])
    ]

-- It leaves the places behind it.
write_ring-behind :
    (bytes : List ℕ) (idx want : ℕ) (chunk : List ℕ) (i : ℕ)
    → length bytes ≡ 32768
    → idx < 32768
    → length chunk ≤ want
    → want ≤ i
    → i < 32768
    → get_elem? (write_ring bytes idx want chunk) ((idx + i) % 32768)
      ≡ get_elem? bytes ((idx + i) % 32768)
unfolding write_ring
write_ring-behind bytes idx want chunk i room at fits above inside =
    let first : ℕ = 32768 - idx in
    let place : ℕ = (idx + i) % 32768 in
    elim (Bool-cases (leb (idx + want) 32768)) [
      | inl t ↦
          let below : idx + want ≤ 32768 = leb→le (idx + want) 32768 t in
          rw t (
            get_elem?-blit_outside bytes idx chunk place (elim (dec_lt (idx + i) 32768) [
              | yes h ↦ inr (omega arith)
              | no h ↦ inl (omega arith)
            ]))
      | inr f ↦
          let above' : 32768 < idx + want = leb→lt (idx + want) 32768 f in
          let lt : length (take first chunk) ≡ min first (length chunk) = length-take first chunk in
          let ld : length (drop first chunk) ≡ length chunk - first = length-drop first chunk in
          rw f (
            get_elem?-blit_outside (blit bytes idx (take first chunk)) 0 (drop first chunk) place
              (inr (omega arith))
            ∙ get_elem?-blit_outside bytes idx (take first chunk) place (inl (omega arith)))
    ]

-- What a copy out of it takes.
read_ring-at :
    (bytes : List ℕ) (idx n i : ℕ)
    → length bytes ≡ 32768
    → idx < 32768
    → n ≤ 32768
    → i < n
    → get_elem? (read_ring bytes idx n) i ≡ get_elem? bytes ((idx + i) % 32768)
unfolding read_ring
read_ring-at bytes idx n i room at small inside =
    let first : ℕ = 32768 - idx in
    elim (Bool-cases (leb (idx + n) 32768)) [
      | inl t ↦
          let below : idx + n ≤ 32768 = leb→le (idx + n) 32768 t in
          let e : (idx + i) % 32768 ≡ idx + i = omega arith in
          rw (t, e) (get_elem?-take n (drop idx bytes) i inside ∙ get_elem?-drop idx bytes i)
      | inr f ↦
          let above : 32768 < idx + n = leb→lt (idx + n) 32768 f in
          let ll : length (take first (drop idx bytes)) ≡ first =
            omega (arith, length-take first (drop idx bytes), length-drop idx bytes) in
          rw f (elim (dec_lt i first) [
            | yes h ↦
                let e : (idx + i) % 32768 ≡ idx + i = omega arith in
                rw e (
                  get_elem?-append_left (take first (drop idx bytes)) (take (n - first) bytes) i
                    (omega arith)
                  ∙ get_elem?-take first (drop idx bytes) i h
                  ∙ get_elem?-drop idx bytes i)
            | no h ↦
                let e : (idx + i) % 32768 ≡ i - first = omega arith in
                let e' : i - length (take first (drop idx bytes)) ≡ i - first = omega arith in
                rw e (
                  get_elem?-append_right (take first (drop idx bytes)) (take (n - first) bytes) i
                    (omega arith)
                  ∙ ap (get_elem? (take (n - first) bytes)) e'
                  ∙ get_elem?-take (n - first) bytes (i - first) (omega arith))
          ])
    ]

length-read_ring :
    (bytes : List ℕ) (idx n : ℕ)
    → length bytes ≡ 32768
    → idx < 32768
    → n ≤ 32768
    → length (read_ring bytes idx n) ≡ n
unfolding read_ring
length-read_ring bytes idx n room at small =
    let first : ℕ = 32768 - idx in
    elim (Bool-cases (leb (idx + n) 32768)) [
      | inl t ↦
          let below : idx + n ≤ 32768 = leb→le (idx + n) 32768 t in
          rw t (omega (arith, length-take n (drop idx bytes), length-drop idx bytes))
      | inr f ↦
          let above : 32768 < idx + n = leb→lt (idx + n) 32768 f in
          rw f (
            omega (
              arith,
              length-append {A = ℕ} (take first (drop idx bytes)) (take (n - first) bytes),
              length-take first (drop idx bytes),
              length-drop idx bytes,
              length-take (n - first) bytes,
            ))
    ]

-- A copy in right behind what the ring holds adds to it, if there is room.
pub Holds-write_ring :
    (bytes : List ℕ) (pos want : ℕ) (q chunk : List ℕ)
    → length bytes ≡ 32768
    → length chunk ≡ want
    → length q + want ≤ 32768
    → Holds bytes pos q
    → Holds (write_ring bytes ((pos + length q) % 32768) want chunk) pos (q ++ chunk)
unfolding Holds
Holds-write_ring bytes pos want q chunk room whole fits h i inside =
    let n : ℕ = length q in
    let idx : ℕ = (pos + n) % 32768 in
    let total : length (q ++ chunk) ≡ n + length chunk = length-append q chunk in
    elim (dec_lt i n) [
      | yes old ↦
          let k : ℕ = 32768 - n + i in
          let e : (pos + i) % 32768 ≡ (idx + k) % 32768 = omega arith in
          rw e (
            write_ring-behind bytes idx want chunk k room (omega arith) (omega arith) (omega arith)
              (omega arith)
            ∙ ap (get_elem? bytes) (sym e)
            ∙ h i old
            ∙ sym (get_elem?-append_left q chunk i old))
      | no fresh ↦
          let e : (pos + i) % 32768 ≡ (idx + (i - n)) % 32768 = omega arith in
          rw e (
            write_ring-at bytes idx want chunk (i - n) room (omega arith) (omega arith)
              (omega arith) (omega arith)
            ∙ sym (get_elem?-append_right q chunk i (omega arith)))
    ]

-- A copy into the free part leaves what the ring holds.
pub Holds-write_ring_free :
    (bytes : List ℕ) (pos want : ℕ) (q chunk : List ℕ)
    → length bytes ≡ 32768
    → length chunk ≤ want
    → length q + want ≤ 32768
    → Holds bytes pos q
    → Holds (write_ring bytes ((pos + length q) % 32768) want chunk) pos q
unfolding Holds
Holds-write_ring_free bytes pos want q chunk room part fits h i old =
    let n : ℕ = length q in
    let idx : ℕ = (pos + n) % 32768 in
    let k : ℕ = 32768 - n + i in
    let e : (pos + i) % 32768 ≡ (idx + k) % 32768 = omega arith in
    rw e (
      write_ring-behind bytes idx want chunk k room (omega arith) part (omega arith) (omega arith)
      ∙ ap (get_elem? bytes) (sym e)
      ∙ h i old)

-- A copy out takes the front, and the rest is held behind it.
pub read_ring-Holds :
    (bytes : List ℕ) (pos n : ℕ) (q : List ℕ)
    → length bytes ≡ 32768
    → n ≤ length q
    → length q ≤ 32768
    → Holds bytes pos q
    → read_ring bytes (pos % 32768) n ≡ take n q
unfolding Holds
read_ring-Holds bytes pos n q room part fits h =
    let lr : length (read_ring bytes (pos % 32768) n) ≡ n =
      length-read_ring bytes (pos % 32768) n room (omega arith) (omega arith) in
    list_ext (read_ring bytes (pos % 32768) n) (take n q) (omega (arith, length-take n q))
      (λ i inside.
        let e : (pos % 32768 + i) % 32768 ≡ (pos + i) % 32768 = omega arith in
        read_ring-at bytes (pos % 32768) n i room (omega arith) (omega arith) (omega arith)
        ∙ ap (get_elem? bytes) e
        ∙ h i (omega arith)
        ∙ sym (get_elem?-take n q i (omega arith)))

pub Holds-drop :
    (bytes : List ℕ) (pos pos' n : ℕ) (q : List ℕ)
    → pos' % 32768 ≡ (pos + n) % 32768
    → Holds bytes pos q
    → Holds bytes pos' (drop n q)
unfolding Holds
Holds-drop bytes pos pos' n q same h i inside =
    let e : (pos' + i) % 32768 ≡ (pos + (n + i)) % 32768 = omega arith in
    rw e (h (n + i) (omega (arith, length-drop n q)) ∙ sym (get_elem?-drop n q i))
