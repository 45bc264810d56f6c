-- ===== src/Drawfs/Ingest/Stream.antt =====
-- The input buffer of drawfs.c as a stream of bytes: appending, growing, and taking a frame.
use awase.Base.{
  ℕ, zero, suc, ◌+◌, ◌-◌, ◌≤◌, ◌<◌, ◌^◌, ◌≡◌, refl, sym, ap, ◌∙◌, List, [], ◌∷◌, ◌++◌, arith,
  Bool-cases, inl, inr, ltb, take, drop, blit, length, length-append, length-take, length-drop,
  take-prefix, append-nil, blit-take-drop, append_assoc,
}
use awase.Base.Bytes.{u64}
use awase.Drawfs.Session.{Session}
use awase.Drawfs.Inbuf.{taken, take_frame, remove_frame, count_received}
use awase.Drawfs.Ingest.{append_input, install_buffer}

-- The bytes that wait.
abbrev pub pending : Session → List ℕ
pending s = take s.in_len s.inbuf

take-nil : (k : ℕ) → ◌≡◌ {A = List ℕ} (take k []) []
take-nil zero = refl
take-nil (suc k) = refl

take_append-split : (m n : ℕ) (xs : List ℕ) → take (m + n) xs ≡ take m xs ++ take n (drop m xs)
take_append-split zero n xs = let e : 0 + n ≡ n = omega arith in rw e
take_append-split (suc m) n [] =
    let e : suc m + n ≡ suc (m + n) = omega arith in rw e (sym (take-nil n))
take_append-split (suc m) n (x ∷ xs) =
    let e : suc m + n ≡ suc (m + n) = omega arith in rw e (ap (◌∷◌ x) (take_append-split m n xs))

take-all : (xs : List ℕ) (n : ℕ) → length xs ≤ n → take n xs ≡ xs
take-all [] zero h = refl
take-all [] (suc n) h = refl
take-all (x ∷ xs) zero h = absurd (omega arith)
take-all (x ∷ xs) (suc n) h = ap (◌∷◌ x) (take-all xs n (omega arith))

append_input-pending :
    (s : Session) (buf : List ℕ) (n : ℕ)
    → s.in_len ≤ length s.inbuf
    → n ≤ length buf
    → s.in_len + n < 2 ^ 64
    → pending (append_input s buf n) ≡ pending s ++ take n buf
unfolding append_input
append_input-pending s buf n written long fits =
    let wraps : u64 (s.in_len + n) ≡ s.in_len + n = omega arith in
    rw (wraps, ← append_assoc (take s.in_len s.inbuf) (take n buf) (drop (s.in_len + n) s.inbuf))
      (take-prefix (s.in_len + n) (take s.in_len s.inbuf ++ take n buf) _ (
        omega (
          arith,
          length-append (take s.in_len s.inbuf) (take n buf),
          length-take s.in_len s.inbuf,
          length-take n buf,
        )))

install_buffer-pending : (s : Session) (newcap : ℕ) → pending (install_buffer s newcap) ≡ pending s
unfolding install_buffer
install_buffer-pending s newcap =
    take-all (take s.in_len s.inbuf) s.in_len (omega (arith, length-take s.in_len s.inbuf))

installed :
    (s : Session) (newcap : ℕ)
    → s.in_len ≤ length s.inbuf
    → (install_buffer s newcap).in_len ≤ length (install_buffer s newcap).inbuf
unfolding install_buffer
installed s newcap h = omega (arith, length-take s.in_len s.inbuf)

installed_len :
    (s : Session) (newcap n : ℕ)
    → s.in_len + n < 2 ^ 64
    → (install_buffer s newcap).in_len + n < 2 ^ 64
unfolding install_buffer
installed_len s newcap n h = h

-- Appending `n` bytes puts them behind those that wait, in the buffer at hand as well as in a new
-- one.
pub append-pending :
    (s : Session) (buf : List ℕ) (n newcap : ℕ)
    → s.in_len ≤ length s.inbuf
    → n ≤ length buf
    → s.in_len + n < 2 ^ 64
    → (pending (append_input s buf n) ≡ pending s ++ take n buf)
      × (pending (append_input (install_buffer s newcap) buf n) ≡ pending s ++ take n buf)
append-pending s buf n newcap written long fits = (
  append_input-pending s buf n written long fits,
  append_input-pending (install_buffer s newcap) buf n (installed s newcap written) long
        (installed_len s newcap n fits)
      ∙ ap (λ (xs : List ℕ). xs ++ take n buf) (install_buffer-pending s newcap),
)

take-blit :
    (xs src : List ℕ) (n : ℕ) → length src ≡ n → n ≤ length xs → take n (blit xs 0 src) ≡ src
take-blit xs src n e h =
    rw (blit-take-drop xs 0 src (omega arith)) (take-prefix n src (drop (0 + length src) xs) e)

remove_frame-pending :
    (s : Session) (n : ℕ)
    → n ≤ s.in_len
    → s.in_len ≤ length s.inbuf
    → take n s.inbuf ++ pending (remove_frame s n) ≡ pending s
unfolding remove_frame
remove_frame-pending s n le written =
    let rest = take (s.in_len - n) (drop n s.inbuf) in
    let size : length rest ≡ s.in_len - n =
      omega (arith, length-take (s.in_len - n) (drop n s.inbuf), length-drop n s.inbuf) in
    let whole : n + (s.in_len - n) ≡ s.in_len = omega arith in
    let parts : take s.in_len s.inbuf ≡ take n s.inbuf ++ rest =
      ap (λ (k : ℕ). take k s.inbuf) (sym whole) ∙ take_append-split n (s.in_len - n) s.inbuf in
    elim (Bool-cases (ltb 0 (s.in_len - n))) [
      | inl more ↦ rw (more, parts, take-blit s.inbuf rest (s.in_len - n) size (omega arith))
      | inr none' ↦
          let over : s.in_len - n ≡ 0 = ground arith in
          let same : n ≡ s.in_len = omega arith in
          rw (none', over, append-nil (take n s.inbuf), ← same)
    ]

-- A frame that is taken is the front of the bytes that wait, and what waits afterwards is the rest.
pub take_frame-pending :
    (s s' : Session) (n : ℕ) (hdr frame : List ℕ)
    → s.in_len ≤ length s.inbuf
    → take_frame s n hdr ≡ taken frame s'
    → frame ++ pending s' ≡ pending s
unfolding take_frame
take_frame-pending s s' n hdr frame written e =
    ground (arith, remove_frame-pending (count_received s) n)
