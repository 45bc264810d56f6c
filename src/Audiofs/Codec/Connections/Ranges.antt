-- ===== src/Audiofs/Codec/Connections/Ranges.antt =====
-- The connections that audiofs.c reads, against the ranges that the entries describe.
use awase.Base.{
  ℕ, zero, suc, ◌+◌, ◌-◌, ◌≤◌, ◌≡◌, refl, ap, sym, ◌∙◌, true, false, ◌&&◌, List, [], ◌∷◌, ◌++◌,
  length, length-append, take, append-nil, append_assoc, ltb, leb, ◌==◌, if◌then◌else◌, if_split,
  arith,
}
use mathlib.Core.Path.{subst}
use awase.Audiofs.Codec.Connections.{Entry, Conns, add_conns}

abbrev pub count_from : ℕ → ℕ → List ℕ
count_from zero a = []
count_from (suc n) a = a ∷ count_from n (a + 1)

-- What entries stand for, up to the first 0: an entry that ends a range stands for all numbers behind
-- the one before it, if there is one and it is less, and any other entry for its own.
unfoldable pub expand : ℕ → List Entry → List ℕ
expand prev [] = []
expand prev (e ∷ es) =
    if e.cnid == 0
    then []
    else (if e.range && (ltb 0 prev && ltb prev e.cnid)
        then count_from (e.cnid - prev) (prev + 1)
        else e.cnid ∷ [])
      ++ expand e.cnid es

pub take_all : (n : ℕ) (xs : List ℕ) → length xs ≤ n → take n xs ≡ xs
take_all zero [] h = refl
take_all zero (x ∷ xs) h = absurd (omega arith)
take_all (suc n) [] h = refl
take_all (suc n) (x ∷ xs) h = ap (◌∷◌ x) (take_all n xs (omega arith))

pub take_front : (n : ℕ) (xs ys : List ℕ) → n ≤ length xs → take n (xs ++ ys) ≡ take n xs
take_front zero xs ys h = refl
take_front (suc n) [] ys h = absurd (omega arith)
take_front (suc n) (x ∷ xs) ys h = ap (◌∷◌ x) (take_front n xs ys (omega arith))

-- Numbers that were to be read: as many as there is room for are there.
pub record Reads (xs : List ℕ) (s : Conns) : Type 0 where
  pub kept : s.conns ≡ take 16 xs
  pub overflows : s.overflow ≡ ltb 16 (length xs)

pub record Adds (xs : List ℕ) (s : Conns) : Type 0 where
  pub reads : Reads xs s
  pub stops : s.stopped ≡ ltb 16 (length xs)

pub add_conns-Adds :
    (n a : ℕ) (s : Conns)
    → length s.conns ≤ 16
    → s.overflow ≡ false
    → s.stopped ≡ false
    → Adds (s.conns ++ count_from n a) (add_conns n a s)
unfolding add_conns
add_conns-Adds zero a s fits fine on =
    let all : s.conns ++ [] ≡ s.conns = append-nil s.conns in
    let small : false ≡ ltb 16 (length s.conns) = ground arith in
    subst (λ xs. Adds xs s) (sym all)
      (record {
        reads = record { kept = sym (take_all 16 s.conns fits); overflows = fine ∙ small };
        stops = on ∙ small;
      })
add_conns-Adds (suc n) a s fits fine on =
    let more : List ℕ = count_from n (a + 1) in
    if_split (Adds (s.conns ++ (a ∷ more))) (leb 16 (length s.conns)) _ _
      (λ full.
        let sixteen : 16 ≤ length s.conns = ground arith in
        let long : length (s.conns ++ (a ∷ more)) ≡ length s.conns + suc (length more) =
          length-append s.conns (a ∷ more) in
        let over : true ≡ ltb 16 (length (s.conns ++ (a ∷ more))) = rw long (ground arith) in
        record {
          reads = record {
            kept = sym (take_front 16 s.conns (a ∷ more) sixteen ∙ take_all 16 s.conns fits);
            overflows = over;
          };
          stops = over;
        })
      (λ room.
        let long : length (s.conns ++ (a ∷ [])) ≡ length s.conns + 1 =
          length-append s.conns (a ∷ []) in
        subst (λ xs. Adds xs (add_conns n (a + 1) (record s { conns = s.conns ++ (a ∷ []) })))
          (append_assoc s.conns (a ∷ []) more)
          (add_conns-Adds n (a + 1) (record s { conns = s.conns ++ (a ∷ []) }) (ground arith) fine
            on))
