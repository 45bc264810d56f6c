-- ===== src/Inputfs/Focus/Routing.antt =====
-- `inputfs_focus_resolve_pointer` of inputfs.c against the surfaces as rectangles of whole numbers.
use awase.Base.{
  ℕ, zero, suc, ◌+◌, ◌*◌, ◌%◌, ◌^◌, ◌≤◌, ◌<◌, ◌≡◌, ◌≢◌, refl, ◌⊎◌, inl, inr, All, drop, Bool-cases,
  true, false, List, [], ◌∷◌, ltb, ◌==◌, if◌then◌else◌, arith,
}
use Prim.Native.Nat.{min}
use awase.Base.Bytes.{get_u16, get_u32, get_le, u32}
use mathlib.Core.Path.{subst}
use awase.Inputfs.Focus.{
  Focus, FocusSurface, less_i32, surface_at, is_hit, first_hit, resolve_pointer,
}

-- The place of a signed number on a line that starts at the least one.
unfoldable pub place : ℕ → ℕ
place p = u32 (p + 2 ^ 31)

-- A surface that is in use has a point in it.
unfoldable pub Contains : ℕ → ℕ → FocusSurface → Type 0
unfolding place
Contains x y s =
    (s.session_id ≢ 0)
    × (place s.x ≤ place x)
    × (place x < place s.x + s.width)
    × (place s.y ≤ place y)
    × (place y < place s.y + s.height)

positive : (k : ℕ) → 0 < 256 ^ k
positive zero = omega arith
positive (suc k) = omega (arith, positive k)

get_le-bound : (k : ℕ) (bs : List ℕ) → All (λ b. b < 256) bs → get_le k bs < 256 ^ k
unfolding get_le
get_le-bound zero bs h = omega arith
get_le-bound (suc k) [] h = positive (suc k)
get_le-bound (suc k) (b ∷ bs) h = omega (arith, get_le-bound k bs h.1, h.0)

All-drop : (k : ℕ) (bs : List ℕ) → All (λ b. b < 256) bs → All (λ b. b < 256) (drop k bs)
All-drop zero bs h = h
All-drop (suc k) [] h = tt
All-drop (suc k) (b ∷ bs) h = All-drop k bs h.1

surface_at-bound :
    (buf : List ℕ) (i : ℕ)
    → All (λ b. b < 256) buf
    → ((surface_at buf i).x < 2 ^ 32) × ((surface_at buf i).y < 2 ^ 32)
unfolding surface_at get_u32
surface_at-bound buf i h = (
  get_le-bound 4 (drop (64 + i * 20 + 4) buf) (All-drop (64 + i * 20 + 4) buf h),
  get_le-bound 4 (drop (64 + i * 20 + 8) buf) (All-drop (64 + i * 20 + 8) buf h),
)

is_hit-Contains :
    (x y : ℕ) (s : FocusSurface)
    → x < 2 ^ 32
    → y < 2 ^ 32
    → s.x < 2 ^ 32
    → s.y < 2 ^ 32
    → is_hit x y s ≡ true
    → Contains x y s
unfolding is_hit less_i32 Contains
is_hit-Contains x y s hx hy hsx hsy t =
    ((λ z. ground arith), ground arith, ground arith, ground arith, ground arith)

is_hit-misses :
    (x y : ℕ) (s : FocusSurface)
    → x < 2 ^ 32
    → y < 2 ^ 32
    → s.x < 2 ^ 32
    → s.y < 2 ^ 32
    → is_hit x y s ≡ false
    → ¬ Contains x y s
unfolding is_hit less_i32 Contains
is_hit-misses x y s hx hy hsx hsy f (used, left, right, top, bottom) =
    let some_session : (s.session_id == 0) ≡ false = ground arith in ground arith

-- What the loop finds from slot `i` on: the session of the first of `n` slots with the point, or none.
unfoldable pub Found : List ℕ → ℕ → ℕ → ℕ → ℕ → ℕ → Type 0
unfolding Contains
Found buf x y i n session =
    (session ≡ 0) × ((j : ℕ) → i ≤ j → j < i + n → ¬ Contains x y (surface_at buf j))
    ⊎ ((k : ℕ) × ((i ≤ k)
          × ((k < i + n)
              × (Contains x y (surface_at buf k)
                  × ((session ≡ (surface_at buf k).session_id)
                      × ((j : ℕ) → i ≤ j → j < k → ¬ Contains x y (surface_at buf j)))))))

misses-from :
    (buf : List ℕ) (x y i j : ℕ)
    → i ≤ j
    → ¬ Contains x y (surface_at buf i)
    → (i + 1 ≤ j → ¬ Contains x y (surface_at buf j))
    → ¬ Contains x y (surface_at buf j)
misses-from buf x y i j h first later = elim (Bool-cases (j == i)) [
  | inl t ↦
      let same : i ≡ j = ground arith in subst (λ m. ¬ Contains x y (surface_at buf m)) same first
  | inr f ↦ later (ground arith)
]

first_hit-Found :
    (buf : List ℕ) (x y i n : ℕ)
    → All (λ b. b < 256) buf
    → x < 2 ^ 32
    → y < 2 ^ 32
    → Found buf x y i n (first_hit buf x y i n)
unfolding first_hit Found
first_hit-Found buf x y i zero bytes hx hy = inl (refl, λ j h1 h2. absurd (omega arith))
first_hit-Found buf x y i (suc n) bytes hx hy =
    let s : FocusSurface = surface_at buf i in
    let (bx, by) = surface_at-bound buf i bytes in
    elim (Bool-cases (is_hit x y s)) [
      | inl t ↦ rw t (
          inr (
            i,
            (
              omega arith,
              (
                omega arith,
                (is_hit-Contains x y s hx hy bx by t, (refl, λ j h1 h2. absurd (omega arith))),
              ),
            ),
          ))
      | inr f ↦
          let miss : ¬ Contains x y s = is_hit-misses x y s hx hy bx by f in
          rw f (elim (first_hit-Found buf x y (i + 1) n bytes hx hy) [
            | inl (none, others) ↦
                inl
                  (none, λ j h1 h2. misses-from buf x y i j h1 miss (λ h. others j h (omega arith)))
            | inr (k, (h1, (h2, (inside, (same, others))))) ↦ inr (
              k,
              (
                omega arith,
                (
                  omega arith,
                  (inside, (same, λ j h3 h4. misses-from buf x y i j h3 miss (λ h. others j h h4))),
                ),
              ),
            )
          ])
    ]

-- Where the cached copy is valid, was not taken during an update, and has no grab: a pointer event goes
-- to the session of the first of the listed surfaces, 256 at most, that has the point in it, and to
-- none where no surface has it.
pub resolve_pointer-Found :
    (focus : Focus) (x y : ℕ)
    → All (λ b. b < 256) focus.buf
    → x < 2 ^ 32
    → y < 2 ^ 32
    → focus.cache_valid ≡ true
    → get_u32 focus.buf 8 % 2 ≡ 0
    → get_u32 focus.buf 16 ≡ 0
    → Found focus.buf x y 0 (min 256 (get_u16 focus.buf 20)) (resolve_pointer focus x y)
unfolding resolve_pointer
resolve_pointer-Found focus x y bytes hx hy valid even no_grab =
    let c : ℕ = get_u16 focus.buf 20 in
    let count : (if ltb 256 c then 256 else c) ≡ min 256 c = ground arith in
    rw (valid, even, no_grab, count) (first_hit-Found focus.buf x y 0 (min 256 c) bytes hx hy)
