-- ===== src/Inputfs/State/Pointer.antt =====
-- `inputfs_state_update_pointer` of inputfs.c: where the pointer goes, and what it reports.
use awase.Base.{
  ℕ, ◌+◌, ◌-◌, ◌^◌, ◌≤◌, ◌<◌, ◌≡◌, refl, ap, sym, ◌∙◌, ◌⊎◌, inl, inr, true, List, length,
  length-blit, arith,
}
use awase.Base.Bytes.{get_u32, put_le, u32, length-put_le}
use awase.Base.Memory.{store_le, get_le-store_le, get_le-blit_disjoint}
use awase.Inputfs.State.{Geom, clamp, update_pointer}
use Prim.Native.Nat.{min}

-- A bit pattern stands for a move of at most `2 ^ 30` to the right or down, or to the left or up; and
-- the place that is `n` further, or 0 at the edge, on a line of `size` places.
unfoldable pub Moves : ℕ → ℕ → ℕ → ℕ → Type 0
Moves size cur d new =
    (d ≤ 2 ^ 30) × (new ≡ min (cur + d) (size - 1))
    ⊎ ((k : ℕ) × ((k ≤ 2 ^ 30) × ((d ≡ 2 ^ 32 - k) × ((0 < k) × (new ≡ cur - k)))))

clamp-forward :
    (size cur d : ℕ)
    → cur < size
    → size ≤ 2 ^ 30
    → d ≤ 2 ^ 30
    → clamp true size (u32 (cur + d)) ≡ min (cur + d) (size - 1)
unfolding clamp
clamp-forward size cur d h hs hd = ground arith

clamp-back :
    (size cur k : ℕ)
    → cur < size
    → size ≤ 2 ^ 30
    → 0 < k
    → k ≤ 2 ^ 30
    → clamp true size (u32 (cur + (2 ^ 32 - k))) ≡ cur - k
unfolding clamp
clamp-back size cur k h hs hk hk2 = ground arith

-- A delta between `-(2 ^ 30)` and `2 ^ 30`.
unfoldable pub Small : ℕ → Type 0
Small d = (d ≤ 2 ^ 30) ⊎ (2 ^ 32 - 2 ^ 30 ≤ d) × (d < 2 ^ 32)

clamp-Moves :
    (size cur d : ℕ)
    → cur < size
    → size ≤ 2 ^ 30
    → Small d
    → Moves size cur d (clamp true size (u32 (cur + d)))
unfolding Moves Small
clamp-Moves size cur d h hs (inl right) = inl (right, clamp-forward size cur d h hs right)
clamp-Moves size cur d h hs (inr (far, fits)) =
    let k : ℕ = 2 ^ 32 - d in
    let same : 2 ^ 32 - k ≡ d = omega arith in
    let back : clamp true size (u32 (cur + (2 ^ 32 - k))) ≡ cur - k =
      clamp-back size cur k h hs (omega arith) (omega arith) in
    inr (
      k,
      (
        omega arith,
        (omega arith, (omega arith, ap (λ m. clamp true size (u32 (cur + m))) (sym same) ∙ back)),
      ),
    )

Moves-inside :
    (size cur d new : ℕ)
    → cur < size
    → size ≤ 2 ^ 30
    → Moves size cur d new
    → (new < size) × (new < 2 ^ 30)
unfolding Moves
Moves-inside size cur d new h hs (inl (small, e)) = (ground arith, ground arith)
Moves-inside size cur d new h hs (inr (k, (h1, (h2, (h3, e))))) = (omega arith, omega arith)

-- The fields of the pointer once they are stored.
pointer_fields :
    (buf : List ℕ) (x y buttons : ℕ)
    → 64 ≤ length buf
    → x < 2 ^ 32
    → y < 2 ^ 32
    → buttons < 2 ^ 32
    → (let b3 = store_le 4 (store_le 4 (store_le 4 buf 32 x) 36 y) 40 buttons in
        (get_u32 b3 32 ≡ x) × (get_u32 b3 36 ≡ y) × (get_u32 b3 40 ≡ buttons))
unfolding get_u32
pointer_fields buf x y buttons room hx hy hb =
    let b1 : List ℕ = store_le 4 buf 32 x in
    let b2 : List ℕ = store_le 4 b1 36 y in
    let l1 : length b1 ≡ length buf = length-blit buf 32 (put_le 4 x) in
    let l2 : length b2 ≡ length b1 = length-blit b1 36 (put_le 4 y) in
    let ly : length (put_le 4 y) ≡ 4 = length-put_le 4 y in
    (
      get_le-blit_disjoint 4 32 b2 40 (put_le 4 buttons) (inr (omega arith))
          ∙ get_le-blit_disjoint 4 32 b1 36 (put_le 4 y) (inr (omega arith))
          ∙ get_le-store_le 4 buf 32 x (omega arith) (omega arith),
      get_le-blit_disjoint 4 36 b2 40 (put_le 4 buttons) (inr (omega arith))
          ∙ get_le-store_le 4 b1 36 y (omega arith) (omega arith),
      get_le-store_le 4 b2 40 buttons (omega arith) (omega arith),
    )

-- On a screen of known size, from a place on it, with deltas of at most `2 ^ 30` in size: the pointer
-- goes as far as the deltas say or to the edge, so that it stays on the screen, and the deltas
-- reported lead from the old place to the new one.
pub update_pointer-Moves :
    (geom : Geom) (buf : List ℕ) (dx dy buttons : ℕ)
    → 64 ≤ length buf
    → geom.known ≡ true
    → geom.width ≤ 2 ^ 30
    → geom.height ≤ 2 ^ 30
    → get_u32 buf 32 < geom.width
    → get_u32 buf 36 < geom.height
    → Small dx
    → Small dy
    → buttons < 2 ^ 32
    → (let (buf', actual_dx, actual_dy) = update_pointer geom buf dx dy buttons in
        let x = get_u32 buf' 32 in
        let y = get_u32 buf' 36 in
        Moves geom.width (get_u32 buf 32) dx x
        × Moves geom.height (get_u32 buf 36) dy y
        × (x < geom.width)
        × (y < geom.height)
        × (u32 (get_u32 buf 32 + actual_dx) ≡ x)
        × (u32 (get_u32 buf 36 + actual_dy) ≡ y)
        × (get_u32 buf' 40 ≡ buttons))
unfolding update_pointer get_u32
update_pointer-Moves geom buf dx dy buttons room known hw hh hx hy sx sy hb =
    let cx : ℕ = get_u32 buf 32 in
    let cy : ℕ = get_u32 buf 36 in
    let nx : ℕ = clamp true geom.width (u32 (cx + dx)) in
    let ny : ℕ = clamp true geom.height (u32 (cy + dy)) in
    let mx : Moves geom.width cx dx nx = clamp-Moves geom.width cx dx hx hw sx in
    let my : Moves geom.height cy dy ny = clamp-Moves geom.height cy dy hy hh sy in
    let (ix, bx) = Moves-inside geom.width cx dx nx hx hw mx in
    let (iy, by) = Moves-inside geom.height cy dy ny hy hh my in
    let (f32, f36, f40) = pointer_fields buf nx ny buttons room (omega arith) (omega arith) hb in
    rw (known, f32, f36, f40) (mx, my, ix, iy, omega arith, omega arith, refl)
