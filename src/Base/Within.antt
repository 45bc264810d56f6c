-- ===== src/Base/Within.antt =====
-- Buffers that come from others by stores in a range.
use Prim.Native.Nat.{ℕ, ◌+◌, ◌≤◌}
use mathlib.Core.Path.{◌≡◌, refl, ◌∙◌}
use mathlib.Core.Logic.{◌⊎◌, inl, inr}
use mathlib.Core.List.{List}
use native.Mathlib.Omega.{arith}
use awase.Base.Lists.{length, drop, blit, replicate, length-blit, length-replicate}
use awase.Base.Bytes.{put_le, get_le, length-put_le}
use awase.Base.Memory.{slice, store_le, clear, slice-blit_behind, slice-blit_before, get_le-slice}

-- One buffer comes from another by stores between two offsets.
unfoldable pub Within : ℕ → ℕ → List ℕ → List ℕ → Type 0
Within lo hi b1 b2 =
    (length b2 ≡ length b1)
    × ((off n : ℕ) → (off + n ≤ lo) ⊎ (hi ≤ off) → slice off n b2 ≡ slice off n b1)

pub Within-trans :
    (lo hi : ℕ) (b1 b2 b3 : List ℕ) → Within lo hi b1 b2 → Within lo hi b2 b3 → Within lo hi b1 b3
unfolding Within
Within-trans lo hi b1 b2 b3 h1 h2 = (h2.0 ∙ h1.0, λ off n o. h2.1 off n o ∙ h1.1 off n o)

pub Within-weaken :
    (lo hi lo' hi' : ℕ) (b1 b2 : List ℕ)
    → lo' ≤ lo
    → hi ≤ hi'
    → Within lo hi b1 b2
    → Within lo' hi' b1 b2
unfolding Within
Within-weaken lo hi lo' hi' b1 b2 hl hh w = (
  w.0,
  λ off n o. elim o [
    | inl before ↦ w.1 off n (inl (omega arith))
    | inr behind ↦ w.1 off n (inr (omega arith))
  ],
)

pub blit-Within :
    (lo hi : ℕ) (buf : List ℕ) (off : ℕ) (src : List ℕ)
    → lo ≤ off
    → off + length src ≤ hi
    → Within lo hi buf (blit buf off src)
unfolding Within
blit-Within lo hi buf off src hl hh = (
  length-blit buf off src,
  λ at n o. elim o [
    | inl before ↦ slice-blit_behind at n buf off src (omega arith)
    | inr behind ↦ slice-blit_before at n buf off src (omega arith)
  ],
)

pub store_le-Within :
    (lo hi k : ℕ) (buf : List ℕ) (off v : ℕ)
    → lo ≤ off
    → off + k ≤ hi
    → Within lo hi buf (store_le k buf off v)
store_le-Within lo hi k buf off v hl hh =
    blit-Within lo hi buf off (put_le k v) hl (omega (arith, length-put_le k v))

-- A field outside of what is stored to.
pub get_le-Within :
    (lo hi k at : ℕ) (b1 b2 : List ℕ)
    → Within lo hi b1 b2
    → (at + k ≤ lo) ⊎ (hi ≤ at)
    → get_le k (drop at b2) ≡ get_le k (drop at b1)
unfolding Within
get_le-Within lo hi k at b1 b2 w o = get_le-slice k at b2 b1 (w.1 at k o)

-- One more number stored.
pub Within-store_le :
    (lo hi k : ℕ) (buf b : List ℕ) (off v : ℕ)
    → lo ≤ off
    → off + k ≤ hi
    → Within lo hi buf b
    → Within lo hi buf (store_le k b off v)
Within-store_le lo hi k buf b off v hl hh w =
    Within-trans lo hi buf b (store_le k b off v) w (store_le-Within lo hi k b off v hl hh)

pub length-Within : (lo hi : ℕ) (b1 b2 : List ℕ) → Within lo hi b1 b2 → length b2 ≡ length b1
unfolding Within
length-Within lo hi b1 b2 w = w.0

pub Within-clear :
    (lo hi : ℕ) (buf b : List ℕ) (off n : ℕ)
    → lo ≤ off
    → off + n ≤ hi
    → Within lo hi buf b
    → Within lo hi buf (clear b off n)
Within-clear lo hi buf b off n hl hh w =
    Within-trans lo hi buf b (clear b off n) w
      (blit-Within lo hi b off (replicate n 0) hl (omega (arith, length-replicate {A = ℕ} n 0)))

pub Within-refl : (lo hi : ℕ) (buf : List ℕ) → Within lo hi buf buf
unfolding Within
Within-refl lo hi buf = (refl, λ off n o. refl)
