-- ===== src/Base/Bytes.antt =====
-- Machine words, and the little-endian layout by which the kernel copies packed structures.
use Prim.Native.Nat.{ℕ, zero, suc, ◌+◌, ◌*◌, ◌/◌, ◌%◌, ◌^◌, ◌<◌}
use mathlib.Core.Path.{◌≡◌, refl, ap}
use mathlib.Core.List.{List, [], ◌∷◌, ◌++◌}
use native.Mathlib.Omega.{arith}
use awase.Base.Lists.{length, drop}

-- The value that a `uint32_t`, a `uint64_t` or a `size_t` keeps of a result.
abbrev pub u16 : ℕ → ℕ
u16 x = x % 2 ^ 16

abbrev pub u32 : ℕ → ℕ
u32 x = x % 2 ^ 32

abbrev pub u64 : ℕ → ℕ
u64 x = x % 2 ^ 64

-- The lowest `k` bytes of a number, lowest first, and back. Bytes that are missing read as 0.
unfoldable pub put_le : ℕ → ℕ → List ℕ
put_le zero x = []
put_le (suc k) x = (x % 256) ∷ put_le k (x / 256)

unfoldable pub get_le : ℕ → List ℕ → ℕ
get_le zero bs = 0
get_le (suc k) [] = 0
get_le (suc k) (b ∷ bs) = b + 256 * get_le k bs

-- Fields of a structure in memory, by their offset.
unfoldable pub get_u16 : List ℕ → ℕ → ℕ
unfolding get_le
get_u16 buf off = get_le 2 (drop off buf)

unfoldable pub get_u32 : List ℕ → ℕ → ℕ
unfolding get_le
get_u32 buf off = get_le 4 (drop off buf)

unfoldable pub get_u64 : List ℕ → ℕ → ℕ
unfolding get_le
get_u64 buf off = get_le 8 (drop off buf)

pub length-put_le : (k x : ℕ) → length (put_le k x) ≡ k
unfolding put_le
length-put_le zero x = refl
length-put_le (suc k) x = ap suc (length-put_le k (x / 256))

-- Reading back what was written, whatever follows it.
pub get_le-put_le : (k x : ℕ) (rest : List ℕ) → x < 256 ^ k → get_le k (put_le k x ++ rest) ≡ x
unfolding put_le get_le
get_le-put_le zero x rest h = omega arith
get_le-put_le (suc k) x rest h = omega (arith, get_le-put_le k (x / 256) rest (omega arith))

-- An aligned size: `(n + 3u) & ~3u` on a `uint32_t`.
abbrev pub align4 : ℕ → ℕ
align4 n = u32 (n + 3) / 4 * 4
