-- ===== src/Base/Int.antt =====
-- Python's integers over the native numbers.
use Prim.Native.Nat.{ℕ, suc, ◌+◌, ◌-◌, ◌*◌, ◌/◌, ◌≤◌, min, max}
use mathlib.Core.Bool.{Bool}
use empyrean_v2_backend.Base.Tests.{leb, if◌then◌else◌}

-- `negsuc n` is -(n + 1).
pub data ℤ : Type 0 where
  pos : ℕ → ℤ
  negsuc : ℕ → ℤ

abbrev pub pos_part : ℤ → ℕ
pos_part (pos n) = n
pos_part (negsuc n) = 0

abbrev pub neg_part : ℤ → ℕ
neg_part (pos n) = 0
neg_part (negsuc n) = suc n

-- a - b
abbrev pub sub_ℕ : ℕ → ℕ → ℤ
sub_ℕ a b = if leb b a then pos (a - b) else negsuc (b - a - 1)

infix 50 ◌≤ℤ◌
abbrev pub ◌≤ℤ◌ : ℤ → ℤ → Type 0
a ≤ℤ b = pos_part a + neg_part b ≤ pos_part b + neg_part a

abbrev pub leb_ℤ : ℤ → ℤ → Bool
leb_ℤ a b = leb (pos_part a + neg_part b) (pos_part b + neg_part a)

-- n * a, for a natural n
abbrev pub scale_ℤ : ℕ → ℤ → ℤ
scale_ℤ n a = sub_ℕ (n * pos_part a) (n * neg_part a)

-- a + n, for a natural n
abbrev pub shift_ℤ : ℤ → ℕ → ℤ
shift_ℤ a n = sub_ℕ (pos_part a + n) (neg_part a)

-- floor(a / d), for a positive d
abbrev pub floor_div : ℤ → ℕ → ℤ
floor_div (pos n) d = pos (n / d)
floor_div (negsuc n) d = negsuc (n / d)

-- `max(lo, min(hi, x))` with bounds that are not negative
abbrev pub clamp : ℤ → ℕ → ℕ → ℕ
clamp (pos n) lo hi = max lo (min hi n)
clamp (negsuc n) lo hi = lo
