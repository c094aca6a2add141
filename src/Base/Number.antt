-- ===== src/Base/Number.antt =====
-- A Python float. A finite one is an exact multiple of a hundredth, the resolution of the sensors;
-- the three values that are not finite are kept apart, as `math.isfinite` tells them apart.
use mathlib.Core.Bool.{Bool, true, false}
use empyrean_v2_backend.Base.Int.{ℤ, leb_ℤ}

pub data Number : Type 0 where
  finite : ℤ → Number
  nan inf neg_inf : Number

-- `math.isfinite`
abbrev pub is_finite : Number → Bool
is_finite (finite _) = true
is_finite nan = false
is_finite inf = false
is_finite neg_inf = false

-- `x >= y`, which is false at NaN.
abbrev pub geb : Number → Number → Bool
geb nan _ = false
geb _ nan = false
geb inf _ = true
geb _ inf = false
geb _ neg_inf = true
geb neg_inf _ = false
geb (finite x) (finite y) = leb_ℤ y x
