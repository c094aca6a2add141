-- ===== src/Aqi/Composite.antt =====
-- The composite of the two pollutants (tasks/aqi.py, `compute_aqi`).
use empyrean_v2_backend.Base.{◌≡◌, arith, if◌then◌else◌, Option, none, some, ok}
use empyrean_v2_backend.Base.Int.{ℤ, leb_ℤ}
use empyrean_v2_backend.Base.Number.{Number, finite, nan, inf, neg_inf}
use empyrean_v2_backend.Aqi.Bands.{
  pm25_bands, pm10_bands, rate, Rating, aqi_for, candidate, max_from, compute_aqi,
}

-- The concentration that is used: a missing value, NaN and the infinities count as absent.
abbrev pub usable : Option Number → Option ℤ
usable (some (finite x)) = some x
usable none = none
usable (some nan) = none
usable (some inf) = none
usable (some neg_inf) = none

-- What the composite should be: the rating of the pollutant with the larger index, PM2.5 on a tie;
-- that of the only usable one; and none without any.
abbrev pub worst : Option ℤ → Option ℤ → Option Rating
worst none none = none
worst (some x) none = some (rate x pm25_bands)
worst none (some y) = some (rate y pm10_bands)
worst (some x) (some y) =
    if leb_ℤ (rate y pm10_bands).aqi (rate x pm25_bands).aqi
    then some (rate x pm25_bands)
    else some (rate y pm10_bands)

-- On any two inputs, missing and not finite ones included, the composite is computed with no error,
-- and is the rating of the worse of the usable pollutants.
pub compute_aqi-eq-worst :
    (pm25 pm10 : Option Number) → compute_aqi pm25 pm10 ≡ ok (worst (usable pm25) (usable pm10))
unfolding compute_aqi candidate aqi_for max_from
compute_aqi-eq-worst pm25 pm10 = ground arith
