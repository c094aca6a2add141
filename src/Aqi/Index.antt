-- ===== src/Aqi/Index.antt =====
-- The range of the index within a band, and the gaps between the bands (tasks/aqi.py).
use empyrean_v2_backend.Base.{ℕ, ◌≤◌, ◌<◌, ◌≡◌, refl, arith}
use empyrean_v2_backend.Base.Int.{ℤ, pos, negsuc, ◌≤ℤ◌, clamp, shift_ℤ}
use empyrean_v2_backend.Aqi.Bands.{
  Table, pm25_bands, pm10_bands, sub_band, interpolate, rate, Rating, Category, good, moderate,
  sensitive, unhealthy, very_unhealthy, hazardous,
}

-- The index values that a category stands for; the lower end of each but the first is the last value
-- of the category before.
abbrev pub category_floor : Category → ℕ
category_floor good = 0
category_floor moderate = 50
category_floor sensitive = 100
category_floor unhealthy = 150
category_floor very_unhealthy = 200
category_floor hazardous = 300

abbrev pub category_ceiling : Category → ℕ
category_ceiling good = 50
category_ceiling moderate = 100
category_ceiling sensitive = 150
category_ceiling unhealthy = 200
category_ceiling very_unhealthy = 300
category_ceiling hazardous = 500

-- The index lies within the range of its category, but for `slack` points at the lower end.
abbrev pub IsCoherent : ℕ → Rating → Type 0
IsCoherent slack r =
    (pos (category_floor r.category) ≤ℤ shift_ℤ r.aqi slack)
    × (r.aqi ≤ℤ pos (category_ceiling r.category))
    × (pos 0 ≤ℤ r.aqi)

abbrev at_band : Table → ℕ → Rating
at_band t c =
    let b = sub_band c t.lower t.top in record { aqi = interpolate b c; category = b.category }

pm25_at : (c : ℕ) → c ≤ 50040 → IsCoherent 0 (at_band pm25_bands c)
unfolding sub_band interpolate
pm25_at c h = ground arith

pm10_at : (c : ℕ) → c ≤ 60400 → IsCoherent 1 (at_band pm10_bands c)
unfolding sub_band interpolate
pm10_at c h = ground arith

clamp-le : (x : ℤ) (hi : ℕ) → clamp x 0 hi ≤ hi
clamp-le (pos n) hi = omega arith
clamp-le (negsuc n) hi = omega arith

-- At every concentration, negative and off the scale included, the PM2.5 index lies within the range
-- of the category that is reported with it, and the PM10 index too, or one point below that range. So
-- both are from 0 to 500 throughout.
pub rate-IsCoherent : (x : ℤ) → IsCoherent 0 (rate x pm25_bands) × IsCoherent 1 (rate x pm10_bands)
unfolding rate
rate-IsCoherent x =
    (pm25_at (clamp x 0 50040) (clamp-le x 50040), pm10_at (clamp x 0 60400) (clamp-le x 60400))

-- In the gaps between the bands index and category disagree: a PM2.5 concentration strictly between 35.4 and 35.5 is reported as unhealthy for
-- sensitive groups with the index 100 of the moderate category.
pub rate_gap :
    (c : ℕ)
    → 3540 < c
    → c < 3550
    → rate (pos c) pm25_bands ≡ record { aqi = pos 100; category = sensitive }
unfolding rate
rate_gap c lo hi = ground arith

-- A PM10 concentration just above 424.0, where the index is 300, is reported as hazardous with the
-- index 299: the index falls as the pollution rises, for a fifth of a µg/m³.
pub rate_drop :
    (c : ℕ)
    → 42400 < c
    → c < 42420
    → (rate (pos 42400) pm10_bands ≡ record { aqi = pos 300; category = very_unhealthy })
      × (rate (pos c) pm10_bands ≡ record { aqi = pos 299; category = hazardous })
unfolding rate
rate_drop c lo hi = (refl, ground arith)
