-- ===== src/Aqi/Bands.antt =====
-- The definitions of tasks/aqi.py.
use empyrean_v2_backend.Base.{
  ℕ, ◌-◌, List, [], ◌∷◌, ◌++◌, Option, none, some, leb, if◌then◌else◌, Result, ok, err,
}
use empyrean_v2_backend.Base.Int.{ℤ, sub_ℕ, scale_ℤ, shift_ℤ, floor_div, clamp, leb_ℤ}
use empyrean_v2_backend.Base.Number.{Number, finite, nan, inf, neg_inf, is_finite}

-- CATEGORIES without its repeated last entry.
pub data Category : Type 0 where
  good moderate sensitive unhealthy very_unhealthy hazardous : Category

-- A row of a breakpoint table, with the category of its position.
pub record Band : Type 0 where
  pub c_lo : ℕ
  pub c_hi : ℕ
  pub i_lo : ℕ
  pub i_hi : ℕ
  pub category : Category

abbrev pub band : ℕ → ℕ → ℕ → ℕ → Category → Band
band a b c d k = record { c_lo = a; c_hi = b; i_lo = c; i_hi = d; category = k }

-- A table: the rows before the last, and the last.
pub record Table : Type 0 where
  pub lower : List Band
  pub top : Band

abbrev pub pm25_bands : Table
pm25_bands = record {
  lower =
      band 0 1200 0 50 good
      ∷ band 1200 3540 51 100 moderate
      ∷ band 3550 5540 101 150 sensitive
      ∷ band 5550 15040 151 200 unhealthy
      ∷ band 15050 25040 201 300 very_unhealthy
      ∷ band 25050 35040 301 400 hazardous
      ∷ [];
  top = band 35050 50040 401 500 hazardous;
}

abbrev pub pm10_bands : Table
pm10_bands = record {
  lower =
      band 0 5400 0 50 good
      ∷ band 5500 15400 51 100 moderate
      ∷ band 15500 25400 101 150 sensitive
      ∷ band 25500 35400 151 200 unhealthy
      ∷ band 35500 42400 201 300 very_unhealthy
      ∷ band 42500 50400 301 400 hazardous
      ∷ [];
  top = band 50500 60400 401 500 hazardous;
}

-- `bands[_subindex(c, bands)]`: the first row whose upper breakpoint is not passed, else the last.
unfoldable pub sub_band : ℕ → List Band → Band → Band
sub_band c [] top = top
sub_band c (b ∷ bs) top = if leb c b.c_hi then b else sub_band c bs top

-- math.floor((ihi - ilo) / (hi - lo) * (c - lo) + ilo)
unfoldable pub interpolate : Band → ℕ → ℤ
interpolate b c =
    shift_ℤ (floor_div (scale_ℤ (b.i_hi - b.i_lo) (sub_ℕ c b.c_lo)) (b.c_hi - b.c_lo)) b.i_lo

pub record Rating : Type 0 where
  pub aqi : ℤ
  pub category : Category

unfoldable pub rate : ℤ → Table → Rating
unfolding sub_band interpolate
rate x t =
    let c = clamp x 0 t.top.c_hi in
    let b = sub_band c t.lower t.top in record { aqi = interpolate b c; category = b.category }

-- `_aqi_for`; `none` is the pair (None, None).
unfoldable pub aqi_for : Option Number → Table → Option Rating
aqi_for (some (finite x)) t = some (rate x t)
aqi_for none t = none
aqi_for (some nan) t = none
aqi_for (some inf) t = none
aqi_for (some neg_inf) t = none

pub data TypeError : Type 0 where
  unordered : TypeError

-- Python's `max(candidates, key=lambda c: c[0])`: the first of the largest. A comparison with None
-- raises, and a single candidate is not compared.
unfoldable pub max_from : Option Rating → List (Option Rating) → Result TypeError (Option Rating)
max_from best [] = ok best
max_from none (c ∷ cs) = err unordered
max_from (some b) (none ∷ cs) = err unordered
max_from (some b) (some c ∷ cs) = max_from (some (if leb_ℤ c.aqi b.aqi then b else c)) cs

-- What one pollutant adds to `candidates`.
unfoldable pub candidate : Option Number → Table → List (Option Rating)
candidate none t = []
candidate (some x) t = if is_finite x then aqi_for (some x) t ∷ [] else []

unfoldable pub compute_aqi : Option Number → Option Number → Result TypeError (Option Rating)
compute_aqi pm25 pm10 = elim (candidate pm25 pm25_bands ++ candidate pm10 pm10_bands) [
  | [] ↦ ok none
  | c ∷ cs ↦ max_from c cs
]
