-- ===== src/Fuzzy/Tsukamoto.antt =====
-- fuzzy/tsukamoto.py. A crisp output counts 1/20000 of a score point, and a score hundredths of one,
-- which is what `round(score, 2)` leaves.
use empyrean_v2_backend.Base.{
  ℕ, ◌+◌, ◌-◌, ◌*◌, ◌/◌, ◌%◌, min, List, [], ◌∷◌, ◌++◌, length, ltb, ◌==◌, if◌then◌else◌, Result,
  ok, err, ◌>>=◌,
}
use empyrean_v2_backend.Base.Int.{ℤ}
use empyrean_v2_backend.Base.Number.{Number, finite, nan, inf, neg_inf}
use empyrean_v2_backend.Fuzzy.Membership.{
  one, temp_low, temp_medium, temp_high, hum_dry, hum_humid, hum_wet, pm_low, pm_medium, pm_high,
}
use empyrean_v2_backend.Fuzzy.Rules.{
  TempTerm, HumTerm, PmTerm, Ramp, dry, humid, wet, consequents, rule_table,
}

-- What a caller may pass for a number.
pub data Value : Type 0 where
  missing other : Value
  num : Number → Value

pub data ValueError : Type 0 where
  not_numeric not_finite : ValueError

pub record Inference : Type 0 where
  pub score : ℕ
  pub rules_fired : ℕ

-- 20.00
abbrev pub default_score : ℕ
default_score = 2000

-- A fired rule: its strength and its crisp output.
pub record Fired : Type 0 where
  pub alpha : ℕ
  pub z : ℕ

unfoldable pub inverse : ℕ → Ramp → ℕ
inverse alpha r = r.lo * one + alpha * (r.hi - r.lo)

-- `round`: to the nearest whole number, and from the middle to the even one.
unfoldable pub round_half_even : ℕ → ℕ → ℕ
round_half_even n d =
    let q = n / d in
    let r = n % d in
    if ltb (2 * r) d then q else if ltb d (2 * r) then q + 1 else if q % 2 == 0 then q else q + 1

unfoldable pub sum_alpha : List Fired → ℕ
sum_alpha [] = 0
sum_alpha (f ∷ fs) = f.alpha + sum_alpha fs

unfoldable pub sum_weighted : List Fired → ℕ
sum_weighted [] = 0
sum_weighted (f ∷ fs) = f.alpha * f.z + sum_weighted fs

-- The weighted average, rounded to hundredths of a point.
unfoldable pub weighted_average : List Fired → ℕ
weighted_average fired =
    let total_alpha = sum_alpha fired in
    if total_alpha == 0
    then default_score
    else round_half_even (sum_weighted fired) (total_alpha * 200)

unfoldable pub require_finite : Value → Result ValueError ℤ
require_finite missing = err not_numeric
require_finite other = err not_numeric
require_finite (num (finite x)) = ok x
require_finite (num nan) = err not_finite
require_finite (num inf) = err not_finite
require_finite (num neg_inf) = err not_finite

-- The dictionaries `mu_t`, `mu_h` and `mu_p`, in the order of their keys.
abbrev pub mu_t : ℤ → List (TempTerm × ℕ)
mu_t t =
    (TempTerm.low, temp_low t)
    ∷ (TempTerm.medium, temp_medium t)
    ∷ (TempTerm.high, temp_high t)
    ∷ []

abbrev pub mu_h : ℤ → List (HumTerm × ℕ)
mu_h h = (dry, hum_dry h) ∷ (humid, hum_humid h) ∷ (wet, hum_wet h) ∷ []

abbrev pub mu_p : ℤ → List (PmTerm × ℕ)
mu_p p = (PmTerm.low, pm_low p) ∷ (PmTerm.medium, pm_medium p) ∷ (PmTerm.high, pm_high p) ∷ []

-- The innermost loop of `infer`.
unfoldable pub fire_pm : TempTerm × ℕ → HumTerm × ℕ → List (PmTerm × ℕ) → List Fired
fire_pm t h [] = []
fire_pm t h (p ∷ ps) =
    let rest = fire_pm t h ps in
    let alpha = min t.1 (min h.1 p.1) in
    if p.1 == 0
    then rest
    else if alpha == 0
    then rest
    else record { alpha = alpha; z = inverse alpha (consequents (rule_table t.0 h.0 p.0)) } ∷ rest

unfoldable pub fire_hum : TempTerm × ℕ → List (HumTerm × ℕ) → List (PmTerm × ℕ) → List Fired
fire_hum t [] ps = []
fire_hum t (h ∷ hs) ps =
    let rest = fire_hum t hs ps in if h.1 == 0 then rest else fire_pm t h ps ++ rest

unfoldable pub fire_temp : List (TempTerm × ℕ) → List (HumTerm × ℕ) → List (PmTerm × ℕ) → List Fired
fire_temp [] hs ps = []
fire_temp (t ∷ ts) hs ps =
    let rest = fire_temp ts hs ps in if t.1 == 0 then rest else fire_hum t hs ps ++ rest

-- The rules that fire on one reading.
unfoldable pub fired_rules : ℤ → ℤ → ℤ → List Fired
fired_rules t h p = fire_temp (mu_t t) (mu_h h) (mu_p p)

unfoldable pub infer : Value → Value → Value → Result ValueError Inference
infer temperature humidity pm25 = do
  t ← require_finite temperature
  h ← require_finite humidity
  p ← require_finite pm25
  let fired = fired_rules t h p
  ok (record { score = weighted_average fired; rules_fired = length fired })

unfoldable pub fuzzy_score : Value → Value → Value → Result ValueError ℕ
fuzzy_score temperature humidity pm25 = do r ← infer temperature humidity pm25; ok r.score
