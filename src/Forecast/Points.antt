-- ===== src/Forecast/Points.antt =====
-- The shape of a forecast, and how near it is to its line (tasks/forecast.py, `generate_forecast`).
use empyrean_v2_backend.Base.{
  ℕ, zero, suc, ◌+◌, ◌*◌, ◌/◌, ◌%◌, ◌≤◌, ◌<◌, ◌==◌, ◌≡◌, refl, ap, subst, arith, List, [], ◌∷◌,
  Option, some, length, All, ltb, inl, inr, ◌⊎◌, Bool-cases,
}
use empyrean_v2_backend.Base.Int.{ℤ, pos, negsuc, clamp}
use empyrean_v2_backend.Fuzzy.Tsukamoto.{round_half_even}
use empyrean_v2_backend.Fuzzy.Score.{round_bounds}
use empyrean_v2_backend.Pipeline.Enrich.{Reading}
use empyrean_v2_backend.Forecast.Model.{Model, Point, Cache, Regress}
use empyrean_v2_backend.Forecast.Predict.{
  raw_aqi, point_at, points_from, predict, model_for, compute_forecast, generate_forecast,
}
use native.Mathlib.Nat.{div-add-mod, mod-lt}

-- A point a minute, from a time on.
abbrev pub IsMinutely : ℕ → List Point → Type 0
IsMinutely t [] = Unit {0}
IsMinutely t (p ∷ ps) = (p.time ≡ t) × IsMinutely (t + 60) ps

-- The AQI is at most 500.0, and off the clamped line by half a tenth at most.
abbrev pub IsNear : ℕ → Model → Point → Type 0
IsNear unit m p =
    let line = clamp (raw_aqi m p.time) 0 (500 * unit) in
    (p.aqi ≤ 5000)
    × (2 * (p.aqi * unit) ≤ 20 * line + unit)
    × (20 * line ≤ 2 * (p.aqi * unit) + unit)

round_cases :
    (n d : ℕ)
    → ((round_half_even n d ≡ n / d) × (2 * (n % d) ≤ d))
      ⊎ ((round_half_even n d ≡ n / d + 1) × (d ≤ 2 * (n % d)))
unfolding round_half_even
round_cases n d = elim (Bool-cases (ltb (2 * (n % d)) d)) [
  | inl e ↦ inl (ground (arith, e), ground (arith, e))
  | inr e ↦ elim (Bool-cases (ltb d (2 * (n % d)))) [
    | inl e' ↦ inr (ground (arith, e, e'), ground (arith, e, e'))
    | inr e' ↦ elim (Bool-cases (n / d % 2 == 0)) [
      | inl e'' ↦ inl (ground (arith, e, e', e''), ground (arith, e, e'))
      | inr e'' ↦ inr (ground (arith, e, e', e''), ground (arith, e, e'))
    ]
  ]
]

near_below :
    (n d q r : ℕ)
    → d * q + r ≡ n
    → 2 * r ≤ d
    → (2 * (q * d) ≤ 2 * n + d) × (2 * n ≤ 2 * (q * d) + d)
near_below n d q r e h = (grind arith, grind arith)

near_above :
    (n d q r : ℕ)
    → d * q + r ≡ n
    → r < d
    → d ≤ 2 * r
    → (2 * ((q + 1) * d) ≤ 2 * n + d) × (2 * n ≤ 2 * ((q + 1) * d) + d)
near_above n d q r e k h = (grind arith, grind arith)

round_near :
    (n d : ℕ)
    → 0 < d
    → let x = round_half_even n d in (2 * (x * d) ≤ 2 * n + d) × (2 * n ≤ 2 * (x * d) + d)
round_near n d h =
    let e = div-add-mod n d in
    elim (round_cases n d) [
      | inl (x, low) ↦ rw x (near_below n d (n / d) (n % d) e low)
      | inr (x, high) ↦ rw x (near_above n d (n / d) (n % d) e (mod-lt n h) high)
    ]

clamp-le : (x : ℤ) (hi : ℕ) → clamp x 0 hi ≤ hi
clamp-le (pos n) hi = omega arith
clamp-le (negsuc n) hi = omega arith

point_at-IsNear : (unit : ℕ) (m : Model) (ts : ℕ) → 0 < unit → IsNear unit m (point_at unit m ts)
unfolding point_at
point_at-IsNear unit m ts h =
    let line = clamp (raw_aqi m ts) 0 (500 * unit) in
    let top = clamp-le (raw_aqi m ts) (500 * unit) in
    let near = round_near (10 * line) unit h in
    (
      (round_bounds 0 5000 (10 * line) unit h (omega arith) (omega (arith, top))).1,
      omega (arith, near.0),
      omega (arith, near.1),
    )

time-point_at : (unit : ℕ) (m : Model) (ts : ℕ) → (point_at unit m ts).time ≡ ts
unfolding point_at
time-point_at unit m ts = refl

points_from_lem :
    (unit : ℕ) (m : Model) (start step left : ℕ)
    → 0 < unit
    → let ps = points_from unit m start step left in
      (length ps ≡ left) × IsMinutely (start + 60 * step) ps × All (IsNear unit m) ps
unfolding points_from
points_from_lem unit m start step zero h = (refl, tt, tt)
points_from_lem unit m start step (suc left) h =
    let rest = points_from_lem unit m start (step + 1) left h in
    let ps = points_from unit m start (step + 1) left in
    (
      ap suc rest.0,
      (time-point_at unit m (start + 60 * step), subst (λ t. IsMinutely t ps) (omega arith) rest.1),
      (point_at-IsNear unit m (start + 60 * step) h, rest.2),
    )

-- Where a request has a model, its forecast is sixty points, one for each of the next sixty minutes
-- after the whole second at hand; each AQI lies between 0 and 500, and is within half a tenth of the
-- model's line, clamped to that range.
pub generate_forecast_points :
    (unit : ℕ) (fromisoformat : ℕ → Option ℕ) (regress : Regress) (now stamp : ℕ)
    (readings : List Reading) (node : ℕ) (c : Cache) (m : Model)
    → 0 < unit
    → (model_for fromisoformat regress now stamp readings node c).0 ≡ some m
    → let ps = (generate_forecast unit fromisoformat regress now stamp readings node c).0 in
      (length ps ≡ 60) × IsMinutely (now / 1000 + 60) ps × All (IsNear unit m) ps
unfolding generate_forecast predict compute_forecast
generate_forecast_points unit fromisoformat regress now stamp readings node c m h e =
    let shape = points_from_lem unit m (now / 1000) 1 60 h in rw (generate_forecast, e) shape
