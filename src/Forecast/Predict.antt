-- ===== src/Forecast/Predict.antt =====
-- The predictions of tasks/forecast.py (`generate_forecast`).
use empyrean_v2_backend.Base.{
  ℕ, zero, suc, ◌+◌, ◌*◌, ◌/◌, ◌==◌, List, [], ◌∷◌, Option, none, some, if◌then◌else◌,
}
use empyrean_v2_backend.Base.Int.{ℤ, pos, pos_part, neg_part, sub_ℕ, clamp}
use empyrean_v2_backend.Fuzzy.Tsukamoto.{round_half_even}
use empyrean_v2_backend.Access.Store.{set_entry}
use empyrean_v2_backend.Pipeline.Enrich.{Reading}
use empyrean_v2_backend.Forecast.Model.{
  Coefficient, number, not_finite, boolean, other, Model, Point, points, Cache, key_ttl,
  model_version, training_points, Regress, fit_model, get_model, cache_model,
}

abbrev pub forecast_horizon_minutes : ℕ
forecast_horizon_minutes = 60

abbrev pub units : Coefficient → ℤ
units (number x) = x
units not_finite = pos 0
units boolean = pos 0
units other = pos 0

-- `slope * ts + intercept`, in parts of a unit
unfoldable pub raw_aqi : Model → ℕ → ℤ
raw_aqi m ts =
    let a = units m.slope in
    let b = units m.intercept in sub_ℕ (pos_part a * ts + pos_part b) (neg_part a * ts + neg_part b)

-- The prediction for a time in seconds: clamped to [0, 500], and rounded to a tenth.
unfoldable pub point_at : ℕ → Model → ℕ → Point
point_at unit m ts = record {
  time = ts;
  aqi = round_half_even (10 * clamp (raw_aqi m ts) 0 (500 * unit)) unit;
}

-- The points of the steps from one on, up to the horizon.
unfoldable pub points_from : ℕ → Model → ℕ → ℕ → ℕ → List Point
points_from unit m start step zero = []
points_from unit m start step (suc left) =
    point_at unit m (start + 60 * step) ∷ points_from unit m start (step + 1) left

-- The predictions of a model at a time.
unfoldable pub predict : ℕ → Model → ℕ → List Point
predict unit m now = points_from unit m (now / 1000) 1 forecast_horizon_minutes

-- The cached forecast of a node for a version
unfoldable pub cache_forecast : ℕ → ℕ → ℕ → List Point → Cache → Cache
cache_forecast now node version ps c =
    if c.up
    then record c {
      forecasts = λ n.
          if n == node
          then set_entry version (points ps) (now + key_ttl) (c.forecasts n)
          else c.forecasts n;
    }
    else c

-- The model of a request: the cached one, or one that is fitted and cached.
unfoldable pub model_for :
    (ℕ → Option ℕ) → Regress → ℕ → ℕ → List Reading → ℕ → Cache → Option Model × Cache
model_for fromisoformat regress now stamp readings node c =
    elim (get_model fromisoformat now node c) [
      | some m ↦ (some m, c)
      | none ↦ elim (fit_model regress stamp (training_points now node readings)) [
        | none ↦ (none, c)
        | some m ↦ (some m, cache_model now node m c)
      ]
    ]

-- What a request has computed before it writes: the version that it will write under, and the
-- points.
unfoldable pub compute_forecast :
    ℕ
    → (ℕ → Option ℕ)
    → Regress
    → ℕ
    → ℕ
    → List Reading
    → ℕ
    → Cache
    → Option (ℕ × List Point) × Cache
compute_forecast unit fromisoformat regress now stamp readings node c =
    let (model, c') = model_for fromisoformat regress now stamp readings node c in
    elim model [ none ↦ (none, c') | some m ↦ (some (model_version m, predict unit m now), c') ]

-- `generate_forecast`, with nothing between the computation and the write.
unfoldable pub generate_forecast :
    ℕ → (ℕ → Option ℕ) → Regress → ℕ → ℕ → List Reading → ℕ → Cache → List Point × Cache
generate_forecast unit fromisoformat regress now stamp readings node c =
    let (computed, c') = compute_forecast unit fromisoformat regress now stamp readings node c in
    elim computed [
      | none ↦ ([], c')
      | some (version, ps) ↦ (ps, cache_forecast now node version ps c')
    ]
