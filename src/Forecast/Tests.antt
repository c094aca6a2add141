-- ===== src/Forecast/Tests.antt =====
-- Tests of the forecasts, and their theorems at concrete models.
use empyrean_v2_backend.Base.{
  ℕ, zero, suc, ◌≡◌, refl, arith, true, false, List, [], ◌∷◌, Option, none, some, length, All,
}
use empyrean_v2_backend.Base.Int.{pos, negsuc}
use empyrean_v2_backend.Fuzzy.Tsukamoto.{round_half_even}
use empyrean_v2_backend.Access.Store.{live}
use empyrean_v2_backend.Aqi.Bands.{moderate}
use empyrean_v2_backend.Pipeline.Enrich.{Reading}
use empyrean_v2_backend.Forecast.Model.{
  number, text, Model, object, points, Cache, Regress, model_version, trained_at_is_fresh,
  valid_model, fit_model, get_model, training_points, insert,
}
use empyrean_v2_backend.Forecast.Predict.{
  raw_aqi, point_at, points_from, predict, cache_forecast, model_for, compute_forecast,
  generate_forecast,
}
use empyrean_v2_backend.Forecast.Points.{IsMinutely, IsNear, generate_forecast_points}
use empyrean_v2_backend.Forecast.Coherence.{Flight, State, empty}

-- A line that falls by half a point each second, in thousandths.
abbrev falling : Model
falling = record {
  slope = number (negsuc 499);
  intercept = number (pos 100000);
  trained_at = text 7;
}

-- 100 - 0.5 * 160 is 20, and below zero the line is cut.
two_points :
    points_from 1000 falling 100 1 2
    ≡ (record { time = 160; aqi = 200 }) ∷ (record { time = 220; aqi = 0 }) ∷ []
unfolding points_from point_at raw_aqi round_half_even
two_points = refl

abbrev fromisoformat : ℕ → Option ℕ
fromisoformat s = some 0

abbrev regress : Regress
regress samples = none

abbrev cache : Cache
cache = record {
  up = true;
  models = (record { key = 4; value = object falling; until = 3600000 }) ∷ [];
  forecasts = λ n. [];
  legacy = [];
}

model_is_cached : (model_for fromisoformat regress 5000 9 [] 4 cache).0 ≡ some falling
unfolding model_for get_model live valid_model trained_at_is_fresh
model_is_cached = refl

generate_forecast_points_example :
    let ps = (generate_forecast 1000 fromisoformat regress 5000 9 [] 4 cache).0 in
    (length ps ≡ 60) × IsMinutely 65 ps × All (IsNear 1000 falling) ps
generate_forecast_points_example =
    generate_forecast_points 1000 fromisoformat regress 5000 9 [] 4 cache falling (omega arith)
      model_is_cached

-- A model that is fitted on the fly.
abbrev fitted : Model
fitted = record { slope = number (pos 1); intercept = number (pos 0); trained_at = text 9 }

abbrev fit : Regress
fit samples = some (number (pos 1), number (pos 0))

abbrev reading : Reading
reading = record {
  time = 4000;
  node_id = 4;
  temperature = none;
  humidity = none;
  pressure = none;
  voc_ohm = none;
  mq135_ppm = none;
  pm1 = none;
  pm25 = none;
  pm10 = none;
  battery_v = none;
  fuzzy_score = 0;
  rating = some (record { aqi = pos 70; category = moderate });
  is_anomaly = false;
}

abbrev copies : ℕ → List Reading
copies zero = []
copies (suc n) = reading ∷ copies n

fit_on_the_fly : (model_for fromisoformat fit 5000 9 (copies 30) 4 empty.cache).0 ≡ some fitted
unfolding model_for get_model live fit_model training_points insert
fit_on_the_fly = refl

-- A request computes its forecast, and then writes it.
abbrev flight : Flight
flight = record { node = 4; version = model_version fitted; points = predict 1 fitted 5000 }

abbrev computed : State
computed = record {
  cache = (compute_forecast 1 fromisoformat fit 5000 9 (copies 30) 4 empty.cache).1;
  flights = flight ∷ [];
}

abbrev written : State
written = record {
  cache = cache_forecast 5500 4 (model_version fitted) (predict 1 fitted 5000) computed.cache;
  flights = [];
}
