-- ===== src/Pipeline/Tests.antt =====
-- Tests of the task, and its theorems at one payload.
use empyrean_v2_backend.Base.{
  ℕ, ◌≡◌, refl, Bool, true, false, err, List, [], ◌∷◌, none, some, ok, arith,
}
use empyrean_v2_backend.Base.Int.{pos}
use empyrean_v2_backend.Base.Number.{finite, nan}
use empyrean_v2_backend.Aqi.Composite.{worst}
use empyrean_v2_backend.Pipeline.Enrich.{
  Payload, at, missing, number, text, value_error, build_reading, valid_float, to_float, Reading,
  parse_time, detect_anomaly, is_recent, newest_first, sums, insert,
}
use empyrean_v2_backend.Pipeline.Task.{Plant, process_reading}
use empyrean_v2_backend.Pipeline.Stored.{IsStored, process_reading_once}

abbrev payload : Payload
payload = record {
  node_id = some 7;
  time = at 100000000;
  temperature = number nan;
  humidity = number (finite (pos 4000));
  pressure = missing;
  voc_ohm = missing;
  mq135_ppm = missing;
  pm1 = missing;
  pm25 = text (some (finite (pos 1200)));
  pm10 = missing;
  battery_v = missing;
}

abbrev plant : Plant
plant = record {
  nodes = record { node_id = 7; is_active = true } ∷ [];
  readings = [];
  latest = [];
  snapshot = true;
  redis = true;
}

abbrev past : ℕ → Reading
past x = record {
  time = 100000000;
  node_id = 7;
  temperature = none;
  humidity = none;
  pressure = none;
  voc_ohm = none;
  mq135_ppm = none;
  pm1 = none;
  pm25 = some (pos x);
  pm10 = none;
  battery_v = none;
  fuzzy_score = 0;
  rating = none;
  is_anomaly = false;
}

abbrev history : List Reading
history = past 1000 ∷ past 1100 ∷ past 1000 ∷ past 1100 ∷ past 1000 ∷ past 1100 ∷ []

-- Around 10.5 with a deviation of 0.5, 12.0 is no anomaly (z is 3), and 12.01 is one.
anomaly_needs_more_than_three :
    (detect_anomaly 100000000 7 (some (pos 1200)) history ≡ false)
    × (detect_anomaly 100000000 7 (some (pos 1201)) history ≡ true)
unfolding detect_anomaly is_recent newest_first insert sums
anomaly_needs_more_than_three = (refl, refl)

-- A clock that is more than a day off is not believed.
skewed : parse_time 200000000 (at 100000000) ≡ 200000000
unfolding parse_time
skewed = refl

abbrev violates : Reading → Bool
violates r = false

-- A text that is no number raises, and nothing is stored.
illegible_raises :
    process_reading violates 100000000 (record payload { temperature = text none }) plant
    ≡ (plant, err value_error)
unfolding process_reading build_reading valid_float to_float
illegible_raises = refl

abbrev stored_row : Reading
stored_row = record (past 1200) {
  humidity = some (pos 4000);
  fuzzy_score = 1000;
  rating = worst (some (pos 1200)) none;
}

abbrev after : Plant
after = record plant { readings = stored_row ∷ [] }

stored_row-IsStored : IsStored 100000000 payload plant after stored_row
unfolding parse_time
stored_row-IsStored = record {
  id = 7;
  meant = record {
    row = record { node_id = 7; is_active = true };
    named = refl;
    known = refl;
    active = refl;
  };
  legible = refl;
  sound = record {
    node = refl;
    not_early = omega arith;
    not_late = omega arith;
    score = omega arith;
    rating = refl;
  };
  time = refl;
  pm25 = refl;
  pm10 = refl;
  temperature = refl;
  humidity = refl;
  unseen = refl;
  added = refl;
  nodes = refl;
}

process_reading_once_example : process_reading violates 100005000 payload after ≡ (after, ok none)
unfolding parse_time
process_reading_once_example =
    process_reading_once violates 100000000 100005000 payload plant after stored_row
      stored_row-IsStored refl
