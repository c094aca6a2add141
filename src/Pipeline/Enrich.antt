-- ===== src/Pipeline/Enrich.antt =====
-- What tasks/process_reading.py makes of a payload: the validated fields, the score, the index, the
-- time and the anomaly flag. Times are milliseconds, and ids are numbers.
use empyrean_v2_backend.Base.{
  ℕ, ◌+◌, ◌-◌, ◌*◌, ◌==◌, Bool, true, false, ◌&&◌, List, [], ◌∷◌, Option, none, some, ltb, leb,
  length, take, keep, if◌then◌else◌, Result, ok, err, ◌>>=◌,
}
use empyrean_v2_backend.Base.Int.{ℤ, pos, pos_part, neg_part}
use empyrean_v2_backend.Base.Number.{Number, finite, nan, inf, neg_inf}
use empyrean_v2_backend.Fuzzy.Tsukamoto.{Value, num, fuzzy_score}
use empyrean_v2_backend.Aqi.Bands.{Rating, compute_aqi}

-- The member `time`: absent or empty, not an ISO text, or a time in UTC.
pub data Time : Type 0 where
  absent unparseable : Time
  at : ℕ → Time

-- A numeric member: missing or null, a number, or a text, with what `float` makes of it: `none` is its
-- ValueError.
pub data Member : Type 0 where
  missing : Member
  number : Number → Member
  text : Option Number → Member

pub record Payload : Type 0 where
  pub node_id : Option ℕ
  pub time : Time
  pub temperature : Member
  pub humidity : Member
  pub pressure : Member
  pub voc_ohm : Member
  pub mq135_ppm : Member
  pub pm1 : Member
  pub pm25 : Member
  pub pm10 : Member
  pub battery_v : Member

-- A row of `sensor_readings`.
pub record Reading : Type 0 where
  pub time : ℕ
  pub node_id : ℕ
  pub temperature : Option ℤ
  pub humidity : Option ℤ
  pub pressure : Option ℤ
  pub voc_ohm : Option ℤ
  pub mq135_ppm : Option ℤ
  pub pm1 : Option ℤ
  pub pm25 : Option ℤ
  pub pm10 : Option ℤ
  pub battery_v : Option ℤ
  pub fuzzy_score : ℕ
  pub rating : Option Rating
  pub is_anomaly : Bool

-- The exceptions: of `float` and of the fuzzy engine, of the comparison in `compute_aqi`, and of an
-- insert that breaks another constraint than the primary key.
pub data Failure : Type 0 where
  value_error type_error integrity_error : Failure

-- `_to_float`
unfoldable pub to_float : Member → Result Failure (Option Number)
to_float missing = ok none
to_float (number x) = ok (some x)
to_float (text none) = err value_error
to_float (text (some x)) = ok (some x)

-- A value that is not finite is missing.
unfoldable pub finite_of : Option Number → Option ℤ
finite_of none = none
finite_of (some (finite x)) = some x
finite_of (some nan) = none
finite_of (some inf) = none
finite_of (some neg_inf) = none

-- `_valid_float`
unfoldable pub valid_float : Member → Result Failure (Option ℤ)
valid_float m = to_float m >>= λ x. ok (finite_of x)

abbrev pub or_default : Option ℤ → ℤ → ℤ
or_default none d = d
or_default (some x) d = x

abbrev pub to_number : Option ℤ → Option Number
to_number none = none
to_number (some x) = some (finite x)

-- Twenty-four hours.
abbrev pub time_skew_limit : ℕ
time_skew_limit = 86400000

-- `_parse_time`
unfoldable pub parse_time : ℕ → Time → ℕ
parse_time now absent = now
parse_time now unparseable = now
parse_time now (at t) =
    let skew = (t - now) + (now - t) in if ltb time_skew_limit skew then now else t

abbrev pub window : ℕ
window = 86400000

abbrev pub window_samples : ℕ
window_samples = 2880

abbrev pub min_samples : ℕ
min_samples = 5

-- ORDER BY time DESC
unfoldable pub insert : Reading → List Reading → List Reading
insert r [] = r ∷ []
insert r (q ∷ qs) = let rest = insert r qs in if leb q.time r.time then r ∷ q ∷ qs else q ∷ rest

unfoldable pub newest_first : List Reading → List Reading
newest_first [] = []
newest_first (r ∷ rs) = insert r (newest_first rs)

-- The WHERE clause of the anomaly window.
unfoldable pub is_recent : ℕ → ℕ → Reading → Bool
is_recent now node r =
    (r.node_id == node)
    && (leb (now - window) r.time && elim r.pm25 [ none ↦ false | some _ ↦ true ])

abbrev pub recent : ℕ → ℕ → List Reading → List Reading
recent now node readings = take window_samples (newest_first (keep (is_recent now node) readings))

-- The sums over the samples: of their positive parts, of their negative parts, and of their squares.
unfoldable pub sums : List Reading → ℕ × ℕ × ℕ
sums [] = (0, 0, 0)
sums (r ∷ rs) =
    let (p, n, q) = sums rs in
    let x = or_default r.pm25 (pos 0) in
    let size = pos_part x + neg_part x in (pos_part x + p, neg_part x + n, size * size + q)

abbrev pub distance : ℕ → ℕ → ℕ
distance a b = (a - b) + (b - a)

-- `detect_anomaly`, with both sides of z > 3 squared and multiplied by the square of the count: the
-- mean is sum / count, and the population variance is squares / count - mean².
unfoldable pub detect_anomaly : ℕ → ℕ → Option ℤ → List Reading → Bool
detect_anomaly now node none readings = false
detect_anomaly now node (some x) readings =
    let samples = recent now node readings in
    let count = length samples in
    let (p, n, q) = sums samples in
    let mean = distance p n in
    let variance = count * q - mean * mean in
    let deviation = distance (count * pos_part x + n) (count * neg_part x + p) in
    if ltb count min_samples
    then false
    else if variance == 0
    then false
    else ltb (9 * variance) (deviation * deviation)

-- The score of the fuzzy engine, its exceptions being ValueErrors.
unfoldable pub score_of : Option ℤ → Option ℤ → Option ℤ → Result Failure ℕ
score_of temperature humidity pm25 =
    let input : ℤ → Value = λ x. num (finite x) in
    elim (fuzzy_score (input (or_default temperature (pos 2500)))
      (input (or_default humidity (pos 0))) (input (or_default pm25 (pos 0)))) [
        | err _ ↦ err value_error
        | ok score ↦ ok score
      ]

unfoldable pub rating_of : Option ℤ → Option ℤ → Result Failure (Option Rating)
rating_of pm25 pm10 = elim (compute_aqi (to_number pm25) (to_number pm10)) [
  | err _ ↦ err type_error
  | ok rating ↦ ok rating
]

-- `_build_reading`: 25.0 degrees, dry air and clean air stand in for what is missing.
unfoldable pub build_reading : ℕ → ℕ → Payload → Result Failure Reading
build_reading now node p = do
  temperature ← valid_float p.temperature
  humidity ← valid_float p.humidity
  pm25 ← valid_float p.pm25
  pm10 ← valid_float p.pm10
  score ← score_of temperature humidity pm25
  rating ← rating_of pm25 pm10
  pressure ← valid_float p.pressure
  voc_ohm ← valid_float p.voc_ohm
  mq135_ppm ← valid_float p.mq135_ppm
  pm1 ← valid_float p.pm1
  battery_v ← valid_float p.battery_v
  ok (record {
    time = parse_time now p.time;
    node_id = node;
    temperature = temperature;
    humidity = humidity;
    pressure = pressure;
    voc_ohm = voc_ohm;
    mq135_ppm = mq135_ppm;
    pm1 = pm1;
    pm25 = pm25;
    pm10 = pm10;
    battery_v = battery_v;
    fuzzy_score = score;
    rating = rating;
    is_anomaly = false;
  })
