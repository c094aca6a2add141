-- ===== src/Aggregation/Rollup.antt =====
-- The hourly roll-up (tasks/aggregation.py, `hourly_aggregate`; models/aggregate.py). Times are
-- milliseconds, from the epoch. An average stays a sum with a count; the columns' rounding is left out.
use empyrean_v2_backend.Base.{
  ℕ, ◌+◌, ◌-◌, ◌*◌, ◌/◌, ◌==◌, Bool, ◌&&◌, List, [], ◌∷◌, Option, none, some, ltb, leb, min, max,
  length, keep, count, if◌then◌else◌,
}
use empyrean_v2_backend.Base.Int.{ℤ, pos_part, neg_part, sub_ℕ, leb_ℤ}
use empyrean_v2_backend.Pipeline.Enrich.{Reading}

-- AVG: the sum of the values that are not null, and how many they are.
pub record Mean : Type 0 where
  pub sum : ℤ
  pub count : ℕ

-- The columns of `hourly_agg` that are not in its primary key.
pub record Summary : Type 0 where
  pub avg_temperature : Option Mean
  pub avg_humidity : Option Mean
  pub avg_pm25 : Option Mean
  pub avg_pm10 : Option Mean
  pub max_aqi : Option ℤ
  pub min_aqi : Option ℤ
  pub avg_aqi : Option Mean
  pub anomaly_count : ℕ
  pub reading_count : ℕ

-- A row of `hourly_agg`.
pub record HourlyAgg : Type 0 where
  pub bucket : ℕ
  pub node_id : ℕ
  pub summary : Summary

abbrev pub hour : ℕ
hour = 3600000

abbrev pub day : ℕ
day = 86400000

-- `date_trunc('hour', time)` in UTC
abbrev pub hour_of : ℕ → ℕ
hour_of t = (t / hour) * hour

abbrev pub aqi : Reading → Option ℤ
aqi r = elim r.rating [ none ↦ none | some x ↦ some x.aqi ]

-- The values of a column that are not null.
unfoldable pub present : (Reading → Option ℤ) → List Reading → List ℤ
present column [] = []
present column (r ∷ rs) = elim (column r) [
  | none ↦ present column rs
  | some x ↦ x ∷ present column rs
]

unfoldable pub total : List ℤ → ℤ
total [] = sub_ℕ 0 0
total (x ∷ xs) = sub_ℕ (pos_part x + pos_part (total xs)) (neg_part x + neg_part (total xs))

unfoldable pub avg : List ℤ → Option Mean
avg [] = none
avg (x ∷ xs) = some (record { sum = total (x ∷ xs); count = length (x ∷ xs) })

unfoldable pub maximum : List ℤ → Option ℤ
maximum [] = none
maximum (x ∷ xs) = elim (maximum xs) [ none ↦ some x | some y ↦ some (if leb_ℤ x y then y else x) ]

unfoldable pub minimum : List ℤ → Option ℤ
minimum [] = none
minimum (x ∷ xs) = elim (minimum xs) [ none ↦ some x | some y ↦ some (if leb_ℤ x y then x else y) ]

abbrev pub anomalous : Reading → Bool
anomalous r = r.is_anomaly

unfoldable pub summarise : List Reading → Summary
unfolding present total avg maximum minimum
summarise rs = record {
  avg_temperature = avg (present (λ r. r.temperature) rs);
  avg_humidity = avg (present (λ r. r.humidity) rs);
  avg_pm25 = avg (present (λ r. r.pm25) rs);
  avg_pm10 = avg (present (λ r. r.pm10) rs);
  max_aqi = maximum (present aqi rs);
  min_aqi = minimum (present aqi rs);
  avg_aqi = avg (present aqi rs);
  anomaly_count = count anomalous rs;
  reading_count = length rs;
}

abbrev pub in_group : ℕ → ℕ → Reading → Bool
in_group b n r = (hour_of r.time == b) && (r.node_id == n)

abbrev pub is_row : ℕ → ℕ → HourlyAgg → Bool
is_row b n h = (h.bucket == b) && (h.node_id == n)

-- The row of an hour and a node.
unfoldable pub row_of : List Reading → ℕ → ℕ → HourlyAgg
row_of rs b n = record { bucket = b; node_id = n; summary = summarise (keep (in_group b n) rs) }

-- GROUP BY bucket, node_id: a row for each group of the second list, with the members of the first.
unfoldable pub group_by : List Reading → List Reading → List HourlyAgg
group_by whole [] = []
group_by whole (r ∷ rs) =
    let rest = group_by whole rs in
    if count (is_row (hour_of r.time) r.node_id) rest == 0
    then row_of whole (hour_of r.time) r.node_id ∷ rest
    else rest

-- INSERT … ON CONFLICT (bucket, node_id) DO UPDATE
unfoldable pub upsert : HourlyAgg → List HourlyAgg → List HourlyAgg
upsert h [] = h ∷ []
upsert h (x ∷ t) = if is_row h.bucket h.node_id x then h ∷ t else x ∷ upsert h t

unfoldable pub upsert_each : List HourlyAgg → List HourlyAgg → List HourlyAgg
upsert_each [] t = t
upsert_each (h ∷ hs) t = upsert_each hs (upsert h t)

-- MIN of the hours of the readings before a time
unfoldable pub earliest_hour : ℕ → List Reading → Option ℕ
earliest_hour end [] = none
earliest_hour end (r ∷ rs) =
    let rest = earliest_hour end rs in
    if ltb r.time end
    then elim rest [ none ↦ some (hour_of r.time) | some e ↦ some (min (hour_of r.time) e) ]
    else rest

-- MAX(bucket)
unfoldable pub watermark_of : List HourlyAgg → Option ℕ
watermark_of [] = none
watermark_of (h ∷ t) = elim (watermark_of t) [
  | none ↦ some h.bucket
  | some w ↦ some (max h.bucket w)
]

-- Where a run starts: a day behind the watermark, and no earlier than the data.
unfoldable pub start_of : ℕ → Option ℕ → ℕ
start_of earliest none = earliest
start_of earliest (some w) = max earliest (w - day)

abbrev pub in_window : ℕ → ℕ → Reading → Bool
in_window start end r = leb start r.time && ltb r.time end

-- The table after a run, and the rows that it wrote.
unfoldable pub roll_up : ℕ → ℕ → List Reading → List HourlyAgg → List HourlyAgg × ℕ
roll_up start end readings table =
    if leb end start
    then (table, 0)
    else let rows = keep (in_window start end) readings in
      let grouped = group_by rows rows in (upsert_each grouped table, length grouped)

-- `hourly_aggregate` at a time.
unfoldable pub hourly_aggregate : ℕ → List Reading → List HourlyAgg → List HourlyAgg × ℕ
hourly_aggregate now readings table =
    let end = hour_of now in
    elim (earliest_hour end readings) [
      | none ↦ (table, 0)
      | some earliest ↦ roll_up (start_of earliest (watermark_of table)) end readings table
    ]
