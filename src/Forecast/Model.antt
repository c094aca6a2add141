-- ===== src/Forecast/Model.antt =====
-- The regression models of tasks/forecast.py, and what Redis keeps for them. Times are milliseconds.
-- A coefficient counts parts of a unit that the caller chooses, small enough for every float at hand;
-- texts that are only compared are numbers. `regress` stands for scikit-learn: `none` is an import or
-- a fit that fails. `fromisoformat` gives the time of a text that parses.
use empyrean_v2_backend.Base.{
  ℕ, suc, ◌+◌, ◌-◌, ◌*◌, ◌==◌, Bool, true, false, ◌&&◌, List, [], ◌∷◌, Option, none, some, ltb, leb,
  length, if◌then◌else◌,
}
use empyrean_v2_backend.Base.Int.{ℤ}
use empyrean_v2_backend.Access.Store.{Entry, live, set_entry, del_entry}
use empyrean_v2_backend.Pipeline.Enrich.{Reading}
use empyrean_v2_backend.Aggregation.Rollup.{aqi, day}

-- A member of a JSON object: a number that is finite or not, a Boolean, or none of these.
pub data Coefficient : Type 0 where
  number : ℤ → Coefficient
  not_finite boolean other : Coefficient

-- The member `trained_at`: absent or null, empty (as are zero and false), or a text.
pub data Stamp : Type 0 where
  absent empty : Stamp
  text : ℕ → Stamp

pub record Model : Type 0 where
  pub slope : Coefficient
  pub intercept : Coefficient
  pub trained_at : Stamp

-- What a key for a model holds: a text that is not the JSON of an object, or a model.
pub data Blob : Type 0 where
  not_object : Blob
  object : Model → Blob

-- A point of a forecast: its time in seconds, and its AQI in tenths.
pub record Point : Type 0 where
  pub time : ℕ
  pub aqi : ℕ

-- What a key for a forecast holds: points, a list of objects with `time` and `aqi` that the response
-- model refuses, or anything else.
pub data Stored : Type 0 where
  points : List Point → Stored
  refused malformed : Stored

-- `forecast:model:{node_id}`, `celery:forecast:{node_id}:{version}` and the legacy key.
pub record Cache : Type 0 where
  pub up : Bool
  pub models : List (Entry Blob)
  pub forecasts : ℕ → List (Entry Stored)
  pub legacy : List (Entry (Unit {0}))

abbrev pub min_train_samples : ℕ
min_train_samples = 30

abbrev pub train_window_days : ℕ
train_window_days = 7

abbrev pub model_max_age : ℕ
model_max_age = 48 * 3600000

abbrev pub key_ttl : ℕ
key_ttl = 3600000

-- `model_version`: zero is "legacy".
unfoldable pub model_version : Model → ℕ
model_version m = elim m.trained_at [ absent ↦ 0 | empty ↦ 0 | text s ↦ suc s ]

-- `_trained_at_is_fresh`
unfoldable pub trained_at_is_fresh : (ℕ → Option ℕ) → ℕ → Stamp → Bool
trained_at_is_fresh fromisoformat now absent = true
trained_at_is_fresh fromisoformat now empty = false
trained_at_is_fresh fromisoformat now (text s) = elim (fromisoformat s) [
  | none ↦ false
  | some t ↦ leb ((now - t) + (t - now)) model_max_age
]

abbrev pub is_finite_number : Coefficient → Bool
is_finite_number (number _) = true
is_finite_number not_finite = false
is_finite_number boolean = false
is_finite_number other = false

-- `_valid_model`
unfoldable pub valid_model : (ℕ → Option ℕ) → ℕ → Model → Bool
valid_model fromisoformat now m =
    (is_finite_number m.slope && is_finite_number m.intercept)
    && trained_at_is_fresh fromisoformat now m.trained_at

-- A training point: the time and the AQI of a reading.
pub record Sample : Type 0 where
  pub time : ℕ
  pub aqi : ℤ

unfoldable pub insert : Sample → List Sample → List Sample
insert x [] = x ∷ []
insert x (y ∷ ys) = if leb x.time y.time then x ∷ y ∷ ys else y ∷ insert x ys

-- `_training_points`: the node's readings of the last seven days that have an AQI, by their time.
unfoldable pub training_points : ℕ → ℕ → List Reading → List Sample
unfolding insert
training_points now node [] = []
training_points now node (r ∷ rs) =
    let rest = training_points now node rs in
    if (r.node_id == node) && leb now (r.time + train_window_days * day)
    then elim (aqi r) [ none ↦ rest | some a ↦ insert (record { time = r.time; aqi = a }) rest ]
    else rest

abbrev pub Regress : Type 0
Regress = List Sample → Option (Coefficient × Coefficient)

-- `_fit_model`, with the text of the time at which it fits.
unfoldable pub fit_model : Regress → ℕ → List Sample → Option Model
fit_model regress stamp samples =
    if ltb (length samples) min_train_samples then none else elim (regress samples) [
      | none ↦ none
      | some (slope, intercept) ↦
          if is_finite_number slope && is_finite_number intercept
          then some (record { slope = slope; intercept = intercept; trained_at = text stamp })
          else none
    ]

-- `_get_model`
unfoldable pub get_model : (ℕ → Option ℕ) → ℕ → ℕ → Cache → Option Model
get_model fromisoformat now node c =
    if c.up
    then elim (live now node c.models) [
      | none ↦ none
      | some not_object ↦ none
      | some (object m) ↦ if valid_model fromisoformat now m then some m else none
    ]
    else none

-- `_cache_model`
unfoldable pub cache_model : ℕ → ℕ → Model → Cache → Cache
cache_model now node m c =
    if c.up then record c { models = set_entry node (object m) (now + key_ttl) c.models } else c

-- The DEL of the legacy key
unfoldable pub drop_legacy : ℕ → Cache → Cache
drop_legacy node c = if c.up then record c { legacy = del_entry node c.legacy } else c

-- The turn of the loop of `retrain_model` for a node, with the number of models so far.
unfoldable pub retrain_node : Regress → ℕ → ℕ → List Reading → ℕ → Cache × ℕ → Cache × ℕ
retrain_node regress now stamp readings node (c, n) =
    elim (fit_model regress stamp (training_points now node readings)) [
      | none ↦ (c, n)
      | some m ↦ (drop_legacy node (cache_model now node m c), suc n)
    ]

-- `retrain_model` over the ids of the active nodes.
unfoldable pub retrain_model : Regress → ℕ → ℕ → List Reading → List ℕ → Cache × ℕ → Cache × ℕ
retrain_model regress now stamp readings [] s = s
retrain_model regress now stamp readings (node ∷ nodes) s =
    retrain_model regress now stamp readings nodes (retrain_node regress now stamp readings node s)
