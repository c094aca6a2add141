-- ===== src/Forecast/Coherence.antt =====
-- A cached forecast is one of the model that is current (tasks/forecast.py, api/forecast.py): the
-- requests, the retraining and the outages of Redis come in any order, and a request that has computed
-- its forecast may write it at any later time.
use empyrean_v2_backend.Base.{ℕ, ◌≡◌, Bool, true, List, [], ◌∷◌, ◌++◌, Option, none, some, All}
use empyrean_v2_backend.Access.Store.{live}
use empyrean_v2_backend.Pipeline.Enrich.{Reading}
use empyrean_v2_backend.Forecast.Model.{
  Stamp, absent, text, Model, Point, points, Cache, Regress, model_version, retrain_model,
}
use empyrean_v2_backend.Forecast.Predict.{
  predict, cache_forecast, compute_forecast, generate_forecast,
}

-- A request that has computed its forecast and has not written it.
pub record Flight : Type 0 where
  pub node : ℕ
  pub version : ℕ
  pub points : List Point

pub record State : Type 0 where
  pub cache : Cache
  pub flights : List Flight

-- The points are what a model of that version predicted at some time.
abbrev pub IsFrom : ℕ → ℕ → List Point → Type 0
IsFrom unit version ps =
    (m : Model) × (t : ℕ) × (model_version m ≡ version) × (ps ≡ predict unit m t)

abbrev pub empty : State
empty = record {
  cache = record { up = true; models = []; forecasts = λ n. []; legacy = [] };
  flights = [];
}

module _ (unit : ℕ) where
  pub data Step : State → State → Type 0 where
    retrains :
        (regress : Regress) (now stamp : ℕ) (readings : List Reading) (active : List ℕ) (s : State)
        → Step s
            (record s { cache = (retrain_model regress now stamp readings active (s.cache, 0)).0 })
    computes :
        (fromisoformat : ℕ → Option ℕ) (regress : Regress) (now stamp : ℕ) (readings : List Reading)
        (node version : ℕ) (ps : List Point) (s : State)
        → (compute_forecast unit fromisoformat regress now stamp readings node s.cache).0
          ≡ some (version, ps)
        → Step s (record {
          cache = (compute_forecast unit fromisoformat regress now stamp readings node s.cache).1;
          flights = s.flights ++ (record { node = node; version = version; points = ps } ∷ []);
        })
    requests :
        (fromisoformat : ℕ → Option ℕ) (regress : Regress) (now stamp : ℕ) (readings : List Reading)
        (node : ℕ) (s : State)
        → Step s (record s {
          cache = (generate_forecast unit fromisoformat regress now stamp readings node s.cache).1;
        })
    writes :
        (now : ℕ) (before after : List Flight) (f : Flight) (s : State)
        → s.flights ≡ before ++ (f ∷ after)
        → Step s (record {
          cache = cache_forecast now f.node f.version f.points s.cache;
          flights = before ++ after;
        })
    switches : (up : Bool) (s : State) → Step s (record s { cache = record (s.cache) { up = up } })

  pub data Reach : State → Type 0 where
    start : Reach empty
    next : {s t : State} → Reach s → Step s t → Reach t

  -- Every forecast, cached or still to be written, is one of a model of its version.
  record IsCoherent (s : State) : Type 0 where
    cached :
        (now node version : ℕ) (ps : List Point)
        → live now version (s.cache.forecasts node) ≡ some (points ps)
        → IsFrom unit version ps
    flying : All (λ f. IsFrom unit f.version f.points) s.flights

module _ (unit : ℕ) where
  -- What a request has computed.
  abbrev IsMade : Option (ℕ × List Point) → Type 0
  IsMade none = Unit
  IsMade (some (version, ps)) = IsFrom unit version ps

  abbrev AllFrom : Cache → Type 0
  AllFrom c =
      (now node version : ℕ) (ps : List Point)
      → live now version (c.forecasts node) ≡ some (points ps)
      → IsFrom unit version ps

-- Two models come from the same training: they have the same time of training, or both have none.
abbrev pub IsSameTraining : Stamp → Stamp → Type 0
IsSameTraining (text s) (text t) = s ≡ t
IsSameTraining (text s) absent = ⊥
IsSameTraining (text s) Stamp.empty = ⊥
IsSameTraining absent (text t) = ⊥
IsSameTraining absent absent = Unit
IsSameTraining absent Stamp.empty = Unit
IsSameTraining Stamp.empty (text t) = ⊥
IsSameTraining Stamp.empty absent = Unit
IsSameTraining Stamp.empty Stamp.empty = Unit
