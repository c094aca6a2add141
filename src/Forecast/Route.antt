-- ===== src/Forecast/Route.antt =====
-- The route of api/forecast.py. A node id is a number once it is known not to be blank.
use empyrean_v2_backend.Base.{
  ℕ, ◌==◌, Bool, true, false, List, [], ◌∷◌, Option, none, some, if◌then◌else◌, Result, ok, err,
}
use empyrean_v2_backend.Access.Store.{live}
use empyrean_v2_backend.Pipeline.Enrich.{Reading}
use empyrean_v2_backend.Forecast.Model.{
  Model, not_object, object, Point, Stored, points, refused, malformed, Cache, Regress,
  model_version,
}
use empyrean_v2_backend.Forecast.Predict.{generate_forecast}

-- The problem responses 422 and 404.
pub data Problem : Type 0 where
  node_id_required unknown_node : Problem

-- The response's points, and whether they came from the cache.
pub record Response : Type 0 where
  pub node_id : ℕ
  pub horizon_minutes : ℕ
  pub points : List Point

unfoldable pub is_active_node : ℕ → List ℕ → Bool
is_active_node n [] = false
is_active_node n (x ∷ xs) = let rest = is_active_node n xs in if x == n then true else rest

-- `cache_get_json` of a model: an object, or nothing to use.
unfoldable pub cached_model : ℕ → ℕ → Cache → Option Model
cached_model now node c =
    if c.up
    then elim (live now node c.models) [
      | none ↦ none
      | some not_object ↦ none
      | some (object m) ↦ some m
    ]
    else none

-- `_valid_cached_points`: what passes the test of its shape.
unfoldable pub valid_cached_points : Option Stored → Option Stored
valid_cached_points none = none
valid_cached_points (some malformed) = none
valid_cached_points (some refused) = some refused
valid_cached_points (some (points ps)) = some (points ps)

-- The read of the cache: the forecast of the version of the model that is there now.
unfoldable pub cached_forecast : ℕ → ℕ → Cache → Option Stored
unfolding valid_cached_points
cached_forecast now node c = elim (cached_model now node c) [
  | none ↦ none
  | some m ↦ valid_cached_points (live now (model_version m) (c.forecasts node))
]

abbrev pub respond : ℕ → List Point × Cache → Result Problem Response × Cache
respond node (ps, c) = (ok (record { node_id = node; horizon_minutes = 60; points = ps }), c)

-- `forecast`: what the response model refuses is computed anew, as a miss is.
unfoldable pub forecast :
    ℕ
    → (ℕ → Option ℕ)
    → Regress
    → ℕ
    → ℕ
    → List Reading
    → List ℕ
    → Option ℕ
    → Cache
    → Result Problem Response × Cache
forecast unit fromisoformat regress now stamp readings active none c = (err node_id_required, c)
forecast unit fromisoformat regress now stamp readings active (some node) c =
    if is_active_node node active
    then elim (cached_forecast now node c) [
      | some (points ps) ↦ respond node (ps, c)
      | some _ ↦
          respond node (generate_forecast unit fromisoformat regress now stamp readings node c)
      | none ↦ respond node (generate_forecast unit fromisoformat regress now stamp readings node c)
    ]
    else (err unknown_node, c)
