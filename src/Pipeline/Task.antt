-- ===== src/Pipeline/Task.antt =====
-- The task `process_reading` (tasks/process_reading.py). The primary key of a reading is its time and
-- node. `violates` says which rows break another constraint of the database, as a foreign key whose
-- row was deleted meanwhile; it is asked of rows with a new key.
use empyrean_v2_backend.Base.{
  ℕ, ◌+◌, ◌==◌, Bool, false, ◌&&◌, List, [], ◌∷◌, ◌++◌, Option, none, some, find, if◌then◌else◌,
  Result, ok, err,
}
use empyrean_v2_backend.Access.Store.{Entry, set_entry}
use empyrean_v2_backend.Pipeline.Enrich.{
  Payload, Reading, Failure, integrity_error, build_reading, detect_anomaly,
}

pub record Node : Type 0 where
  pub node_id : ℕ
  pub is_active : Bool

-- The tables, the keys `readings:latest:{node_id}`, whether the global key `readings:latest` holds a
-- snapshot, and whether Redis works.
pub record Plant : Type 0 where
  pub nodes : List Node
  pub readings : List Reading
  pub latest : List (Entry Reading)
  pub snapshot : Bool
  pub redis : Bool

abbrev pub latest_cache_ttl : ℕ
latest_cache_ttl = 60000

abbrev pub has_node_id : ℕ → Node → Bool
has_node_id id n = n.node_id == id

-- The primary key `sensor_readings_pkey`.
abbrev pub same_reading : Reading → Reading → Bool
same_reading r q = (q.time == r.time) && (q.node_id == r.node_id)

-- `_write_latest_cache`
unfoldable pub write_latest_cache : ℕ → Reading → Plant → Plant
write_latest_cache now r p =
    if p.redis
    then record p {
      latest = set_entry r.node_id r (now + latest_cache_ttl) p.latest;
      snapshot = false;
    }
    else p

-- The insert: a duplicate is dropped, and any other IntegrityError is raised again; both roll back.
unfoldable pub store :
    (Reading → Bool) → ℕ → Reading → Plant → Plant × Result Failure (Option Reading)
store violates now r p = elim (find (same_reading r) p.readings) [
  | some _ ↦ (p, ok none)
  | none ↦
      if violates r
      then (p, err integrity_error)
      else (write_latest_cache now r (record p { readings = p.readings ++ (r ∷ []) }), ok (some r))
]

-- `process_reading`: the result is the stored row, or none for the empty dictionary.
unfoldable pub process_reading :
    (Reading → Bool) → ℕ → Payload → Plant → Plant × Result Failure (Option Reading)
process_reading violates now payload p = elim payload.node_id [
  | none ↦ (p, ok none)
  | some id ↦ elim (find (has_node_id id) p.nodes) [
    | none ↦ (p, ok none)
    | some node ↦
        if node.is_active
        then elim (build_reading now id payload) [
          | err e ↦ (p, err e)
          | ok r ↦
              store violates now (record r { is_anomaly = detect_anomaly now id r.pm25 p.readings })
                p
        ]
        else (p, ok none)
  ]
]
