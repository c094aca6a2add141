-- ===== src/Mqtt/Worker.antt =====
-- The worker of mqtt/client.py: its handlers, the bounded retry of a dispatch, and the drain on
-- `stop`. `json_loads` and `validate_reading`/`validate_status` (pydantic) are parameters.
use empyrean_v2_backend.Base.{
  ℕ, zero, suc, ◌+◌, ◌-◌, Bool, true, false, List, [], ◌∷◌, ◌++◌, Option, none, some, ltb,
  update_where, if◌then◌else◌,
}
use empyrean_v2_backend.Limits.Window.{same_text}
use empyrean_v2_backend.Mqtt.Inbound.{Kind, reading, status, alert, Item}

-- A JSON object: its member `node_id`, if it has one, and the rest of it.
pub record Object : Type 0 where
  pub node_id : Option (List ℕ)
  pub rest : ℕ

-- A row of `nodes`.
pub record Node : Type 0 where
  pub node_id : List ℕ
  pub last_seen : Option ℕ

-- What the worker changes: the readings that Celery has got, `_dropped_readings_count`, the rows of
-- `nodes`, and the alerts that were broadcast.
pub record Plant : Type 0 where
  pub delivered : List Object
  pub dropped : ℕ
  pub nodes : List Node
  pub broadcasts : List Object

-- The parsers: `validate_reading` gives the payload's model, `validate_status` whether it is online.
pub record Parsers : Type 0 where
  pub json_loads : List ℕ → Option Object
  pub validate_reading : Object → Option Object
  pub validate_status : Object → Option Bool

abbrev pub dispatch_max_attempts : ℕ
dispatch_max_attempts = 3

-- What a call of `delay` does: it queues the task and returns, or it raises, before the queue has the
-- task or after.
pub data Attempt : Type 0 where
  queued refused queued_then_raised : Attempt

-- An item with the time of its turn, whether the dump of its model and the import of the task go well,
-- and what the calls of `delay` do: `delay n` is the one with `n` more to come.
pub record Turn : Type 0 where
  pub item : Item
  pub now : ℕ
  pub prepared : Bool
  pub delay : ℕ → Attempt

abbrev pub deliver : Object → Plant → Plant
deliver o p = record p { delivered = p.delivered ++ (o ∷ []) }

abbrev pub drop_reading : Plant → Plant
drop_reading p = record p { dropped = p.dropped + 1 }

-- The loop of `_dispatch_reading` from its attempt with `left` more to come.
unfoldable pub dispatch_reading : ℕ → (ℕ → Attempt) → Object → Plant → Plant
dispatch_reading zero delay o p = elim (delay 0) [
  | queued ↦ deliver o p
  | refused ↦ drop_reading p
  | queued_then_raised ↦ drop_reading (deliver o p)
]
dispatch_reading (suc left) delay o p = elim (delay (suc left)) [
  | queued ↦ deliver o p
  | refused ↦ dispatch_reading left delay o p
  | queued_then_raised ↦ dispatch_reading left delay o (deliver o p)
]

abbrev pub with_node_id : List ℕ → Object → Object
with_node_id id o = record o { node_id = some id }

-- The payload that `_handle_reading` dispatches: the topic's id stands in for the body's.
unfoldable pub reading_of : Parsers → Item → Option Object
reading_of parsers i = elim (parsers.json_loads i.raw) [
  | none ↦ none
  | some data_ ↦ parsers.validate_reading (with_node_id i.node_id data_)
]

-- `_handle_reading`. The worker swallows what is raised before the first attempt.
unfoldable pub handle_reading : Parsers → Turn → Plant → Plant
handle_reading parsers t p = elim (reading_of parsers t.item) [
  | none ↦ p
  | some payload ↦
      if t.prepared then dispatch_reading (dispatch_max_attempts - 1) t.delay payload p else p
]

abbrev pub is_node : List ℕ → Node → Bool
is_node id n = same_text n.node_id id

unfoldable pub is_online : Parsers → Item → Bool
is_online parsers i = elim (parsers.json_loads i.raw) [
  | none ↦ false
  | some data_ ↦ elim (parsers.validate_status data_) [ none ↦ false | some online ↦ online ]
]

-- `_handle_status`
unfoldable pub handle_status : Parsers → ℕ → Item → Plant → Plant
handle_status parsers now i p =
    if is_online parsers i
    then record p {
      nodes = update_where (is_node i.node_id) (λ n. record n { last_seen = some now }) p.nodes;
    }
    else p

-- `_handle_alert`
unfoldable pub handle_alert : Parsers → Item → Plant → Plant
handle_alert parsers i p = elim (parsers.json_loads i.raw) [
  | none ↦ p
  | some data_ ↦ record p { broadcasts = p.broadcasts ++ (data_ ∷ []) }
]

-- One turn of `_run_worker`.
unfoldable pub handle : Parsers → Turn → Plant → Plant
handle parsers t p = elim t.item.kind [
  | reading ↦ handle_reading parsers t p
  | status ↦ handle_status parsers t.now t.item p
  | alert ↦ handle_alert parsers t.item p
]

unfoldable pub run_worker : Parsers → List Turn → Plant → Plant
run_worker parsers [] p = p
run_worker parsers (t ∷ ts) p = run_worker parsers ts (handle parsers t p)

abbrev pub is_status : Kind → Bool
is_status reading = false
is_status status = true
is_status alert = false

-- The loop of `stop`: a status message is taken and left. It ends when the queue is empty, when
-- `drained_count` reaches its bound, or when the time is past the deadline after a turn.
unfoldable pub drain : Parsers → ℕ → ℕ → ℕ → List Turn → Plant → Plant
drain parsers max_drain deadline drained [] p = p
drain parsers max_drain deadline drained (t ∷ ts) p =
    let p' = if is_status t.item.kind then p else handle parsers t p in
    let drained' = if is_status t.item.kind then drained else drained + 1 in
    let rest = drain parsers max_drain deadline drained' ts p' in
    if ltb drained max_drain then (if ltb deadline t.now then p' else rest) else p
