-- ===== src/Alerts/Table.antt =====
-- The alerts table (models/alert.py) and the atomic upsert on its partial unique index
-- (tasks/alerts.py, `_upsert_alert`). Node ids and texts that are only compared are numbers.
use empyrean_v2_backend.Base.{
  ℕ, ◌+◌, ◌==◌, Bool, true, false, ◌&&◌, List, [], ◌∷◌, Option, none, some, take, ltb,
  if◌then◌else◌, length,
}
use empyrean_v2_backend.Base.Number.{Number}

-- The text of `severity`; `other` is any text but the two that are ranked.
pub data Severity : Type 0 where
  critical warning : Severity
  other : ℕ → Severity

-- The text of `parameter`.
pub data Parameter : Type 0 where
  aqi : Parameter
  another : ℕ → Parameter

pub record Alert : Type 0 where
  pub alert_id : ℕ
  pub node_id : ℕ
  pub parameter : Parameter
  pub value : Number
  pub threshold : Number
  pub severity : Severity
  pub message : Option (List ℕ)
  pub triggered_at : ℕ
  pub acknowledged_at : Option ℕ
  pub acknowledged_by : Option ℕ

-- The rows, and the next value of the `alert_id` sequence.
pub record Alerts : Type 0 where
  pub rows : List Alert
  pub next_id : ℕ

-- `severity_rank_map`, and `_SEVERITY_RANK_SQL`
abbrev pub rank : Severity → ℕ
rank critical = 2
rank warning = 1
rank (other _) = 0

abbrev pub same_parameter : Parameter → Parameter → Bool
same_parameter aqi aqi = true
same_parameter aqi (another _) = false
same_parameter (another _) aqi = false
same_parameter (another i) (another j) = i == j

abbrev pub is_unacked : Alert → Bool
is_unacked a = elim a.acknowledged_at [ none ↦ true | some _ ↦ false ]

-- The rows of the partial unique index under one key.
unfoldable pub unacked_for : ℕ → Parameter → Alert → Bool
unacked_for node p a = (a.node_id == node) && (same_parameter a.parameter p && is_unacked a)

abbrev pub max_message_length : ℕ
max_message_length = 10000

-- ON CONFLICT DO UPDATE SET …
abbrev pub overwrite : Alert → Alert → Alert
overwrite old new = record old {
  value = new.value;
  threshold = new.threshold;
  severity = new.severity;
  message = new.message;
  triggered_at = new.triggered_at;
}

-- INSERT … ON CONFLICT … DO UPDATE … WHERE, with whether a row was inserted or updated.
unfoldable pub upsert_rows : Alert → List Alert → List Alert × Bool
upsert_rows new [] = (new ∷ [], true)
upsert_rows new (a ∷ rows) =
    let (rest, done) = upsert_rows new rows in
    if unacked_for new.node_id new.parameter a
    then (if ltb (rank a.severity) (rank new.severity)
        then (overwrite a new ∷ rows, true)
        else (a ∷ rows, false))
    else (a ∷ rest, done)

-- The row that `_upsert_alert` offers, its message cut to the limit.
abbrev pub offered : ℕ → ℕ → ℕ → Number → Number → Severity → List ℕ → Alert
offered id now node value threshold severity message = record {
  alert_id = id;
  node_id = node;
  parameter = aqi;
  value = value;
  threshold = threshold;
  severity = severity;
  message = some (
      if ltb max_message_length (length message) then take max_message_length message else message);
  triggered_at = now;
  acknowledged_at = none;
  acknowledged_by = none;
}

unfoldable pub upsert_alert : ℕ → ℕ → Number → Number → Severity → List ℕ → Alerts → Alerts × Bool
upsert_alert now node value threshold severity message t =
    let (rows, done) =
      upsert_rows (offered t.next_id now node value threshold severity message) t.rows in
    (record { rows = rows; next_id = t.next_id + 1 }, done)
