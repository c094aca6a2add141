-- ===== src/Alerts/Routes.antt =====
-- The routes of api/alerts.py: listing with pagination, and acknowledging.
use empyrean_v2_backend.Base.{
  ℕ, ◌==◌, Bool, true, false, ◌&&◌, ◌||◌, List, [], ◌∷◌, Option, none, some, ltb, leb,
  if◌then◌else◌, count, keep, take, drop, find, Result, ok, err,
}
use empyrean_v2_backend.Base.Int.{ℤ, pos, negsuc}
use empyrean_v2_backend.Alerts.Table.{Severity, critical, warning, other, Alert, Alerts, is_unacked}

-- The status and detail of a problem response.
pub data Problem : Type 0 where
  bad_severity bad_pagination not_found : Problem

abbrev pub max_limit : ℕ
max_limit = 200

abbrev pub default_limit : ℕ
default_limit = 50

-- `limit` and `offset` of a request, each read by `int(…)`: absent, not a number, or a number.
pub data Argument : Type 0 where
  absent malformed : Argument
  number : ℤ → Argument

-- A parsed argument that is not negative.
unfoldable pub natural : ℕ → Argument → Option ℕ
natural default absent = some default
natural default malformed = none
natural default (number (pos n)) = some n
natural default (number (negsuc n)) = none

unfoldable pub validate_pagination : Argument → Argument → Option (ℕ × ℕ)
unfolding natural
validate_pagination raw_limit raw_offset = elim (natural default_limit raw_limit) [
  | none ↦ none
  | some limit ↦
      if leb 1 limit && leb limit max_limit
      then elim (natural 0 raw_offset) [ none ↦ none | some offset ↦ some (limit, offset) ]
      else none
]

-- ORDER BY triggered_at DESC, alert_id DESC
unfoldable pub newer : Alert → Alert → Bool
newer a b =
    ltb b.triggered_at a.triggered_at
    || ((a.triggered_at == b.triggered_at) && leb b.alert_id a.alert_id)

unfoldable pub insert : Alert → List Alert → List Alert
insert a [] = a ∷ []
insert a (b ∷ bs) = if newer a b then a ∷ b ∷ bs else b ∷ insert a bs

unfoldable pub newest_first : List Alert → List Alert
newest_first [] = []
newest_first (a ∷ as') = insert a (newest_first as')

abbrev pub same_severity : Severity → Severity → Bool
same_severity critical critical = true
same_severity warning warning = true
same_severity (other i) (other j) = i == j
same_severity _ _ = false

-- The WHERE clause of both statements.
unfoldable pub is_listed : Option Severity → Alert → Bool
is_listed severity a =
    is_unacked a && elim severity [ none ↦ true | some s ↦ same_severity a.severity s ]

pub record Listing : Type 0 where
  pub alerts : List Alert
  pub total : ℕ

-- The query argument `severity`, tested against `_SEVERITIES`.
unfoldable pub is_known : Option Severity → Bool
is_known none = true
is_known (some critical) = true
is_known (some warning) = true
is_known (some (other _)) = false

unfoldable pub list_alerts : Option Severity → Argument → Argument → Alerts → Result Problem Listing
list_alerts severity raw_limit raw_offset t =
    if is_known severity
    then elim (validate_pagination raw_limit raw_offset) [
      | none ↦ err bad_pagination
      | some (limit, offset) ↦ ok (record {
        alerts = take limit (drop offset (newest_first (keep (is_listed severity) t.rows)));
        total = count (is_listed severity) t.rows;
      })
    ]
    else err bad_severity

-- What the route writes into the row.
abbrev pub acknowledged : ℕ → ℕ → Alert → Alert
acknowledged now user a =
    if is_unacked a then record a { acknowledged_at = some now; acknowledged_by = some user } else a

unfoldable pub acknowledge_rows : ℕ → ℕ → ℕ → List Alert → List Alert
acknowledge_rows now user id [] = []
acknowledge_rows now user id (a ∷ rows) =
    if a.alert_id == id
    then acknowledged now user a ∷ rows
    else a ∷ acknowledge_rows now user id rows

abbrev pub has_id : ℕ → Alert → Bool
has_id id a = a.alert_id == id

unfoldable pub acknowledge_alert : ℕ → ℕ → ℕ → Alerts → Alerts × Result Problem Alert
acknowledge_alert now user id t =
    let t' : Alerts = record t { rows = acknowledge_rows now user id t.rows } in
    elim (find (has_id id) t.rows) [
      | none ↦ (t, err not_found)
      | some a ↦ (t', ok (acknowledged now user a))
    ]
