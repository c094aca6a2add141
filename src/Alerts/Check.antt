-- ===== src/Alerts/Check.antt =====
-- The beat task (tasks/alerts.py, `check_thresholds`). Times are seconds. The rows of the query are
-- given by the nodes in the order of their ids; `parse` is Python's `float` of a text, with `none`
-- for its ValueError, and `render` the f-string of the message.
use empyrean_v2_backend.Base.{
  ℕ, ◌+◌, ◌-◌, ◌*◌, ◌==◌, Bool, true, false, ◌&&◌, List, [], ◌∷◌, ◌++◌, Option, none, some, ltb,
  leb, if◌then◌else◌, String, str_eq, map,
}
use empyrean_v2_backend.Base.Int.{ℤ, pos, scale_ℤ}
use empyrean_v2_backend.Base.Number.{Number, finite, geb}
use empyrean_v2_backend.Alerts.Table.{Severity, critical, warning, Alerts, upsert_alert}

pub record Node : Type 0 where
  pub node_id : ℕ
  pub is_active : Bool

-- The columns of `sensor_readings` that the task reads.
pub record Reading : Type 0 where
  pub node_id : ℕ
  pub time : ℕ
  pub aqi : Option ℤ
  pub category : Option ℕ

pub record Row : Type 0 where
  pub node_id : ℕ
  pub aqi : Option ℤ
  pub category : Option ℕ

-- `settings.get(key)` on the rows of `system_settings`
abbrev pub Settings : Type 0
Settings = List (String × String)

unfoldable pub get : String → Settings → Option String
get key [] = none
get key ((k, v) ∷ s) = if str_eq k key then some v else get key s

-- Ten minutes.
abbrev pub aqi_recency : ℕ
aqi_recency = 600

-- The WHERE clause, for one node.
unfoldable pub is_fresh : ℕ → ℕ → Reading → Bool
is_fresh now node r =
    (r.node_id == node)
    && (elim r.aqi [ none ↦ false | some _ ↦ true ] && leb (now - aqi_recency) r.time)

-- DISTINCT ON (node_id) … ORDER BY node_id, time DESC, for one node: the newest fresh reading.
unfoldable pub newest : ℕ → ℕ → List Reading → Option Reading
newest now node [] = none
newest now node (r ∷ rs) =
    let rest = newest now node rs in
    if is_fresh now node r
    then elim rest [ none ↦ some r | some q ↦ if ltb r.time q.time then some q else some r ]
    else rest

abbrev pub row_of : Reading → Row
row_of r = record { node_id = r.node_id; aqi = r.aqi; category = r.category }

unfoldable pub latest_rows : ℕ → List Node → List Reading → List Row
latest_rows now [] readings = []
latest_rows now (n ∷ ns) readings =
    let rest = latest_rows now ns readings in
    if n.is_active
    then elim (newest now n.node_id readings) [ none ↦ rest | some r ↦ row_of r ∷ rest ]
    else rest

pub record Publish : Type 0 where
  pub node_id : ℕ
  pub aqi : ℤ
  pub category : Option ℕ
  pub severity : Severity
  pub timestamp : ℕ

pub record Email : Type 0 where
  pub node_id : ℕ
  pub aqi : ℤ
  pub severity : Severity
  pub message : List ℕ

-- The local variables of the loop, and the table that it writes.
pub record Progress : Type 0 where
  pub alerts : Alerts
  pub created : ℕ
  pub publishes : List Publish
  pub emails : List Email
  pub email_recipient : Option String

-- What a run leaves behind: `published` are the calls of `publish_alert` that returned, and `raised`
-- says whether one raised, which ends the task.
pub record Outcome : Type 0 where
  pub alerts : Alerts
  pub created : ℕ
  pub published : List Publish
  pub sent : List (String × Email)
  pub heartbeat : Option ℕ
  pub raised : Bool

-- An AQI as a float.
abbrev pub aqi_float : ℤ → Number
aqi_float a = finite (scale_ℤ 100 a)

-- The ladder on the thresholds: the severity of a breach and the threshold that it exceeds.
unfoldable pub breach : Number → Number → ℤ → Option (Severity × Number)
breach warning_at critical_at a =
    if geb (aqi_float a) critical_at
    then some (critical, critical_at)
    else if geb (aqi_float a) warning_at
    then some (warning, warning_at)
    else none

-- `_alert_email`: an empty text is no address.
unfoldable pub alert_email : Settings → Option String
alert_email settings = elim (get "alert_email" settings) [
  | none ↦ none
  | some address ↦ if str_eq address "" then none else some address
]

-- `_stamp_beat_heartbeat`, with or without a Redis client.
unfoldable pub stamp : Bool → ℕ → Option ℕ → Option ℕ
stamp redis now old = if redis then some now else old

unfoldable pub threshold : (String → Option Number) → Settings → String → ℕ → Number
threshold parse settings key fallback = elim (get key settings) [
  | none ↦ finite (pos (100 * fallback))
  | some raw ↦ elim (parse raw) [ none ↦ finite (pos (100 * fallback)) | some x ↦ x ]
]

-- The master toggle: a missing row counts as "true".
unfoldable pub alerts_enabled : Settings → Bool
alerts_enabled settings = elim (get "alerts_enabled" settings) [
  | none ↦ true
  | some v ↦ str_eq v "true"
]

-- `send_alert_emails`, with the tests before its call.
unfoldable pub sent_emails : Progress → List (String × Email)
sent_emails p = elim p.email_recipient [
  | none ↦ []
  | some recipient ↦ map (λ e. (recipient, e)) p.emails
]

-- The loop of `publish_alert`: what was published, and whether a call raised.
unfoldable pub publish_all : (Publish → Bool) → List Publish → List Publish × Bool
publish_all returns [] = ([], false)
publish_all returns (p ∷ ps) =
    let (published, raised) = publish_all returns ps in
    if returns p then (p ∷ published, raised) else ([], true)

unfoldable pub start : Alerts → Progress
start t = record { alerts = t; created = 0; publishes = []; emails = []; email_recipient = none }

module _ (render : ℕ → ℤ → Severity → Number → List ℕ) where
  -- The body of the loop on a breach.
  unfoldable pub raise_alert :
      ℕ → Settings → ℕ → ℤ → Option ℕ → Severity → Number → Progress → Progress
  raise_alert now settings node a category severity limit p =
      let message = render node a severity limit in
      let (alerts, done) = upsert_alert now node (aqi_float a) limit severity message p.alerts in
      let publish : Publish = record {
        node_id = node;
        aqi = a;
        category = category;
        severity = severity;
        timestamp = now;
      } in
      let email : Email = record {
        node_id = node;
        aqi = a;
        severity = severity;
        message = message;
      } in
      if done
      then elim severity [
        | critical ↦ record {
          alerts = alerts;
          created = p.created + 1;
          publishes = p.publishes ++ publish ∷ [];
          emails = p.emails ++ email ∷ [];
          email_recipient = elim p.email_recipient [
            | none ↦ alert_email settings
            | some e ↦ some e
          ];
        }
        | _ ↦ record p {
          alerts = alerts;
          created = p.created + 1;
          publishes = p.publishes ++ publish ∷ [];
        }
      ]
      else record p { alerts = alerts }

  unfoldable pub check_row : ℕ → Settings → Number → Number → Row → Progress → Progress
  check_row now settings warning_at critical_at r p = elim r.aqi [
    | none ↦ p
    | some a ↦ elim (breach warning_at critical_at a) [
      | none ↦ p
      | some (severity, limit) ↦ raise_alert now settings r.node_id a r.category severity limit p
    ]
  ]

  unfoldable pub check_rows : ℕ → Settings → Number → Number → List Row → Progress → Progress
  check_rows now settings warning_at critical_at [] p = p
  check_rows now settings warning_at critical_at (r ∷ rs) p =
      check_rows now settings warning_at critical_at rs
        (check_row now settings warning_at critical_at r p)

-- `returns` says which calls of `publish_alert` return; the others raise, as one can whose `publish`
-- does. The transaction has been committed by then.
unfoldable pub check_thresholds :
    (String → Option Number)
    → (ℕ → ℤ → Severity → Number → List ℕ)
    → (Publish → Bool)
    → (now warning_default critical_default : ℕ) (redis : Bool) → Settings
    → List Node
    → List Reading
    → Option ℕ
    → Alerts
    → Outcome
check_thresholds parse render returns now warning_default critical_default redis settings nodes
      readings beat t =
    let warning_at = threshold parse settings "aqi_warning_threshold" warning_default in
    let critical_at = threshold parse settings "aqi_critical_threshold" critical_default in
    let p =
      check_rows render now settings warning_at critical_at (latest_rows now nodes readings)
        (start t) in
    let (published, raised) = publish_all returns p.publishes in
    if alerts_enabled settings
    then record {
      alerts = p.alerts;
      created = p.created;
      published = published;
      sent = if raised then [] else sent_emails p;
      heartbeat = if raised then beat else stamp redis now beat;
      raised = raised;
    }
    else record {
      alerts = t;
      created = 0;
      published = [];
      sent = [];
      heartbeat = stamp redis now beat;
      raised = false;
    }
