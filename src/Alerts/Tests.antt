-- ===== src/Alerts/Tests.antt =====
-- Tests of the alerts, and their theorems at concrete tables.
use empyrean_v2_backend.Base.{
  ℕ, ◌≤◌, ◌≡◌, refl, ◌||◌, ◌==◌, ltb, max, true, false, Option, none, some, arith, List, [], ◌∷◌,
  length, count, String,
}
use empyrean_v2_backend.Base.Int.{ℤ, pos}
use empyrean_v2_backend.Base.Number.{Number, finite}
use empyrean_v2_backend.Alerts.Table.{
  Severity, critical, warning, Parameter, aqi, Alert, Alerts, rank, upsert_rows, upsert_alert,
  unacked_for,
}
use empyrean_v2_backend.Alerts.Upsert.{IsUnique, strongest, upsert_alert_effect}
use empyrean_v2_backend.Alerts.Check.{
  Node, Reading, Settings, check_thresholds, latest_rows, get, is_fresh, newest, breach,
  alerts_enabled, threshold, raise_alert, check_row, check_rows, start, sent_emails, alert_email,
  stamp, Publish, publish_all,
}
use empyrean_v2_backend.Alerts.Steps.{due}
use empyrean_v2_backend.Base.{◌⊎◌, inl, inr, Bool}
use empyrean_v2_backend.Alerts.Rerun.{check_thresholds_covers, check_thresholds_rerun}

abbrev old_warning : Alert
old_warning = record {
  alert_id = 1;
  node_id = 7;
  parameter = aqi;
  value = finite (pos 12000);
  threshold = finite (pos 10000);
  severity = warning;
  message = some [];
  triggered_at = 1000;
  acknowledged_at = none;
  acknowledged_by = none;
}

abbrev table : Alerts
table = record { rows = old_warning ∷ []; next_id = 2 }

table-IsUnique : IsUnique table.rows
unfolding unacked_for
table-IsUnique node p = ground arith

abbrev parse : String → Option Number
parse s = none

abbrev render : ℕ → ℤ → Severity → Number → List ℕ
render node a s limit = node ∷ []

abbrev returns : Publish → Bool
returns p = true

abbrev settings : Settings
settings = ("alert_email", "ops@example.org") ∷ []

abbrev nodes : List Node
nodes = record { node_id = 7; is_active = true } ∷ record { node_id = 8; is_active = false } ∷ []

abbrev readings : List Reading
readings =
    record { node_id = 7; time = 4900; aqi = some (pos 90); category = none }
    ∷ record { node_id = 7; time = 4990; aqi = some (pos 180); category = none }
    ∷ record { node_id = 8; time = 4990; aqi = some (pos 400); category = none }
    ∷ []

-- The warning of node 7 becomes critical; node 8 is inactive.
check_thresholds_escalates :
    let o =
      check_thresholds parse render returns 5000 100 150 true settings nodes readings none table in
    (o.created ≡ 1)
    × (strongest 7 aqi o.alerts.rows ≡ 2)
    × (length o.sent ≡ 1)
    × (o.heartbeat ≡ some 5000)
unfolding check_thresholds latest_rows newest is_fresh get threshold alerts_enabled check_rows
    check_row breach raise_alert upsert_alert upsert_rows unacked_for start sent_emails alert_email
    stamp strongest publish_all
check_thresholds_escalates = (refl, refl, refl, refl)

upsert_alert_effect_example :
    let (t', done) =
      upsert_alert 2000 7 (finite (pos 18000)) (finite (pos 15000)) critical [] table in
    IsUnique t'.rows
    × (count (unacked_for 7 aqi) t'.rows ≡ 1)
    × (strongest 7 aqi t'.rows ≡ max (strongest 7 aqi table.rows) (rank critical))
    × (done ≡ (
        (count (unacked_for 7 aqi) table.rows == 0)
        || ltb (strongest 7 aqi table.rows) (rank critical)))
upsert_alert_effect_example =
    upsert_alert_effect 2000 7 (finite (pos 18000)) (finite (pos 15000)) critical [] table
      table-IsUnique

enabled : alerts_enabled settings ≡ true
unfolding alerts_enabled get
enabled = refl

-- The breach is stored and nothing is mailed, if the broadcast raises.
check_thresholds_raises :
    let o =
      check_thresholds parse render
        (λ p. false)
        5000
        100
        150
        true
        settings
        nodes
        readings
        none
        table in
    (o.created ≡ 1)
    × (strongest 7 aqi o.alerts.rows ≡ 2)
    × (length o.sent ≡ 0)
    × (o.heartbeat ≡ none)
unfolding check_thresholds latest_rows newest is_fresh get threshold alerts_enabled check_rows
    check_row breach raise_alert upsert_alert upsert_rows unacked_for start sent_emails alert_email
    stamp strongest publish_all
check_thresholds_raises = (refl, refl, refl, refl)

check_thresholds_covers_example :
    let o =
      check_thresholds parse render returns 5000 100 150 true settings nodes readings none table in
    IsUnique o.alerts.rows
    × ((i : ℕ) (k : Parameter) → strongest i k table.rows ≤ strongest i k o.alerts.rows)
    × (due
          (threshold parse settings "aqi_warning_threshold" 100)
          (threshold parse settings "aqi_critical_threshold" 150)
          (pos 180)
        ≤ strongest 7 aqi o.alerts.rows)
    × (length o.published ≤ o.created)
    × ((o.raised ≡ true) ⊎ (o.created ≡ length o.published))
check_thresholds_covers_example =
    check_thresholds_covers parse render returns 5000 100 150 true settings nodes readings none
      table [] (record { node_id = 8; is_active = false } ∷ [])
      (record { node_id = 7; is_active = true })
      (record { node_id = 7; time = 4900; aqi = some (pos 90); category = none } ∷ [])
      (record { node_id = 8; time = 4990; aqi = some (pos 400); category = none } ∷ [])
      (record { node_id = 7; time = 4990; aqi = some (pos 180); category = none }) (pos 180)
      table-IsUnique enabled refl refl refl refl refl (omega arith) (inr (inr (omega arith)), tt)
      (inl (λ e. ground (arith, e)), tt)

check_thresholds_rerun_example :
    let o =
      check_thresholds parse render returns 5000 100 150 true settings nodes readings none
        (check_thresholds parse render returns 5000 100 150 true settings nodes readings none
          table).alerts in
    (o.created ≡ 0) × (o.published ≡ []) × (o.sent ≡ [])
check_thresholds_rerun_example =
    check_thresholds_rerun parse render returns 5000 100 150 true settings nodes readings none table
      table-IsUnique enabled
