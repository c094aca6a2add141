-- ===== src/Alerts/Rerun.antt =====
-- A second look at the same readings raises nothing new (tasks/alerts.py, `check_thresholds`).
use empyrean_v2_backend.Base.{
  ℕ, ◌+◌, ◌≤◌, ◌≡◌, ◌⊎◌, refl, sym, ap, subst, Bool, true, false, List, [], ◌∷◌, ◌++◌, Option, some,
  arith, length, All, String, Bool-cases, inl, inr,
}
use empyrean_v2_backend.Base.Int.{ℤ}
use empyrean_v2_backend.Base.Number.{Number}
use empyrean_v2_backend.Alerts.Table.{Severity, aqi, Parameter, Alerts}
use empyrean_v2_backend.Alerts.Upsert.{IsUnique, strongest}
use empyrean_v2_backend.Alerts.Check.{
  Progress, Settings, check_rows, start, Node, Reading, Outcome, threshold, latest_rows,
  check_thresholds, alerts_enabled, sent_emails, Publish, publish_all, newest,
}
use empyrean_v2_backend.Alerts.Newest.{IsOutdone, newest_lem, All-latest_rows}
use empyrean_v2_backend.Alerts.Steps.{due, IsCovered, check_rows-Advances, check_rows-Rests}

sent_emails-none : (p : Progress) → p.emails ≡ [] → sent_emails p ≡ []
unfolding sent_emails
sent_emails-none p h = ground arith

-- A call that raises ends the loop.
publish_all_lem :
    (returns : Publish → Bool) (ps : List Publish)
    → let (published, raised) = publish_all returns ps in
      (length published ≤ length ps) × ((raised ≡ true) ⊎ (published ≡ ps))
unfolding publish_all
publish_all_lem returns [] = (omega arith, inr refl)
publish_all_lem returns (p ∷ ps) =
    let (short, all_) = publish_all_lem returns ps in
    elim (Bool-cases (returns p)) [
      | inr e ↦ rw e (omega arith, inl refl)
      | inl e ↦ rw e (
        omega (arith, short),
        elim all_ [ inl raised ↦ inl raised | inr same ↦ inr (ap (λ l. p ∷ l) same) ],
      )
    ]

module _ (parse : String → Option Number) (render : ℕ → ℤ → Severity → Number → List ℕ)
    (returns : Publish → Bool) (now warning_default critical_default : ℕ) (redis : Bool)
    (settings : Settings) (nodes : List Node) (readings : List Reading) (beat : Option ℕ)
    (t : Alerts) where
  abbrev run : Alerts → Outcome
  run =
      check_thresholds parse render returns now warning_default critical_default redis settings
        nodes readings beat

  abbrev warning_at : Number
  warning_at = threshold parse settings "aqi_warning_threshold" warning_default

  abbrev critical_at : Number
  critical_at = threshold parse settings "aqi_critical_threshold" critical_default

  -- On a table that the index keeps unique, a run with alerts enabled keeps it so, and lowers the
  -- severity of no unacknowledged alert. Where an active node has a reading with an AQI that is at
  -- most ten minutes old, and any other of the node's with an AQI is older, the node has an
  -- unacknowledged alert in the end of at least the severity that this AQI calls for, even if a
  -- `publish_alert` raises. It publishes as many alerts as it counts, or fewer if one raises.
  pub check_thresholds_covers :
      (before after : List Node) (n : Node) (others rest : List Reading) (r : Reading) (a : ℤ)
      → IsUnique t.rows
      → alerts_enabled settings ≡ true
      → nodes ≡ before ++ (n ∷ after)
      → n.is_active ≡ true
      → readings ≡ others ++ (r ∷ rest)
      → r.node_id ≡ n.node_id
      → r.aqi ≡ some a
      → now ≤ r.time + 600
      → All (IsOutdone r) others
      → All (IsOutdone r) rest
      → let o = run t in
        IsUnique o.alerts.rows
        × ((i : ℕ) (k : Parameter) → strongest i k t.rows ≤ strongest i k o.alerts.rows)
        × (due warning_at critical_at a ≤ strongest n.node_id aqi o.alerts.rows)
        × (length o.published ≤ o.created)
        × ((o.raised ≡ true) ⊎ (o.created ≡ length o.published))
  unfolding check_thresholds start
  check_thresholds_covers before after n others rest r a u on ns active rs own e young old1 old2 =
      let (adv, c) =
        check_rows-Advances render now settings warning_at critical_at
          (latest_rows now nodes readings) (start t) u in
      let p =
        check_rows render now settings warning_at critical_at (latest_rows now nodes readings)
          (start t) in
      let found : newest now n.node_id readings ≡ some r =
        subst (λ i. newest now i readings ≡ some r) own
          (subst (λ l. newest now r.node_id l ≡ some r) (sym rs)
            (newest_lem now r a others rest e young old1 old2)) in
      let covered =
        All-latest_rows (IsCovered warning_at critical_at p.alerts.rows) now before after n readings
          r active found
          (subst
            (λ l. All (IsCovered warning_at critical_at p.alerts.rows) (latest_rows now l readings))
            ns c) in
      let met : due warning_at critical_at a ≤ strongest n.node_id aqi p.alerts.rows =
        subst (λ i. due warning_at critical_at a ≤ strongest i aqi p.alerts.rows) own
          (rw e at covered) in
      let (short, all_) = publish_all_lem returns p.publishes in
      rw on (
        adv.unique,
        adv.kept,
        met,
        omega (arith, short, adv.tallied),
        elim all_ [
          | inl raised ↦ inl raised
          | inr same ↦ inr (omega (arith, adv.tallied, ap (λ l. length l) same))
        ],
      )

  quiet_lem : (ps : List Publish) → ps ≡ [] → publish_all returns ps ≡ ([], false)
  unfolding publish_all
  quiet_lem ps e = rw e refl

  -- On a table that the index keeps unique, and with alerts enabled, a second run at the same
  -- time on the same readings and settings counts no alert, publishes nothing and mails nothing:
  -- every breach is suppressed by the alert that the first run left.
  pub check_thresholds_rerun :
      IsUnique t.rows
      → alerts_enabled settings ≡ true
      → let o = run (run t).alerts in (o.created ≡ 0) × (o.published ≡ []) × (o.sent ≡ [])
  unfolding check_thresholds start sent_emails
  check_thresholds_rerun u on =
      let first =
        check_rows-Advances render now settings warning_at critical_at
          (latest_rows now nodes readings) (start t) u in
      let p =
        check_rows render now settings warning_at critical_at (latest_rows now nodes readings)
          (start t) in
      let rests =
        check_rows-Rests render now settings warning_at critical_at (latest_rows now nodes readings)
          (start p.alerts) first.0.unique first.1 in
      let again =
        check_rows render now settings warning_at critical_at (latest_rows now nodes readings)
          (start p.alerts) in
      let quiet : publish_all returns again.publishes ≡ ([], false) =
        quiet_lem again.publishes rests.publishes in
      rw (on, quiet) (rests.created, refl, sent_emails-none again rests.emails)
