-- ===== src/Alerts/Steps.antt =====
-- What one row of a run does to the alerts (tasks/alerts.py, the loop of `check_thresholds`).
use native.Mathlib.Nat.{le_trans}
use empyrean_v2_backend.Base.{
  ℕ, ◌+◌, ◌≤◌, ◌<◌, ◌≡◌, refl, ◌∙◌, false, List, [], ◌∷◌, Option, none, some, arith, Option-cases,
  inl, inr, length, length-append, All, if◌then◌else◌,
}
use empyrean_v2_backend.Base.Int.{ℤ}
use empyrean_v2_backend.Base.Number.{Number, geb}
use empyrean_v2_backend.Alerts.Table.{
  Severity, aqi, Parameter, Alert, Alerts, rank, upsert_alert, offered,
}
use empyrean_v2_backend.Alerts.Upsert.{
  IsUnique, strongest, upsert_alert_effect, strongest-upsert_rows, strongest_none,
}
use empyrean_v2_backend.Alerts.Check.{
  Row, Progress, Settings, aqi_float, breach, raise_alert, check_row, check_rows,
}

-- The rank of the severity that an AQI calls for: two from the critical threshold on, one from the
-- warning threshold on, and zero within the limits.
abbrev pub due : Number → Number → ℤ → ℕ
due warning_at critical_at a =
    if geb (aqi_float a) critical_at then 2 else if geb (aqi_float a) warning_at then 1 else 0

abbrev pub demand : Number → Number → Row → ℕ
demand warning_at critical_at r = elim r.aqi [ none ↦ 0 | some a ↦ due warning_at critical_at a ]

-- The node of the row has an unacknowledged alert that is severe enough for it.
abbrev pub IsCovered : Number → Number → List Alert → Row → Type 0
IsCovered warning_at critical_at rows r =
    demand warning_at critical_at r ≤ strongest r.node_id aqi rows

-- What a step of the loop keeps: the index, every severity, and one publication for each alert that
-- is counted.
pub record Advances (p q : Progress) : Type 0 where
  pub unique : IsUnique q.alerts.rows
  pub kept : (n : ℕ) (k : Parameter) → strongest n k p.alerts.rows ≤ strongest n k q.alerts.rows
  pub tallied : q.created + length p.publishes ≡ p.created + length q.publishes

-- What a step that finds nothing new leaves alone.
pub record Rests (p q : Progress) : Type 0 where
  pub created : q.created ≡ p.created
  pub publishes : q.publishes ≡ p.publishes
  pub emails : q.emails ≡ p.emails

module _ (render : ℕ → ℤ → Severity → Number → List ℕ) (now : ℕ) (settings : Settings)
    (warning_at critical_at : Number) where
  raise_alert_alerts :
      (node : ℕ) (a : ℤ) (category : Option ℕ) (s : Severity) (limit : Number) (p : Progress)
      → (raise_alert render now settings node a category s limit p).alerts
        ≡ (upsert_alert now node (aqi_float a) limit s (render node a s limit) p.alerts).0
  unfolding raise_alert
  raise_alert_alerts node a category s limit p = ground arith

  raise_alert_tally :
      (node : ℕ) (a : ℤ) (category : Option ℕ) (s : Severity) (limit : Number) (p : Progress)
      → let q = raise_alert render now settings node a category s limit p in
        q.created + length p.publishes ≡ p.created + length q.publishes
  unfolding raise_alert
  raise_alert_tally node a category s limit p = ground (
    arith,
    length-append p.publishes (
        record { node_id = node; aqi = a; category = category; severity = s; timestamp = now }
        ∷ []),
  )

  raise_alert-Rests :
      (node : ℕ) (a : ℤ) (category : Option ℕ) (s : Severity) (limit : Number) (p : Progress)
      → (upsert_alert now node (aqi_float a) limit s (render node a s limit) p.alerts).1 ≡ false
      → Rests p (raise_alert render now settings node a category s limit p)
  unfolding raise_alert
  raise_alert-Rests node a category s limit p h = ground arith

  upsert_alert-kept :
      (node : ℕ) (value limit : Number) (s : Severity) (message : List ℕ) (t : Alerts)
      → IsUnique t.rows
      → (n : ℕ) (k : Parameter)
      → strongest n k t.rows ≤ strongest n k (upsert_alert now node value limit s message t).0.rows
  unfolding upsert_alert
  upsert_alert-kept node value limit s message t u n k =
      strongest-upsert_rows (offered t.next_id now node value limit s message) t.rows n k refl u

  -- An alert that is severe enough is there already, so nothing is done.
  upsert_alert-rests :
      (node : ℕ) (value limit : Number) (s : Severity) (message : List ℕ) (t : Alerts)
      → IsUnique t.rows
      → 0 < rank s
      → rank s ≤ strongest node aqi t.rows
      → (upsert_alert now node value limit s message t).1 ≡ false
  upsert_alert-rests node value limit s message t u pos_rank h = ground (
    arith,
    upsert_alert_effect now node value limit s message t u,
    strongest_none node aqi t.rows,
  )

  breach-rank :
      (a : ℤ) (s : Severity) (limit : Number)
      → breach warning_at critical_at a ≡ some (s, limit)
      → 0 < rank s
  unfolding breach
  breach-rank a s limit h = ground arith

  breach-none : (a : ℤ) → breach warning_at critical_at a ≡ none → due warning_at critical_at a ≡ 0
  unfolding breach
  breach-none a h = ground arith

  breach-some :
      (a : ℤ) (s : Severity) (limit : Number)
      → breach warning_at critical_at a ≡ some (s, limit)
      → due warning_at critical_at a ≡ rank s
  unfolding breach
  breach-some a s limit h = ground arith

  raise_alert-Advances :
      (node : ℕ) (a : ℤ) (category : Option ℕ) (s : Severity) (limit : Number) (p : Progress)
      → IsUnique p.alerts.rows
      → let q = raise_alert render now settings node a category s limit p in
        Advances p q × (rank s ≤ strongest node aqi q.alerts.rows)
  raise_alert-Advances node a category s limit p u =
      let message = render node a s limit in
      let t = (upsert_alert now node (aqi_float a) limit s message p.alerts).0 in
      let effect = upsert_alert_effect now node (aqi_float a) limit s message p.alerts u in
      let same = raise_alert_alerts node a category s limit p in
      (
        record {
          unique = rw same effect.0;
          kept = rw same (upsert_alert-kept node (aqi_float a) limit s message p.alerts u);
          tallied = raise_alert_tally node a category s limit p;
        },
        rw same (omega (arith, effect.2)),
      )

  stays : (p : Progress) → IsUnique p.alerts.rows → Advances p p
  stays p u = record { unique = u; kept = λ n k. omega arith; tallied = omega arith }

  -- One row: it advances the loop, and is covered then.
  pub check_row-Advances :
      (r : Row) (p : Progress)
      → IsUnique p.alerts.rows
      → let q = check_row render now settings warning_at critical_at r p in
        Advances p q × IsCovered warning_at critical_at q.alerts.rows r
  unfolding check_row strongest
  check_row-Advances r p u = elim (Option-cases r.aqi) [
    | inl e ↦ rw (e, check_row) (stays p u, omega arith)
    | inr (a, e) ↦
        rw (e, check_row)
          (elim (Option-cases (breach warning_at critical_at a)) [
            | inl e' ↦ rw (e', breach-none a e') (stays p u, omega arith)
            | inr ((s, limit), e') ↦
                rw (e', breach-some a s limit e')
                  (raise_alert-Advances r.node_id a r.category s limit p u)
          ])
  ]

  -- A row that is covered already: nothing is counted, published or mailed.
  pub check_row-Rests :
      (r : Row) (p : Progress)
      → IsUnique p.alerts.rows
      → IsCovered warning_at critical_at p.alerts.rows r
      → Rests p (check_row render now settings warning_at critical_at r p)
  unfolding check_row strongest
  check_row-Rests r p u c = elim (Option-cases r.aqi) [
    | inl e ↦ rw (e, check_row) (record { created = refl; publishes = refl; emails = refl })
    | inr (a, e) ↦
        rw (e, check_row)
          (elim (Option-cases (breach warning_at critical_at a)) [
            | inl e' ↦ rw e' (record { created = refl; publishes = refl; emails = refl })
            | inr ((s, limit), e') ↦ rw e' (
                raise_alert-Rests r.node_id a r.category s limit p (
                  upsert_alert-rests r.node_id (aqi_float a) limit s (render r.node_id a s limit)
                    p.alerts u (breach-rank a s limit e') (rw (e, breach-some a s limit e') at c)))
          ])
  ]

  pub Rests-trans : {p q r : Progress} → Rests p q → Rests q r → Rests p r
  Rests-trans h k = record {
    created = k.created ∙ h.created;
    publishes = k.publishes ∙ h.publishes;
    emails = k.emails ∙ h.emails;
  }

  pub Advances-trans : {p q r : Progress} → Advances p q → Advances q r → Advances p r
  Advances-trans h k = record {
    unique = k.unique;
    kept = λ n x. le_trans (h.kept n x) (k.kept n x);
    tallied = omega (arith, h.tallied, k.tallied);
  }

  pub check_rows-Advances :
      (rs : List Row) (p : Progress)
      → IsUnique p.alerts.rows
      → let q = check_rows render now settings warning_at critical_at rs p in
        Advances p q × All (IsCovered warning_at critical_at q.alerts.rows) rs
  unfolding check_rows
  check_rows-Advances [] p u = (stays p u, tt)
  check_rows-Advances (r ∷ rs) p u =
      let (first, covered) = check_row-Advances r p u in
      let (rest, all_covered) =
        check_rows-Advances rs (check_row render now settings warning_at critical_at r p)
          first.unique in
      (Advances-trans first rest, (le_trans covered (rest.kept r.node_id aqi), all_covered))

  pub All-IsCovered :
      (rs : List Row) {p q : Progress}
      → Advances p q
      → All (IsCovered warning_at critical_at p.alerts.rows) rs
      → All (IsCovered warning_at critical_at q.alerts.rows) rs
  All-IsCovered [] h c = tt
  All-IsCovered (r ∷ rs) h c = (le_trans c.0 (h.kept r.node_id aqi), All-IsCovered rs h c.1)

  pub check_rows-Rests :
      (rs : List Row) (p : Progress)
      → IsUnique p.alerts.rows
      → All (IsCovered warning_at critical_at p.alerts.rows) rs
      → Rests p (check_rows render now settings warning_at critical_at rs p)
  unfolding check_rows
  check_rows-Rests [] p u c = record { created = refl; publishes = refl; emails = refl }
  check_rows-Rests (r ∷ rs) p u c =
      let q = check_row render now settings warning_at critical_at r p in
      let step = (check_row-Advances r p u).0 in
      Rests-trans (check_row-Rests r p u c.0)
        (check_rows-Rests rs q step.unique (All-IsCovered rs step c.1))
