-- ===== src/Aggregation/Idempotent.antt =====
-- A run of the hourly roll-up may be repeated (tasks/aggregation.py, `hourly_aggregate`).
use empyrean_v2_backend.Base.{
  ℕ, ◌+◌, ◌≤◌, ◌≡◌, refl, arith, ◌&&◌, List, [], ◌∷◌, none, some, leb, max, keep, find, Bool-cases,
  Option-cases, inl, inr, ◌⊎◌,
}
use empyrean_v2_backend.Pipeline.Enrich.{Reading}
use empyrean_v2_backend.Aggregation.Rollup.{
  HourlyAgg, hour, day, hour_of, in_window, is_row, group_by, upsert, upsert_each, earliest_hour,
  watermark_of, start_of, roll_up, hourly_aggregate,
}
use empyrean_v2_backend.Aggregation.Windows.{is_due, IsAligned}
use empyrean_v2_backend.Aggregation.Coverage.{hourly_aggregate_covers}

-- The newest hour of a table; zero if it is empty.
newest : List HourlyAgg → ℕ
newest [] = 0
newest (h ∷ t) = max h.bucket (newest t)

watermark_of-newest :
    (t : List HourlyAgg)
    → ((watermark_of t ≡ none) × (newest t ≡ 0)) ⊎ (watermark_of t ≡ some (newest t))
unfolding watermark_of newest
watermark_of-newest [] = inl (refl, refl)
watermark_of-newest (h ∷ t) = inr (ground (arith, watermark_of-newest t))

is_due-newest :
    (now b : ℕ) (t : List HourlyAgg)
    → is_due now t b ≡ (leb (b + hour) now && leb (newest t) (b + day))
is_due-newest now b t = elim (watermark_of-newest t) [
  | inl h ↦ rw (h.0, h.1) (ground arith)
  | inr h ↦ rw h refl
]

newest-upsert : (h : HourlyAgg) (t : List HourlyAgg) → newest t ≤ newest (upsert h t)
unfolding newest upsert
newest-upsert h [] = omega arith
newest-upsert h (x ∷ t) = ground (arith, newest-upsert h t)

newest-upsert_each : (hs t : List HourlyAgg) → newest t ≤ newest (upsert_each hs t)
unfolding upsert_each
newest-upsert_each [] t = omega arith
newest-upsert_each (x ∷ hs) t = omega (arith, newest-upsert x t, newest-upsert_each hs (upsert x t))

newest-hourly_aggregate :
    (now : ℕ) (readings : List Reading) (table : List HourlyAgg)
    → newest table ≤ newest (hourly_aggregate now readings table).0
unfolding hourly_aggregate roll_up
newest-hourly_aggregate now readings table =
    elim (Option-cases (earliest_hour (hour_of now) readings)) [
      | inl e ↦ rw (hourly_aggregate, e) (omega arith)
      | inr (m, e) ↦
          let start = start_of m (watermark_of table) in
          let rows = keep (in_window start (hour_of now)) readings in
          rw (hourly_aggregate, e)
            (elim (Bool-cases (leb (hour_of now) start)) [
              | inl e' ↦ rw e' (omega arith)
              | inr e' ↦ rw e' (newest-upsert_each (group_by rows rows) table)
            ])
    ]

-- A run that is repeated at the same time on the same readings changes no row. The table holds whole
-- hours only.
pub hourly_aggregate_idempotent :
    (now : ℕ) (readings : List Reading) (table : List HourlyAgg) (b n : ℕ)
    → IsAligned table
    → let once = (hourly_aggregate now readings table).0 in
      find (is_row b n) (hourly_aggregate now readings once).0 ≡ find (is_row b n) once
hourly_aggregate_idempotent now readings table b n h =
    let once = (hourly_aggregate now readings table).0 in
    let first = hourly_aggregate_covers now readings table b n h in
    let second = hourly_aggregate_covers now readings once b n first.0 in
    ground (
      arith,
      first.1,
      second.1,
      is_due-newest now b table,
      is_due-newest now b once,
      newest-hourly_aggregate now readings table,
    )
