-- ===== src/Aggregation/Coverage.antt =====
-- What a run of the hourly roll-up covers (tasks/aggregation.py, `hourly_aggregate`).
use empyrean_v2_backend.Base.{
  ℕ, ◌+◌, ◌≤◌, ◌==◌, ◌≡◌, refl, arith, true, false, ◌&&◌, not, List, [], ◌∷◌, Option, none, some,
  leb, keep, count, find, if◌then◌else◌, Bool-cases, Option-cases, inl, inr,
}
use empyrean_v2_backend.Pipeline.Enrich.{Reading}
use empyrean_v2_backend.Aggregation.Rollup.{
  HourlyAgg, hour, day, hour_of, in_window, in_group, is_row, row_of, group_by, upsert, upsert_each,
  earliest_hour, watermark_of, start_of, roll_up, hourly_aggregate,
}
use empyrean_v2_backend.Aggregation.Windows.{
  is_due, IsAligned, earliest-none, earliest-le, hour_of-earliest, hour_of-watermark, hour_of-start,
  hour_of-group, takes, roll_up_lem,
}

hour_of-hour_of : (t : ℕ) → hour_of (hour_of t) ≡ hour_of t
hour_of-hour_of t = omega arith

group_by-IsAligned : (whole rs : List Reading) → IsAligned (group_by whole rs)
unfolding group_by row_of
group_by-IsAligned whole [] = tt
group_by-IsAligned whole (r ∷ rs) =
    elim (Bool-cases (count (is_row (hour_of r.time) r.node_id) (group_by whole rs) == 0)) [
      | inl e ↦ rw e (hour_of-hour_of r.time, group_by-IsAligned whole rs)
      | inr e ↦ rw e (group_by-IsAligned whole rs)
    ]

upsert-IsAligned :
    (h : HourlyAgg) (t : List HourlyAgg)
    → hour_of h.bucket ≡ h.bucket
    → IsAligned t
    → IsAligned (upsert h t)
unfolding upsert
upsert-IsAligned h [] e k = (e, tt)
upsert-IsAligned h (x ∷ t) e k = elim (Bool-cases (is_row h.bucket h.node_id x)) [
  | inl same ↦ rw same (e, k.1)
  | inr other ↦ rw other (k.0, upsert-IsAligned h t e k.1)
]

upsert_each-IsAligned :
    (hs t : List HourlyAgg) → IsAligned hs → IsAligned t → IsAligned (upsert_each hs t)
unfolding upsert_each
upsert_each-IsAligned [] t h k = k
upsert_each-IsAligned (x ∷ hs) t h k =
    upsert_each-IsAligned hs (upsert x t) h.1 (upsert-IsAligned x t h.0 k)

hourly_aggregate-IsAligned :
    (now : ℕ) (readings : List Reading) (table : List HourlyAgg)
    → IsAligned table
    → IsAligned (hourly_aggregate now readings table).0
unfolding hourly_aggregate roll_up
hourly_aggregate-IsAligned now readings table h =
    elim (Option-cases (earliest_hour (hour_of now) readings)) [
      | inl e ↦ rw (hourly_aggregate, e) h
      | inr (m, e) ↦
          let start = start_of m (watermark_of table) in
          let rows = keep (in_window start (hour_of now)) readings in
          rw (hourly_aggregate, e)
            (elim (Bool-cases (leb (hour_of now) start)) [
              | inl e' ↦ rw e' h
              | inr e' ↦ rw e' (
                  upsert_each-IsAligned (group_by rows rows) table (group_by-IsAligned rows rows) h)
            ])
    ]

-- The window of a run, and what is due.
takes-is_due :
    (now m b n : ℕ) (w : Option ℕ) (readings : List Reading)
    → earliest_hour (hour_of now) readings ≡ some m
    → takes (start_of m w) (hour_of now) b n readings ≡ (
        (leb (b + hour) now && elim w [ none ↦ true | some v ↦ leb v (b + day) ])
        && not (count (in_group b n) readings == 0))
unfolding start_of
takes-is_due now m b n w readings e = elim (Bool-cases (count (in_group b n) readings == 0)) [
  | inl z ↦ ground (arith, z)
  | inr nz ↦
      let whole = hour_of-group b n readings (ground (arith, nz)) in
      elim (Bool-cases (leb (b + hour) now)) [
        | inr early ↦ ground (arith, early)
        | inl over ↦
            let first =
              earliest-le (hour_of now) b n m readings e (ground (arith, whole, over))
                (ground (arith, nz)) in
            due w nz over whole first
      ]
]
  where
    due :
        (v : Option ℕ)
        → (count (in_group b n) readings == 0) ≡ false
        → leb (b + hour) now ≡ true
        → hour_of b ≡ b
        → m ≤ b
        → takes (start_of m v) (hour_of now) b n readings ≡ (
            (leb (b + hour) now && elim v [ none ↦ true | some x ↦ leb x (b + day) ])
            && not (count (in_group b n) readings == 0))
    due none nz over whole first = ground arith
    due (some x) nz over whole first = ground arith

-- With no reading before the hour of a run, nothing is due.
nothing_due :
    (now b n : ℕ) (readings : List Reading) (table : List HourlyAgg)
    → earliest_hour (hour_of now) readings ≡ none
    → (is_due now table b && not (count (in_group b n) readings == 0)) ≡ false
nothing_due now b n readings table e = elim (Bool-cases (count (in_group b n) readings == 0)) [
  | inl z ↦ elim (Bool-cases (is_due now table b)) [ inl d ↦ rw (d, z) refl | inr d ↦ rw d refl ]
  | inr nz ↦
      let whole = hour_of-group b n readings (ground (arith, nz)) in
      elim (Bool-cases (leb (b + hour) now)) [
        | inr early ↦ rw early refl
        | inl over ↦ absurd (
            ground
              (arith, nz, earliest-none (hour_of now) b n readings e (ground (arith, whole, over))))
      ]
]

-- A run makes anew the row of every hour and node that has readings, where the hour is over and no
-- more than a day behind the newest row: the row sums up all readings of the hour, the late ones
-- included. Every other row is left as it was. The table, which holds whole hours only, still does.
pub hourly_aggregate_covers :
    (now : ℕ) (readings : List Reading) (table : List HourlyAgg) (b n : ℕ)
    → IsAligned table
    → let after = (hourly_aggregate now readings table).0 in
      IsAligned after
      × (find (is_row b n) after ≡ (
          if is_due now table b && not (count (in_group b n) readings == 0)
          then some (row_of readings b n)
          else find (is_row b n) table))
unfolding hourly_aggregate
hourly_aggregate_covers now readings table b n h = (
  hourly_aggregate-IsAligned now readings table h,
  elim (Option-cases (earliest_hour (hour_of now) readings)) [
    | inr (m, e) ↦
        let w = watermark_of table in
        let start =
          hour_of-start m w (hour_of-earliest (hour_of now) m readings e)
            (λ v k. hour_of-watermark v table k h) in
        rw (hourly_aggregate, e, ← takes-is_due now m b n w readings e)
          (roll_up_lem (start_of m w) (hour_of now) b n readings table start (hour_of-hour_of now))
    | inl e ↦ rw (hourly_aggregate, e, nothing_due now b n readings table e) refl
  ],
)
