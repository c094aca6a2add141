-- ===== src/Aggregation/Windows.antt =====
-- The window of a run of the hourly roll-up (tasks/aggregation.py, `hourly_aggregate`).
use empyrean_v2_backend.Base.{
  ℕ, ◌+◌, ◌≤◌, ◌==◌, ◌≡◌, ◌≢◌, refl, sym, ap, ◌∙◌, arith, Bool, true, ◌&&◌, not, List, [], ◌∷◌,
  Option, none, some, leb, length, keep, count, find, All, if◌then◌else◌, Bool-cases, Option-cases,
  inl, inr, length-keep,
}
use empyrean_v2_backend.Pipeline.Enrich.{Reading}
use empyrean_v2_backend.Aggregation.Rollup.{
  HourlyAgg, hour, day, hour_of, in_window, in_group, is_row, row_of, summarise, group_by,
  upsert_each, earliest_hour, watermark_of, start_of, roll_up,
}
use empyrean_v2_backend.Aggregation.Groups.{
  find-upsert_group_by, keep-in_window, count-out_of_window,
}

-- The hour is over, and no more than a day behind the newest row, if there is one.
abbrev pub is_due : ℕ → List HourlyAgg → ℕ → Bool
is_due now table b =
    leb (b + hour) now && elim (watermark_of table) [ none ↦ true | some w ↦ leb w (b + day) ]

-- The table holds whole hours only.
abbrev pub IsAligned : List HourlyAgg → Type 0
IsAligned = All (λ h. hour_of h.bucket ≡ h.bucket)

pub earliest-none :
    (end b n : ℕ) (rs : List Reading)
    → earliest_hour end rs ≡ none
    → b + hour ≤ end
    → count (in_group b n) rs ≡ 0
unfolding earliest_hour
earliest-none end b n [] h k = refl
earliest-none end b n (r ∷ rs) h k = ground (arith, earliest-none end b n rs)

pub earliest-le :
    (end b n e : ℕ) (rs : List Reading)
    → earliest_hour end rs ≡ some e
    → b + hour ≤ end
    → count (in_group b n) rs ≢ 0
    → e ≤ b
unfolding earliest_hour
earliest-le end b n e [] h k c = absurd (ground arith)
earliest-le end b n e (r ∷ rs) h k c = elim (Option-cases (earliest_hour end rs)) [
  | inl e' ↦ ground (arith, e', earliest-none end b n rs e' k)
  | inr (m, e') ↦ ground (arith, e', earliest-le end b n m rs e' k)
]

pub hour_of-earliest :
    (end e : ℕ) (rs : List Reading) → earliest_hour end rs ≡ some e → hour_of e ≡ e
unfolding earliest_hour
hour_of-earliest end e [] h = absurd (ground arith)
hour_of-earliest end e (r ∷ rs) h = elim (Option-cases (earliest_hour end rs)) [
  | inl e' ↦ ground (arith, e')
  | inr (m, e') ↦ ground (arith, e', hour_of-earliest end m rs e')
]

pub hour_of-watermark :
    (w : ℕ) (t : List HourlyAgg) → watermark_of t ≡ some w → IsAligned t → hour_of w ≡ w
unfolding watermark_of
hour_of-watermark w [] h k = absurd (ground arith)
hour_of-watermark w (x ∷ t) h k = elim (Option-cases (watermark_of t)) [
  | inl e' ↦ ground (arith, e')
  | inr (m, e') ↦ ground (arith, e', hour_of-watermark m t e')
]

pub hour_of-start :
    (e : ℕ) (w : Option ℕ)
    → hour_of e ≡ e
    → ((m : ℕ) → w ≡ some m → hour_of m ≡ m)
    → hour_of (start_of e w) ≡ start_of e w
unfolding start_of
hour_of-start e none h k = h
hour_of-start e (some w) h k = ground (arith, k w refl)

pub count-keep-le : (p q : Reading → Bool) (rs : List Reading) → count p (keep q rs) ≤ count p rs
count-keep-le p q [] = omega arith
count-keep-le p q (r ∷ rs) = ground (arith, count-keep-le p q rs)

-- A group that has members is that of a whole hour.
pub hour_of-group : (b n : ℕ) (rs : List Reading) → count (in_group b n) rs ≢ 0 → hour_of b ≡ b
hour_of-group b n [] c = absurd (c refl)
hour_of-group b n (r ∷ rs) c = elim (Bool-cases (in_group b n r)) [
  | inl e ↦ ground (arith, e)
  | inr e ↦ hour_of-group b n rs (ground (arith, e))
]

pub row_of-window :
    (b n start end : ℕ) (rs : List Reading)
    → start ≤ b
    → b + hour ≤ end
    → (row_of (keep (in_window start end) rs) b n ≡ row_of rs b n)
      × (count (in_group b n) (keep (in_window start end) rs) ≡ count (in_group b n) rs)
unfolding row_of
row_of-window b n start end rs h k =
    let same = keep-in_window b n start end rs h k in
    (
      ap (λ g. record { bucket = b; node_id = n; summary = summarise g }) same,
      sym (length-keep (in_group b n) (keep (in_window start end) rs))
          ∙ (ap length same ∙ length-keep (in_group b n) rs),
    )

-- Whether a window takes in the group of an hour and a node.
abbrev pub takes : ℕ → ℕ → ℕ → ℕ → List Reading → Bool
takes start end b n readings =
    (leb start b && leb (b + hour) end) && not (count (in_group b n) readings == 0)

-- What is written for a window of whole hours.
pub written_lem :
    (start end b n : ℕ) (readings : List Reading) (table : List HourlyAgg)
    → hour_of start ≡ start
    → hour_of end ≡ end
    → let rows = keep (in_window start end) readings in
      find (is_row b n) (upsert_each (group_by rows rows) table) ≡ (
        if takes start end b n readings
        then some (row_of readings b n)
        else find (is_row b n) table)
written_lem start end b n readings table s e =
    let rows = keep (in_window start end) readings in
    let grouped = find-upsert_group_by rows b n table in
    elim (Bool-cases (count (in_group b n) readings == 0)) [
      | inl z ↦
          ground (arith, grouped, z, count-keep-le (in_group b n) (in_window start end) readings)
      | inr nz ↦
          let whole = hour_of-group b n readings (ground (arith, nz)) in
          elim (Bool-cases (leb start b && leb (b + hour) end)) [
            | inl inside ↦
                let same =
                  row_of-window b n start end readings (ground (arith, inside))
                    (ground (arith, inside)) in
                ground (arith, grouped, nz, inside, same)
            | inr outside ↦ ground (
              arith,
              grouped,
              nz,
              outside,
              count-out_of_window b n start end readings s e (ground (arith, outside)),
            )
          ]
    ]

pub roll_up_lem :
    (start end b n : ℕ) (readings : List Reading) (table : List HourlyAgg)
    → hour_of start ≡ start
    → hour_of end ≡ end
    → find (is_row b n) (roll_up start end readings table).0 ≡ (
        if takes start end b n readings
        then some (row_of readings b n)
        else find (is_row b n) table)
unfolding roll_up
roll_up_lem start end b n readings table s e = elim (Bool-cases (leb end start)) [
  | inl h ↦ rw h (ground (arith, h))
  | inr h ↦ rw h (written_lem start end b n readings table s e)
]
