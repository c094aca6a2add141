-- ===== src/Aggregation/Groups.antt =====
-- What grouping and upserting make of a table (tasks/aggregation.py, the statement of
-- `hourly_aggregate`).
use empyrean_v2_backend.Base.{
  ℕ, ◌+◌, ◌≤◌, ◌<◌, ◌==◌, ◌≡◌, refl, ◌∙◌, arith, true, List, [], ◌∷◌, some, keep, count, find, All,
  if◌then◌else◌, Bool-cases, inl, inr, ◌⊎◌,
}
use empyrean_v2_backend.Pipeline.Enrich.{Reading}
use empyrean_v2_backend.Aggregation.Rollup.{
  HourlyAgg, hour, hour_of, in_window, in_group, is_row, row_of, group_by, upsert, upsert_each,
}

pub count-group_by :
    (whole rs : List Reading) (b n : ℕ)
    → count (is_row b n) (group_by whole rs) ≡ (if count (in_group b n) rs == 0 then 0 else 1)
unfolding group_by row_of
count-group_by whole [] b n = refl
count-group_by whole (r ∷ rs) b n =
    ground (arith, count-group_by whole rs b n, count-group_by whole rs (hour_of r.time) r.node_id)

-- The row of a group is made of the group's members.
abbrev pub IsRowOf : List Reading → HourlyAgg → Type 0
IsRowOf whole h = h ≡ row_of whole h.bucket h.node_id

row_of-IsRowOf : (whole : List Reading) (b n : ℕ) → IsRowOf whole (row_of whole b n)
unfolding row_of
row_of-IsRowOf whole b n = refl

pub group_by-IsRowOf : (whole rs : List Reading) → All (IsRowOf whole) (group_by whole rs)
unfolding group_by
group_by-IsRowOf whole [] = tt
group_by-IsRowOf whole (r ∷ rs) =
    elim (Bool-cases (count (is_row (hour_of r.time) r.node_id) (group_by whole rs) == 0)) [
      | inl e ↦ rw e (row_of-IsRowOf whole (hour_of r.time) r.node_id, group_by-IsRowOf whole rs)
      | inr e ↦ rw e (group_by-IsRowOf whole rs)
    ]

pub find-upsert :
    (b n : ℕ) (h : HourlyAgg) (t : List HourlyAgg)
    → find (is_row b n) (upsert h t) ≡ (if is_row b n h then some h else find (is_row b n) t)
unfolding upsert
find-upsert b n h [] = refl
find-upsert b n h (x ∷ t) = ground (arith, find-upsert b n h t)

row_of_key :
    (whole : List Reading) (b n : ℕ) (h : HourlyAgg)
    → is_row b n h ≡ true
    → IsRowOf whole h
    → h ≡ row_of whole b n
row_of_key whole b n h e row =
    let same : (h.bucket ≡ b) × (h.node_id ≡ n) = (ground (arith, e), ground (arith, e)) in
    row ∙ (λ i. row_of whole (same.0 i) (same.1 i))

pub find-upsert_each :
    (whole : List Reading) (b n : ℕ) (hs t : List HourlyAgg)
    → All (IsRowOf whole) hs
    → find (is_row b n) (upsert_each hs t)
      ≡ (if count (is_row b n) hs == 0 then find (is_row b n) t else some (row_of whole b n))
unfolding upsert_each
find-upsert_each whole b n [] t h = refl
find-upsert_each whole b n (x ∷ hs) t h =
    let rest = find-upsert_each whole b n hs (upsert x t) h.1 in
    let new = find-upsert b n x t in
    elim (Bool-cases (is_row b n x)) [
      | inr e ↦ ground (arith, rest, new, e)
      | inl e ↦ ground (arith, rest, new, e, row_of_key whole b n x e h.0)
    ]

-- The statement as a whole: the row of a group that has members is made anew, any other stays.
pub find-upsert_group_by :
    (rs : List Reading) (b n : ℕ) (t : List HourlyAgg)
    → find (is_row b n) (upsert_each (group_by rs rs) t)
      ≡ (if count (in_group b n) rs == 0 then find (is_row b n) t else some (row_of rs b n))
find-upsert_group_by rs b n t = ground (
  arith,
  find-upsert_each rs b n (group_by rs rs) t (group_by-IsRowOf rs rs),
  count-group_by rs rs b n,
)

-- A window that holds a whole hour holds all members of its groups.
pub keep-in_window :
    (b n start end : ℕ) (rs : List Reading)
    → start ≤ b
    → b + hour ≤ end
    → keep (in_group b n) (keep (in_window start end) rs) ≡ keep (in_group b n) rs
keep-in_window b n start end [] h k = refl
keep-in_window b n start end (r ∷ rs) h k = ground (arith, keep-in_window b n start end rs h k)

-- A window of whole hours that does not hold an hour holds no member of its groups.
pub count-out_of_window :
    (b n start end : ℕ) (rs : List Reading)
    → hour_of start ≡ start
    → hour_of end ≡ end
    → ((b < start) ⊎ (end ≤ b))
    → count (in_group b n) (keep (in_window start end) rs) ≡ 0
count-out_of_window b n start end [] s e out = refl
count-out_of_window b n start end (r ∷ rs) s e out =
    ground (arith, count-out_of_window b n start end rs s e out)
