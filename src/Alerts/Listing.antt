-- ===== src/Alerts/Listing.antt =====
-- What the alert listing shows (api/alerts.py, `list_alerts`).
use empyrean_v2_backend.Base.{
  ℕ, zero, suc, ◌-◌, ◌≤◌, ◌≡◌, refl, true, false, List, [], ◌∷◌, Option, count, keep, take, drop,
  arith, Bool-cases, inl, inr, length, ok, length-take, length-drop, length-keep, All, All-take,
  All-drop, All-keep, min,
}
use empyrean_v2_backend.Base.Int.{pos}
use empyrean_v2_backend.Alerts.Table.{Severity, Alert, Alerts}
use empyrean_v2_backend.Alerts.Routes.{
  number, validate_pagination, newer, insert, newest_first, is_listed, is_known, Listing,
  list_alerts, max_limit,
}

-- Each alert is followed by one that is not newer.
abbrev pub IsNewestFirst : List Alert → Type 0
IsNewestFirst [] = Unit
IsNewestFirst (a ∷ []) = Unit
IsNewestFirst (a ∷ b ∷ r) = (newer a b ≡ true) × IsNewestFirst (b ∷ r)

newer_total : (a b : Alert) → newer a b ≡ false → newer b a ≡ true
unfolding newer
newer_total a b h = ground arith

insert-IsNewestFirst : (a : Alert) (l : List Alert) → IsNewestFirst l → IsNewestFirst (insert a l)
unfolding insert
insert-IsNewestFirst a [] h = tt
insert-IsNewestFirst a (b ∷ []) h = ground (arith, newer_total a b)
insert-IsNewestFirst a (b ∷ c ∷ r) h =
    ground (arith, newer_total a b, insert-IsNewestFirst a (c ∷ r))

newest_first-IsNewestFirst : (l : List Alert) → IsNewestFirst (newest_first l)
unfolding newest_first
newest_first-IsNewestFirst [] = tt
newest_first-IsNewestFirst (a ∷ l) =
    insert-IsNewestFirst a (newest_first l) (newest_first-IsNewestFirst l)

length-insert : (a : Alert) (l : List Alert) → length (insert a l) ≡ suc (length l)
unfolding insert
length-insert a [] = refl
length-insert a (b ∷ l) = ground (arith, length-insert a l)

length-newest_first : (l : List Alert) → length (newest_first l) ≡ length l
unfolding newest_first
length-newest_first [] = refl
length-newest_first (a ∷ l) = omega (arith, length-insert a (newest_first l), length-newest_first l)

module _ (P : Alert → Type 0) where
  All-insert : (a : Alert) (l : List Alert) → P a → All P l → All P (insert a l)
  unfolding insert
  All-insert a [] p h = (p, tt)
  All-insert a (b ∷ l) p h = elim (Bool-cases (newer a b)) [
    | inl e ↦ rw e (p, h)
    | inr e ↦ rw e (h.0, All-insert a l p h.1)
  ]

  All-newest_first : (l : List Alert) → All P l → All P (newest_first l)
  unfolding newest_first
  All-newest_first [] h = tt
  All-newest_first (a ∷ l) h = All-insert a (newest_first l) h.0 (All-newest_first l h.1)

drop-IsNewestFirst : (n : ℕ) (l : List Alert) → IsNewestFirst l → IsNewestFirst (drop n l)
drop-IsNewestFirst zero l h = h
drop-IsNewestFirst (suc n) [] h = tt
drop-IsNewestFirst (suc n) (a ∷ []) h = drop-IsNewestFirst n [] tt
drop-IsNewestFirst (suc n) (a ∷ b ∷ r) h = drop-IsNewestFirst n (b ∷ r) h.1

take-IsNewestFirst : (n : ℕ) (l : List Alert) → IsNewestFirst l → IsNewestFirst (take n l)
take-IsNewestFirst zero l h = tt
take-IsNewestFirst (suc n) [] h = tt
take-IsNewestFirst (suc zero) (a ∷ []) h = tt
take-IsNewestFirst (suc (suc n)) (a ∷ []) h = tt
take-IsNewestFirst (suc zero) (a ∷ b ∷ r) h = tt
take-IsNewestFirst (suc (suc n)) (a ∷ b ∷ r) h = (h.0, take-IsNewestFirst (suc n) (b ∷ r) h.1)

-- A request with a known severity, a limit from 1 to 200 and an offset gets its page: unacknowledged
-- alerts of that severity, newest first, as many as the limit and the alerts past the offset allow,
-- with the number of all such alerts as the total.
pub list_alerts_page :
    (severity : Option Severity) (limit offset : ℕ) (t : Alerts)
    → is_known severity ≡ true
    → 1 ≤ limit
    → limit ≤ max_limit
    → (l : Listing) × (list_alerts severity (number (pos limit)) (number (pos offset)) t ≡ ok l)
      × (l.total ≡ length (keep (is_listed severity) t.rows))
      × (length l.alerts ≡ min limit (l.total - offset))
      × All (λ a. is_listed severity a ≡ true) l.alerts
      × IsNewestFirst l.alerts
unfolding list_alerts validate_pagination
list_alerts_page severity limit offset t known lo hi =
    let found = keep (is_listed severity) t.rows in
    let sorted = newest_first found in
    let P : Alert → Type 0 = λ a. is_listed severity a ≡ true in
    (
      record {
        alerts = take limit (drop offset sorted);
        total = count (is_listed severity) t.rows;
      },
      ground arith,
      omega (arith, length-keep (is_listed severity) t.rows),
      omega (
        arith,
        length-take limit (drop offset sorted),
        length-drop offset sorted,
        length-newest_first found,
        length-keep (is_listed severity) t.rows,
      ),
      All-take P limit (drop offset sorted) (
          All-drop P offset sorted
            (All-newest_first P found (All-keep (is_listed severity) t.rows))),
      take-IsNewestFirst limit (drop offset sorted)
          (drop-IsNewestFirst offset sorted (newest_first-IsNewestFirst found)),
    )
