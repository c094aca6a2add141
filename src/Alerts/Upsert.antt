-- ===== src/Alerts/Upsert.antt =====
-- What an upsert does to the unacknowledged alerts of each key (tasks/alerts.py, `_upsert_alert`).
use empyrean_v2_backend.Base.{
  ℕ, suc, ◌≤◌, ◌≡◌, refl, ap, subst, ◌≢◌, ◌↔◌, ◌==◌, true, false, ◌||◌, List, [], ◌∷◌, none, ltb,
  if◌then◌else◌, max, count, arith, Bool-cases, inl, inr, ◌⊎◌,
}
use empyrean_v2_backend.Base.Number.{Number}
use empyrean_v2_backend.Alerts.Table.{
  Severity, Parameter, aqi, Alert, Alerts, rank, same_parameter, unacked_for, overwrite,
  upsert_rows, upsert_alert, offered,
}

-- At most one unacknowledged alert of each node and parameter, which the index enforces.
abbrev pub IsUnique : List Alert → Type 0
IsUnique rows = (node : ℕ) (p : Parameter) → count (unacked_for node p) rows ≤ 1

-- The highest rank of an unacknowledged alert under a key.
unfoldable pub strongest : ℕ → Parameter → List Alert → ℕ
strongest node p [] = 0
strongest node p (a ∷ rows) =
    let rest = strongest node p rows in
    if unacked_for node p a then max (rank a.severity) rest else rest

-- Upserts never write an unacknowledged row past the index.
abbrev pub IsOffer : Alert → Type 0
IsOffer a = a.acknowledged_at ≡ none

same_parameter_iff : (p q : Parameter) → (same_parameter p q ≡ true) ↔ (p ≡ q)
same_parameter_iff p q = (λ h. ground arith, λ h. ground arith)

unacked_for_self : (new : Alert) → IsOffer new → unacked_for new.node_id new.parameter new ≡ true
unfolding unacked_for
unacked_for_self new o = ground (arith, (same_parameter_iff new.parameter new.parameter).1 refl)

-- Rows of one key carry that key.
unacked_for_key :
    (node : ℕ) (p : Parameter) (a : Alert)
    → unacked_for node p a ≡ true
    → (a.node_id ≡ node) × (a.parameter ≡ p)
unfolding unacked_for
unacked_for_key node p a h = ground (arith, (same_parameter_iff a.parameter p).0)

unacked_for-overwrite :
    (node : ℕ) (p : Parameter) (a new : Alert)
    → unacked_for node p (overwrite a new) ≡ unacked_for node p a
unfolding unacked_for
unacked_for-overwrite node p a new = refl

pub strongest_none :
    (node : ℕ) (p : Parameter) (rows : List Alert)
    → count (unacked_for node p) rows ≡ 0
    → strongest node p rows ≡ 0
unfolding strongest
strongest_none node p [] h = refl
strongest_none node p (a ∷ rows) h = ground (arith, strongest_none node p rows)

own_rest :
    (new a : Alert) (rows : List Alert)
    → unacked_for new.node_id new.parameter a ≡ true
    → count (unacked_for new.node_id new.parameter) (a ∷ rows) ≤ 1
    → count (unacked_for new.node_id new.parameter) rows ≤ 0
own_rest new a rows mine u = ground arith

-- Under the key of the offer there is then exactly one unacknowledged alert, its severity is the
-- higher of the two, and the upsert reports a change if there was none or if the offer outranks it.
upsert_own :
    (new : Alert) (rows : List Alert)
    → IsOffer new
    → count (unacked_for new.node_id new.parameter) rows ≤ 1
    → let node = new.node_id in
      let p = new.parameter in
      let r = upsert_rows new rows in
      (count (unacked_for node p) r.0 ≡ 1)
      × (strongest node p r.0 ≡ max (strongest node p rows) (rank new.severity))
      × (r.1 ≡ (
          (count (unacked_for node p) rows == 0)
          || ltb (strongest node p rows) (rank new.severity)))
unfolding strongest upsert_rows
upsert_own new [] o u = ground (arith, unacked_for_self new o)
upsert_own new (a ∷ rows) o u = elim (Bool-cases (unacked_for new.node_id new.parameter a)) [
  | inl mine ↦
      let none_left : count (unacked_for new.node_id new.parameter) rows ≡ 0 =
        omega (arith, own_rest new a rows mine u) in
      let same = unacked_for-overwrite new.node_id new.parameter a new in
      let rest = strongest_none new.node_id new.parameter rows none_left in
      elim (Bool-cases (ltb (rank a.severity) (rank new.severity))) [
        | inl higher ↦ rw (mine, higher) (rw (same, mine, none_left, rest) (ground arith))
        | inr lower ↦ rw (mine, lower) (rw (mine, none_left, rest) (ground arith))
      ]
  | inr not_mine ↦ let ih = upsert_own new rows o (ground arith) in rw not_mine (rw not_mine ih)
]

different_key :
    (new a : Alert) (node : ℕ) (p : Parameter)
    → IsOffer new
    → unacked_for new.node_id new.parameter a ≡ true
    → unacked_for node p new ≡ false
    → unacked_for node p a ≡ false
unfolding unacked_for
different_key new a node p o mine other_key =
    let key = unacked_for_key new.node_id new.parameter a mine in rw (key.0, key.1) (ground arith)

-- Under every other key nothing changes.
upsert_other :
    (new : Alert) (rows : List Alert) (node : ℕ) (p : Parameter)
    → unacked_for node p new ≡ false
    → IsOffer new
    → let r = upsert_rows new rows in
      (count (unacked_for node p) r.0 ≡ count (unacked_for node p) rows)
      × (strongest node p r.0 ≡ strongest node p rows)
unfolding strongest upsert_rows
upsert_other new [] node p h o = rw h (omega arith)
upsert_other new (a ∷ rows) node p h o =
    elim (Bool-cases (unacked_for new.node_id new.parameter a)) [
      | inl mine ↦
          let not_this = different_key new a node p o mine h in
          let same = unacked_for-overwrite node p a new in
          elim (Bool-cases (ltb (rank a.severity) (rank new.severity))) [
            | inl higher ↦ rw (mine, higher) (rw (same, not_this) (refl, refl))
            | inr lower ↦ rw (mine, lower) (refl, refl)
          ]
      | inr not_mine ↦
          let ih = upsert_other new rows node p h o in
          rw not_mine (
            ap (λ (n : ℕ). if unacked_for node p a then suc n else n) ih.0,
            ap (λ (n : ℕ). if unacked_for node p a then max (rank a.severity) n else n) ih.1,
          )
    ]

key_cases :
    (new : Alert) (node : ℕ) (p : Parameter)
    → IsOffer new
    → (unacked_for node p new ≡ false) ⊎ ((new.node_id ≡ node) × (new.parameter ≡ p))
key_cases new node p o = elim (Bool-cases (unacked_for node p new)) [
  | inl mine ↦ inr (unacked_for_key node p new mine)
  | inr other_key ↦ inl other_key
]

pub upsert_rows-IsUnique :
    (new : Alert) (rows : List Alert)
    → IsOffer new
    → IsUnique rows
    → IsUnique (upsert_rows new rows).0
upsert_rows-IsUnique new rows o u node p = elim (key_cases new node p o) [
  | inl other_key ↦ omega (arith, upsert_other new rows node p other_key o, u node p)
  | inr (en, ep) ↦
      subst (λ n. count (unacked_for n p) (upsert_rows new rows).0 ≤ 1) en
        (subst (λ q. count (unacked_for new.node_id q) (upsert_rows new rows).0 ≤ 1) ep
          (omega (arith, upsert_own new rows o (u new.node_id new.parameter))))
]

-- No upsert lowers the severity of an unacknowledged alert, under any key.
pub strongest-upsert_rows :
    (new : Alert) (rows : List Alert) (node : ℕ) (p : Parameter)
    → IsOffer new
    → IsUnique rows
    → strongest node p rows ≤ strongest node p (upsert_rows new rows).0
strongest-upsert_rows new rows node p o u = elim (key_cases new node p o) [
  | inl other_key ↦ omega (arith, upsert_other new rows node p other_key o)
  | inr (en, ep) ↦
      subst (λ n. strongest n p rows ≤ strongest n p (upsert_rows new rows).0) en
        (subst
          (λ q. strongest new.node_id q rows ≤ strongest new.node_id q (upsert_rows new rows).0) ep
          (omega (arith, upsert_own new rows o (u new.node_id new.parameter))))
]

-- On a table that the index keeps unique, an upsert leaves it so. The node's unacknowledged AQI alert
-- then has the higher of its old severity and the new one, and a change is reported exactly if there
-- was none or if the new severity outranks it.
pub upsert_alert_effect :
    (now node : ℕ) (value threshold : Number) (severity : Severity) (message : List ℕ) (t : Alerts)
    → IsUnique t.rows
    → let (t', done) = upsert_alert now node value threshold severity message t in
      IsUnique t'.rows
      × (count (unacked_for node aqi) t'.rows ≡ 1)
      × (strongest node aqi t'.rows ≡ max (strongest node aqi t.rows) (rank severity))
      × (done ≡ (
          (count (unacked_for node aqi) t.rows == 0)
          || ltb (strongest node aqi t.rows) (rank severity)))
unfolding upsert_alert
upsert_alert_effect now node value threshold severity message t u =
    let new = offered t.next_id now node value threshold severity message in
    let own = upsert_own new t.rows refl (u node aqi) in
    (upsert_rows-IsUnique new t.rows refl u, own.0, own.1, own.2)

-- An upsert leaves the number and the severity of the unacknowledged alerts of every other node or
-- parameter as they were.
pub upsert_alert_others :
    (now node : ℕ) (value threshold : Number) (severity : Severity) (message : List ℕ) (t : Alerts)
    (n : ℕ) (p : Parameter)
    → (node ≢ n) ⊎ (aqi ≢ p)
    → let t' = (upsert_alert now node value threshold severity message t).0 in
      (count (unacked_for n p) t'.rows ≡ count (unacked_for n p) t.rows)
      × (strongest n p t'.rows ≡ strongest n p t.rows)
unfolding upsert_alert
upsert_alert_others now node value threshold severity message t n p differ =
    let new = offered t.next_id now node value threshold severity message in
    elim (key_cases new n p refl) [
      | inl other_key ↦ upsert_other new t.rows n p other_key refl
      | inr (en, ep) ↦ elim differ [ inl h ↦ absurd (h en) | inr h ↦ absurd (h ep) ]
    ]
