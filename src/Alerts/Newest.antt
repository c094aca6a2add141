-- ===== src/Alerts/Newest.antt =====
-- The newest fresh reading of a node is among the rows of a run (tasks/alerts.py, the query of
-- `check_thresholds`).
use empyrean_v2_backend.Base.{
  ℕ, ◌+◌, ◌≤◌, ◌<◌, ◌≡◌, ◌≢◌, ◌⊎◌, refl, arith, true, false, List, [], ◌∷◌, ◌++◌, none, some, ltb,
  All, Bool-cases, Option-cases, inl, inr,
}
use empyrean_v2_backend.Base.Int.{ℤ}
use empyrean_v2_backend.Alerts.Check.{
  Node, Reading, Row, is_fresh, newest, row_of, latest_rows, aqi_recency,
}

-- A reading that does not stand in the way: it is of another node, has no AQI, or is older.
abbrev pub IsOutdone : Reading → Reading → Type 0
IsOutdone r q = (q.node_id ≢ r.node_id) ⊎ ((q.aqi ≡ none) ⊎ (q.time < r.time))

module _ (now : ℕ) (r : Reading) (a : ℤ) where
  fresh_lem : r.aqi ≡ some a → now ≤ r.time + aqi_recency → is_fresh now r.node_id r ≡ true
  unfolding is_fresh
  fresh_lem e h = ground (arith, e, h)

  outdone_lem : (q : Reading) → IsOutdone r q → is_fresh now r.node_id q ≡ true → q.time < r.time
  unfolding is_fresh
  outdone_lem q (inl other) f = absurd (ground (arith, other, f))
  outdone_lem q (inr (inl missing)) f = absurd (ground (arith, missing, f))
  outdone_lem q (inr (inr older)) f = older

  -- None of them is newer than the reading.
  newest_outdone :
      (qs : List Reading)
      → All (IsOutdone r) qs
      → (newest now r.node_id qs ≡ none)
        ⊎ ((q : Reading) × (newest now r.node_id qs ≡ some q) × (q.time < r.time))
  unfolding newest
  newest_outdone [] h = inl refl
  newest_outdone (x ∷ qs) (first, h) = elim (Bool-cases (is_fresh now r.node_id x)) [
    | inr f ↦ rw f (newest_outdone qs h)
    | inl f ↦
        let older = outdone_lem x first f in
        elim (newest_outdone qs h) [
          | inl e ↦ inr (x, rw (f, e) refl, older)
          | inr (q, e, k) ↦ elim (Bool-cases (ltb x.time q.time)) [
            | inl b ↦ inr (q, rw (f, e, b) refl, k)
            | inr b ↦ inr (x, rw (f, e, b) refl, older)
          ]
        ]
  ]

  newest_here :
      (qs : List Reading)
      → r.aqi ≡ some a
      → now ≤ r.time + aqi_recency
      → All (IsOutdone r) qs
      → newest now r.node_id (r ∷ qs) ≡ some r
  unfolding newest
  newest_here qs e h outdone =
      let f = fresh_lem e h in
      elim (newest_outdone qs outdone) [
        | inl none_left ↦ rw (f, none_left) refl
        | inr (q, found, older) ↦
            let no : ltb r.time q.time ≡ false = ground (arith, older) in rw (f, found, no) refl
      ]

  pub newest_lem :
      (before after : List Reading)
      → r.aqi ≡ some a
      → now ≤ r.time + aqi_recency
      → All (IsOutdone r) before
      → All (IsOutdone r) after
      → newest now r.node_id (before ++ (r ∷ after)) ≡ some r
  unfolding newest
  newest_lem [] after e h outdone later = newest_here after e h later
  newest_lem (x ∷ before) after e h (first, outdone) later =
      let rest = newest_lem before after e h outdone later in
      elim (Bool-cases (is_fresh now r.node_id x)) [
        | inr f ↦ rw f rest
        | inl f ↦
            let older : ltb x.time r.time ≡ true = ground (arith, outdone_lem x first f) in
            rw (f, rest, older) refl
      ]

-- What holds of all rows holds of the row of an active node.
pub All-latest_rows :
    (P : Row → Type 0) (now : ℕ) (before after : List Node) (n : Node) (readings : List Reading)
    (r : Reading)
    → n.is_active ≡ true
    → newest now n.node_id readings ≡ some r
    → All P (latest_rows now (before ++ (n ∷ after)) readings)
    → P (row_of r)
unfolding latest_rows
All-latest_rows P now [] after n readings r on e h = (rw (on, e) at h).0
All-latest_rows P now (m ∷ before) after n readings r on e h = elim (Bool-cases m.is_active) [
  | inr off ↦ All-latest_rows P now before after n readings r on e (rw off at h)
  | inl up ↦ elim (Option-cases (newest now m.node_id readings)) [
    | inl f ↦ All-latest_rows P now before after n readings r on e (rw (up, f) at h)
    | inr (q, f) ↦ All-latest_rows P now before after n readings r on e (rw (up, f) at h).1
  ]
]
