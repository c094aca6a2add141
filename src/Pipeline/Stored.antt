-- ===== src/Pipeline/Stored.antt =====
-- What `process_reading` stores (tasks/process_reading.py).
use empyrean_v2_backend.Base.{
  ℕ, ◌≤◌, ◌≡◌, refl, sym, subst, ◌∙◌, arith, Bool, true, false, List, [], ◌∷◌, ◌++◌, none, some,
  find, ok, err, ◌⊎◌, inl, inr, Bool-cases, Option-cases,
}
use empyrean_v2_backend.Pipeline.Enrich.{
  Payload, Reading, Failure, value_error, type_error, integrity_error, parse_time, detect_anomaly,
  build_reading,
}
use empyrean_v2_backend.Pipeline.Task.{
  Node, Plant, has_node_id, same_reading, store, process_reading,
}
use empyrean_v2_backend.Pipeline.Built.{
  IsSound, is_legible, value_of, reading_from, build_reading_cases,
}

-- The reasons to drop a payload: it names no node, or none that is known and active, or its node has a
-- reading of that time.
abbrev pub IsIdle : ℕ → Payload → Plant → ℕ → Type 0
IsIdle now payload p id =
    (find (has_node_id id) p.nodes ≡ none)
    ⊎ (((row : Node) × (find (has_node_id id) p.nodes ≡ some row) × (row.is_active ≡ false))
        ⊎ ((r : Reading) × (q : Reading) × (r.node_id ≡ id)
            × (r.time ≡ parse_time now payload.time)
            × (find (same_reading r) p.readings ≡ some q)))

abbrev pub IsDropped : ℕ → Payload → Plant → Type 0
IsDropped now payload p =
    (payload.node_id ≡ none) ⊎ ((id : ℕ) × (payload.node_id ≡ some id) × IsIdle now payload p id)

-- The row that the task makes of a legible payload.
abbrev flagged : ℕ → ℕ → Payload → Plant → ℕ → Reading
flagged now id payload p score = record (reading_from now id payload score) {
  is_anomaly = detect_anomaly now id (value_of payload.pm25) p.readings;
}

module _ (violates : Reading → Bool) (now : ℕ) (payload : Payload) (p : Plant) where
  process_reading_unnamed :
      payload.node_id ≡ none → process_reading violates now payload p ≡ (p, ok none)
  unfolding process_reading
  process_reading_unnamed e = rw (process_reading, e) refl

  module _ (id : ℕ) where
    process_reading_unknown :
        payload.node_id ≡ some id
        → find (has_node_id id) p.nodes ≡ none
        → process_reading violates now payload p ≡ (p, ok none)
    unfolding process_reading
    process_reading_unknown e f = rw (process_reading, e, f) refl

    process_reading_inactive :
        (row : Node)
        → payload.node_id ≡ some id
        → find (has_node_id id) p.nodes ≡ some row
        → row.is_active ≡ false
        → process_reading violates now payload p ≡ (p, ok none)
    unfolding process_reading
    process_reading_inactive row e f g = rw (process_reading, e, f, g) refl

    process_reading_illegible :
        (row : Node)
        → payload.node_id ≡ some id
        → find (has_node_id id) p.nodes ≡ some row
        → row.is_active ≡ true
        → build_reading now id payload ≡ err value_error
        → process_reading violates now payload p ≡ (p, err value_error)
    unfolding process_reading
    process_reading_illegible row e f g b = rw (process_reading, e, f, g, b) refl

    process_reading_run :
        (row : Node) (score : ℕ)
        → payload.node_id ≡ some id
        → find (has_node_id id) p.nodes ≡ some row
        → row.is_active ≡ true
        → build_reading now id payload ≡ ok (reading_from now id payload score)
        → process_reading violates now payload p
          ≡ store violates now (flagged now id payload p score) p
    unfolding process_reading
    process_reading_run row score e f g b = rw (process_reading, e, f, g, b) refl

-- An active node that the payload names.
pub record IsMeant (payload : Payload) (p : Plant) (id : ℕ) : Type 0 where
  pub row : Node
  pub named : payload.node_id ≡ some id
  pub known : find (has_node_id id) p.nodes ≡ some row
  pub active : row.is_active ≡ true

-- The ways through the task: no active node, a payload that is not legible, or an insert.
process_reading_cases :
    (violates : Reading → Bool) (now : ℕ) (payload : Payload) (p : Plant)
    → ((process_reading violates now payload p ≡ (p, ok none)) × IsDropped now payload p)
      ⊎ ((id : ℕ) × IsMeant payload p id
          × (((is_legible payload ≡ false)
                × (process_reading violates now payload p ≡ (p, err value_error)))
              ⊎ ((score : ℕ) × (score ≤ 10000)
                  × (is_legible payload ≡ true)
                  × (process_reading violates now payload p
                      ≡ store violates now (flagged now id payload p score) p))))
process_reading_cases violates now payload p = elim (Option-cases payload.node_id) [
  | inl e ↦ inl (process_reading_unnamed violates now payload p e, inl e)
  | inr (id, e) ↦ elim (Option-cases (find (has_node_id id) p.nodes)) [
    | inl f ↦ inl (process_reading_unknown violates now payload p id e f, inr (id, e, inl f))
    | inr (row, f) ↦ elim (Bool-cases row.is_active) [
      | inr g ↦ inl (
        process_reading_inactive violates now payload p id row e f g,
        inr (id, e, inr (inl (row, f, g))),
      )
      | inl g ↦
          let meant : IsMeant payload p id = record {
            row = row;
            named = e;
            known = f;
            active = g;
          } in
          elim (build_reading_cases now id payload) [
            | inr (bad, b) ↦ inr (
              id,
              meant,
              inl (bad, process_reading_illegible violates now payload p id row e f g b),
            )
            | inl (good, (score, high, b)) ↦ inr (
              id,
              meant,
              inr (
                score,
                high,
                good,
                process_reading_run violates now payload p id row score e f g b,
              ),
            )
          ]
    ]
  ]
]

-- A reading that was stored: for an active node that a legible payload names, sound, with the numbers
-- of the payload, the only one of its time and node, and added to the table.
pub record IsStored (now : ℕ) (payload : Payload) (p p' : Plant) (r : Reading) : Type 0 where
  pub id : ℕ
  pub meant : IsMeant payload p id
  pub legible : is_legible payload ≡ true
  pub sound : IsSound now id r
  pub time : r.time ≡ parse_time now payload.time
  pub pm25 : r.pm25 ≡ value_of payload.pm25
  pub pm10 : r.pm10 ≡ value_of payload.pm10
  pub temperature : r.temperature ≡ value_of payload.temperature
  pub humidity : r.humidity ≡ value_of payload.humidity
  pub unseen : find (same_reading r) p.readings ≡ none
  pub added : p'.readings ≡ p.readings ++ (r ∷ [])
  pub nodes : p'.nodes ≡ p.nodes

-- Why the task raises: a text of the payload that `float` cannot read, or a row that breaks a
-- constraint.
abbrev pub IsRaised : (Reading → Bool) → ℕ → Payload → Plant → Failure → Type 0
IsRaised violates now payload p value_error =
    (id : ℕ) × IsMeant payload p id × (is_legible payload ≡ false)
IsRaised violates now payload p type_error = ⊥
IsRaised violates now payload p integrity_error =
    (id : ℕ) × (r : Reading) × IsMeant payload p id
    × IsSound now id r
    × (find (same_reading r) p.readings ≡ none)
    × (violates r ≡ true)

find-append :
    (q : Reading → Bool) (rs : List Reading) (r : Reading)
    → q r ≡ true
    → (x : Reading) × (find q (rs ++ (r ∷ [])) ≡ some x)
find-append q [] r h = (r, rw h refl)
find-append q (y ∷ rs) r h = elim (Bool-cases (q y)) [
  | inl e ↦ (y, rw e refl)
  | inr e ↦ let (x, f) = find-append q rs r h in (x, rw e f)
]

stored_again :
    (violates : Reading → Bool) (now : ℕ) (r : Reading) (p : Plant) (x : Reading)
    → find (same_reading r) p.readings ≡ some x
    → store violates now r p ≡ (p, ok none)
unfolding store
stored_again violates now r p x e = rw (store, e) refl

-- A reading that is delivered again, as Celery may do after a crash, changes nothing: once it is
-- stored, the task drops a payload whose time reads the same.
pub process_reading_once :
    (violates : Reading → Bool) (now later : ℕ) (payload : Payload) (p p' : Plant) (r : Reading)
    → IsStored now payload p p' r
    → parse_time later payload.time ≡ r.time
    → process_reading violates later payload p' ≡ (p', ok none)
process_reading_once violates now later payload p p' r stored same =
    elim (process_reading_cases violates later payload p') [
      | inl (done, _) ↦ done
      | inr (id, meant, inl (bad, _)) ↦ absurd (ground (arith, bad, stored.legible))
      | inr (id, meant, inr (score, high, good, run)) ↦
          let r' = flagged later id payload p' score in
          let ids : id ≡ stored.id = ground (arith, meant.named, stored.meant.named) in
          let hit : same_reading r' r ≡ true = ground (arith, ids, stored.sound.node, same) in
          let (x, found) = find-append (same_reading r') p.readings r hit in
          let there : find (same_reading r') p'.readings ≡ some x =
            subst (λ rs. find (same_reading r') rs ≡ some x) (sym stored.added) found in
          run ∙ stored_again violates later r' p' x there
    ]
