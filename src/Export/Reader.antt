-- ===== src/Export/Reader.antt =====
-- A reader of RFC 4180 texts, and that it reads what api/export.py writes.
use mathlib.Core.List.{append_assoc}
use empyrean_v2_backend.Base.{
  ℕ, ◌==◌, ◌≡◌, refl, sym, ap, subst, ◌∙◌, arith, false, ◌||◌, List, [], ◌∷◌, ◌++◌, Option, none,
  some, if◌then◌else◌, Bool-cases, append_nil, inl, inr,
}
use empyrean_v2_backend.Export.Csv.{
  Text, comma, quote, cr, lf, is_special, needs_quotes, escape, write_cell, join_cells, writerow,
  format_row, csv_columns, csv_header, truncated_sentinel, Arrival, is_late, csv_chunks,
}
use empyrean_v2_backend.Export.Chunks.{concat, body_of, csv_chunks_content}

abbrev pub Cells : Type 0
Cells = List Text

-- Where the reader is: before a cell, in a plain or a quoted one, behind a quote in a quoted one,
-- behind the CR of a record; or the text is malformed. It holds what it has read of the cell, of the
-- record, and of the table.
pub data State : Type 0 where
  before : Cells → List Cells → State
  plain quoted closing : Text → Cells → List Cells → State
  ending : Cells → List Cells → State
  broken : State

abbrev pub end_cell : ℕ → Text → Cells → List Cells → State → State
end_cell c cell row rows other =
    if c == comma
    then before (row ++ (cell ∷ [])) rows
    else if c == cr
    then ending (row ++ (cell ∷ [])) rows
    else other

unfoldable pub step : State → ℕ → State
step (before row rows) c =
    end_cell c [] row rows (
      if c == quote
      then quoted [] row rows
      else if c == lf
      then broken
      else plain (c ∷ []) row rows)
step (plain cell row rows) c =
    end_cell c cell row rows
      (if c == quote || (c == lf) then broken else plain (cell ++ (c ∷ [])) row rows)
step (quoted cell row rows) c =
    if c == quote then closing cell row rows else quoted (cell ++ (c ∷ [])) row rows
step (closing cell row rows) c =
    end_cell c cell row rows (if c == quote then quoted (cell ++ (quote ∷ [])) row rows else broken)
step (ending row rows) c = if c == lf then before [] (rows ++ (row ∷ [])) else broken
step broken c = broken

abbrev pub run : State → Text → State
run st [] = st
run st (c ∷ s) = run (step st c) s

abbrev pub table_of : State → Option (List Cells)
table_of (before [] rows) = some rows
table_of (before (cell ∷ row) rows) = none
table_of (plain _ _ _) = none
table_of (quoted _ _ _) = none
table_of (closing _ _ _) = none
table_of (ending _ _) = none
table_of broken = none

abbrev pub read_csv : Text → Option (List Cells)
read_csv s = table_of (run (before [] []) s)

run-append : (st : State) (s t : Text) → run st (s ++ t) ≡ run (run st s) t
run-append st [] t = refl
run-append st (c ∷ s) t = run-append (step st c) s t

step-plain :
    (cell : Text) (row : Cells) (rows : List Cells) (c : ℕ)
    → is_special c ≡ false
    → step (plain cell row rows) c ≡ plain (cell ++ (c ∷ [])) row rows
unfolding step
step-plain cell row rows c e = ground (arith, e)

run-plain :
    (cell : Text) (row : Cells) (rows : List Cells) (s : Text)
    → needs_quotes s ≡ false
    → run (plain cell row rows) s ≡ plain (cell ++ s) row rows
unfolding needs_quotes
run-plain cell row rows [] e = ap (λ x. plain x row rows) (sym (append_nil cell))
run-plain cell row rows (c ∷ s) e =
    ap (λ st. run st s) (step-plain cell row rows c (ground (arith, e)))
    ∙ run-plain (cell ++ (c ∷ [])) row rows s (ground (arith, e))
    ∙ ap (λ x. plain x row rows) (append_assoc cell (c ∷ []) s)

step-quoted :
    (cell : Text) (row : Cells) (rows : List Cells) (c : ℕ)
    → (c == quote) ≡ false
    → step (quoted cell row rows) c ≡ quoted (cell ++ (c ∷ [])) row rows
unfolding step
step-quoted cell row rows c e = rw e refl

run-quoted :
    (cell : Text) (row : Cells) (rows : List Cells) (s : Text)
    → run (quoted cell row rows) (escape s) ≡ quoted (cell ++ s) row rows
unfolding escape step
run-quoted cell row rows [] = ap (λ x. quoted x row rows) (sym (append_nil cell))
run-quoted cell row rows (c ∷ s) =
    let later =
      run-quoted (cell ++ (c ∷ [])) row rows s
      ∙ ap (λ x. quoted x row rows) (append_assoc cell (c ∷ []) s) in
    elim (Bool-cases (c == quote)) [
      | inl e ↦ rw e (
          subst
            (λ q.
              run (quoted (cell ++ (q ∷ [])) row rows) (escape s)
              ≡ quoted (cell ++ (c ∷ s)) row rows)
            (ground (arith, e)) later)
      | inr e ↦ rw e (ap (λ st. run st (escape s)) (step-quoted cell row rows c e) ∙ later)
    ]

-- A cell can end here, and it is `s`.
abbrev Ends : Text → Cells → List Cells → State → Type 0
Ends s row rows st =
    (step st comma ≡ before (row ++ (s ∷ [])) rows) × (step st cr ≡ ending (row ++ (s ∷ [])) rows)

step-before :
    (row : Cells) (rows : List Cells) (c : ℕ)
    → is_special c ≡ false
    → step (before row rows) c ≡ plain (c ∷ []) row rows
unfolding step
step-before row rows c e = ground (arith, e)

Ends-plain : (s : Text) (row : Cells) (rows : List Cells) → Ends s row rows (plain s row rows)
unfolding step
Ends-plain s row rows = (refl, refl)

Ends-closing : (s : Text) (row : Cells) (rows : List Cells) → Ends s row rows (closing s row rows)
unfolding step
Ends-closing s row rows = (refl, refl)

run-plain_cell :
    (s : Text) (row : Cells) (rows : List Cells)
    → needs_quotes s ≡ false
    → Ends s row rows (run (before row rows) s)
unfolding needs_quotes step
run-plain_cell [] row rows e = (refl, refl)
run-plain_cell (c ∷ s) row rows e =
    subst (Ends (c ∷ s) row rows)
      (sym (
        ap (λ st. run st s) (step-before row rows c (ground (arith, e)))
        ∙ run-plain (c ∷ []) row rows s (ground (arith, e))))
      (Ends-plain (c ∷ s) row rows)

run-quoted_cell :
    (s : Text) (row : Cells) (rows : List Cells)
    → Ends s row rows (run (before row rows) (quote ∷ (escape s ++ (quote ∷ []))))
unfolding step
run-quoted_cell s row rows =
    subst (Ends s row rows)
      (sym (
        run-append (quoted [] row rows) (escape s) (quote ∷ [])
        ∙ ap (λ st. step st quote) (run-quoted [] row rows s)))
      (Ends-closing s row rows)

run-write_cell :
    (s : Text) (row : Cells) (rows : List Cells)
    → Ends s row rows (run (before row rows) (write_cell s))
unfolding write_cell
run-write_cell s row rows = elim (Bool-cases (needs_quotes s)) [
  | inl e ↦ rw e (run-quoted_cell s row rows)
  | inr e ↦ rw e (run-plain_cell s row rows e)
]

run-join_cells :
    (s : Text) (ss row : Cells) (rows : List Cells)
    → step (run (before row rows) (join_cells (s ∷ ss))) cr ≡ ending (row ++ (s ∷ ss)) rows
unfolding join_cells
run-join_cells s [] row rows = (run-write_cell s row rows).1
run-join_cells s (t ∷ ts) row rows =
    ap (λ st. step st cr)
      (run-append (before row rows) (write_cell s) (comma ∷ join_cells (t ∷ ts))
        ∙ ap (λ st. run st (join_cells (t ∷ ts))) (run-write_cell s row rows).0)
    ∙ run-join_cells t ts (row ++ (s ∷ [])) rows
    ∙ ap (λ r. ending r rows) (append_assoc row (s ∷ []) (t ∷ ts))

-- The reader reads a written row.
run-joined :
    (s : Text) (ss : Cells) (rows : List Cells)
    → run (before [] rows) (join_cells (s ∷ ss) ++ (cr ∷ (lf ∷ [])))
      ≡ before [] (rows ++ ((s ∷ ss) ∷ []))
unfolding step
run-joined s ss rows =
    run-append (before [] rows) (join_cells (s ∷ ss)) (cr ∷ (lf ∷ []))
    ∙ ap (λ st. step st lf) (run-join_cells s ss [] rows)

run-writerow :
    (s : Text) (ss : Cells) (rows : List Cells)
    → run (before [] rows) (writerow (s ∷ ss)) ≡ before [] (rows ++ ((s ∷ ss) ∷ []))
unfolding writerow step
run-writerow [] [] rows = refl
run-writerow (c ∷ s) [] rows = run-joined (c ∷ s) [] rows
run-writerow s (t ∷ ts) rows = run-joined s (t ∷ ts) rows

-- The records of the rows that arrive in time, up to the first late one, and then the sentinel in a
-- cell of its own if there is a late one.
abbrev pub records_of : ℕ → ℕ → List Arrival → List Cells
records_of timeout_s start [] = []
records_of timeout_s start (a ∷ rows) =
    if is_late timeout_s start a
    then (truncated_sentinel ∷ []) ∷ []
    else format_row a.row ∷ records_of timeout_s start rows

run-body_of :
    (timeout_s start : ℕ) (rows : List Arrival) (done : List Cells)
    → run (before [] done) (body_of timeout_s start rows)
      ≡ before [] (done ++ records_of timeout_s start rows)
unfolding format_row
run-body_of timeout_s start [] done = ap (before []) (sym (append_nil done))
run-body_of timeout_s start (a ∷ rows) done = elim (Bool-cases (is_late timeout_s start a)) [
  | inl e ↦ rw e (run-writerow truncated_sentinel [] done)
  | inr e ↦
      let line = format_row a.row in
      rw e (
        run-append (before [] done) (writerow line) (body_of timeout_s start rows)
        ∙ ap (λ st. run st (body_of timeout_s start rows)) (run-writerow _ _ done)
        ∙ run-body_of timeout_s start rows (done ++ (line ∷ []))
        ∙ ap (before []) (append_assoc done (line ∷ []) (records_of timeout_s start rows)))
]

-- What is downloaded reads back, cell by cell and whatever the cells hold, as the column names, the
-- cells of every row that arrives in time, up to the first late one, and, just when there is a late
-- one, a last record of one cell, the sentinel.
pub csv_chunks_roundtrip :
    (timeout_s start : ℕ) (rows : List Arrival)
    → read_csv (concat (csv_chunks timeout_s start rows))
      ≡ some (csv_columns ∷ records_of timeout_s start rows)
unfolding csv_header
csv_chunks_roundtrip timeout_s start rows =
    ap read_csv (csv_chunks_content timeout_s start rows)
    ∙ ap table_of (
        run-append (before [] []) csv_header (body_of timeout_s start rows)
        ∙ ap (λ st. run st (body_of timeout_s start rows)) (run-writerow _ _ [])
        ∙ run-body_of timeout_s start rows (csv_columns ∷ []))
