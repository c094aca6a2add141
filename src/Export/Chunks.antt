-- ===== src/Export/Chunks.antt =====
-- What the chunks of an export add up to, and how large they are (api/export.py, `_csv_chunks`).
use mathlib.Core.List.{append_assoc}
use empyrean_v2_backend.Base.{
  ℕ, ◌+◌, ◌≤◌, ◌<◌, ◌≡◌, refl, sym, ap, ◌∙◌, arith, List, [], ◌∷◌, ◌++◌, leb, if◌then◌else◌, length,
  length-append, All, All-append, Bool-cases, append_nil, inl, inr,
}
use empyrean_v2_backend.Export.Csv.{
  Text, format_row, writerow, csv_header, truncated_sentinel, Arrival, chunk_bytes, is_late, flush,
  csv_chunks_from, csv_chunks, join_cells, write_cell, needs_quotes,
}

abbrev pub concat : List Text → Text
concat [] = []
concat (s ∷ ss) = s ++ concat ss

-- The lines of the rows that arrive in time, up to the first late one, and then the sentinel if
-- there is a late one.
abbrev pub body_of : ℕ → ℕ → List Arrival → Text
body_of timeout_s start [] = []
body_of timeout_s start (a ∷ rows) =
    if is_late timeout_s start a
    then writerow (truncated_sentinel ∷ [])
    else writerow (format_row a.row) ++ body_of timeout_s start rows

concat-append : (xs ys : List Text) → concat (xs ++ ys) ≡ concat xs ++ concat ys
concat-append [] ys = refl
concat-append (x ∷ xs) ys =
    ap (λ s. x ++ s) (concat-append xs ys) ∙ sym (append_assoc x (concat xs) (concat ys))

-- No character is lost or doubled by a flush.
flush_keeps : (out : Text) → concat (flush out).0 ++ (flush out).1 ≡ out
unfolding flush
flush_keeps out = elim (Bool-cases (leb chunk_bytes (length out))) [
  | inl e ↦ rw e (append_nil (out ++ []) ∙ append_nil out)
  | inr e ↦ rw e refl
]

csv_chunks_from_content :
    (timeout_s start : ℕ) (rows : List Arrival) (out : Text)
    → concat (csv_chunks_from timeout_s start rows out) ≡ out ++ body_of timeout_s start rows
unfolding csv_chunks_from
csv_chunks_from_content timeout_s start [] [] = refl
csv_chunks_from_content timeout_s start [] (c ∷ out) = refl
csv_chunks_from_content timeout_s start (a ∷ rows) out =
    let line = writerow (format_row a.row) in
    let next = flush (out ++ line) in
    let rest = csv_chunks_from timeout_s start rows next.1 in
    elim (Bool-cases (is_late timeout_s start a)) [
      | inl e ↦ rw e (ap (λ s. out ++ s) (append_nil (writerow (truncated_sentinel ∷ []))))
      | inr e ↦ rw e (
          concat-append next.0 rest
          ∙ ap (λ s. concat next.0 ++ s) (csv_chunks_from_content timeout_s start rows next.1)
          ∙ sym (append_assoc (concat next.0) next.1 (body_of timeout_s start rows))
          ∙ ap (λ s. s ++ body_of timeout_s start rows) (flush_keeps (out ++ line))
          ∙ append_assoc out line (body_of timeout_s start rows))
    ]

-- The chunks add up to the header and, in order, the line of every row up to the first that arrives
-- after the timeout; there the sentinel line ends the text, and nowhere else is there one.
pub csv_chunks_content :
    (timeout_s start : ℕ) (rows : List Arrival)
    → concat (csv_chunks timeout_s start rows) ≡ csv_header ++ body_of timeout_s start rows
unfolding csv_chunks
csv_chunks_content timeout_s start rows = csv_chunks_from_content timeout_s start rows csv_header

flush_bounds :
    (m : ℕ) (out : Text)
    → length out < chunk_bytes + m
    → All (λ c. length c < chunk_bytes + m) (flush out).0 × (length (flush out).1 < chunk_bytes)
unfolding flush
flush_bounds m out h = elim (Bool-cases (leb chunk_bytes (length out))) [
  | inl e ↦ rw e ((h, tt), omega arith)
  | inr e ↦ rw e (tt, ground (arith, e))
]

sentinel_fits : (m : ℕ) → length (writerow (truncated_sentinel ∷ [])) < chunk_bytes + m
unfolding writerow join_cells write_cell needs_quotes
sentinel_fits m = omega arith

header_fits : length csv_header < chunk_bytes
unfolding csv_header writerow join_cells write_cell needs_quotes
header_fits = omega arith

csv_chunks_from_bounds :
    (timeout_s start m : ℕ) (rows : List Arrival) (out : Text)
    → All (λ a. length (writerow (format_row a.row)) ≤ m) rows
    → length out < chunk_bytes
    → All (λ c. length c < chunk_bytes + m) (csv_chunks_from timeout_s start rows out)
unfolding csv_chunks_from
csv_chunks_from_bounds timeout_s start m [] [] fits h = tt
csv_chunks_from_bounds timeout_s start m [] (c ∷ out) fits h = (omega arith, tt)
csv_chunks_from_bounds timeout_s start m (a ∷ rows) out (fit, fits) h =
    let line = writerow (format_row a.row) in
    let long : length (out ++ line) < chunk_bytes + m =
      ground (arith, length-append out line, fit, h) in
    let next = flush_bounds m (out ++ line) long in
    elim (Bool-cases (is_late timeout_s start a)) [
      | inl e ↦ rw e (omega arith, (sentinel_fits m, tt))
      | inr e ↦ rw e (
          All-append (λ (c : Text). length c < chunk_bytes + m) (flush (out ++ line)).0 _ next.0
            (csv_chunks_from_bounds timeout_s start m rows (flush (out ++ line)).1 fits next.1))
    ]

-- Where no line is longer than `m`, no chunk has 65,536 characters and `m` more.
pub csv_chunks_bounds :
    (timeout_s start m : ℕ) (rows : List Arrival)
    → All (λ a. length (writerow (format_row a.row)) ≤ m) rows
    → All (λ c. length c < chunk_bytes + m) (csv_chunks timeout_s start rows)
unfolding csv_chunks
csv_chunks_bounds timeout_s start m rows fits =
    csv_chunks_from_bounds timeout_s start m rows csv_header fits header_fits
