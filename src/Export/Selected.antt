-- ===== src/Export/Selected.antt =====
-- What an accepted export holds (api/export.py, `export` and `_stream_rows`).
use empyrean_v2_backend.Base.{
  ℕ, ◌+◌, ◌-◌, ◌<◌, ◌≤◌, ◌≡◌, Bool, List, [], ◌∷◌, Option, none, some, ◌&&◌, leb, Result, ok, err,
  keep, count,
}
use empyrean_v2_backend.Export.Csv.{Text, csv_columns}
use empyrean_v2_backend.Export.Chunks.{concat}
use empyrean_v2_backend.Export.Reader.{read_csv, records_of}
use empyrean_v2_backend.Export.Route.{
  Config, Row, Request, Problem, same_text, max_export_span, arrivals,
}

-- No row is older than the one before it.
abbrev pub IsChronological : List Row → Type 0
IsChronological [] = Unit
IsChronological (r ∷ []) = Unit
IsChronological (r ∷ s ∷ rows) = (r.time ≤ s.time) × IsChronological (s ∷ rows)

-- The first row is not older than a given one.
abbrev Starts : Row → List Row → Type 0
Starts s [] = Unit
Starts s (r ∷ rows) = s.time ≤ r.time

-- A bound of the request: what its text parses to, or else the default.
abbrev pub IsAsked : (Text → Option ℕ) → Option Text → ℕ → ℕ → Type 0
IsAsked parse none default bound = bound ≡ default
IsAsked parse (some text) default bound = parse text ≡ some bound

-- A row that is asked for: in the range, both ends included, and of the node, if one is named.
abbrev pub is_asked : ℕ → ℕ → Option Text → Row → Bool
is_asked from_dt to_dt none r = leb from_dt r.time && leb r.time to_dt
is_asked from_dt to_dt (some node_id) r =
    (leb from_dt r.time && leb r.time to_dt) && same_text node_id r.node_id

-- The arguments that are accepted.
abbrev Fits : (Text → Option ℕ) → Request → Result Problem (ℕ × ℕ × Option Text) → Type 0
Fits parse q (err e) = Unit
Fits parse q (ok (from_dt, to_dt, node_id)) =
    (from_dt < to_dt)
    × (to_dt ≤ from_dt + max_export_span)
    × IsAsked parse q.from_arg (q.now - 86400000) from_dt
    × IsAsked parse q.to_arg q.now to_dt
    × (node_id ≡ q.node_arg)

-- What an accepted request sends, where the bounds and the node are those that it asks for.
abbrev pub Sent :
    (Text → Option ℕ) → (Text → Text → Bool) → Config → List Row → Request → List Text → Type 0
Sent parse le cfg table q chunks =
    (from_dt : ℕ) × (to_dt : ℕ) × (rows : List Row) × IsAsked parse q.from_arg (q.now - 86400000)
      from_dt
    × IsAsked parse q.to_arg q.now to_dt
    × (from_dt < to_dt)
    × (to_dt ≤ from_dt + max_export_span)
    × ((p : Row → Bool) → count p rows ≡ count p (keep (is_asked from_dt to_dt q.node_arg) table))
    × IsChronological rows
    × (read_csv (concat chunks)
        ≡ some
            (csv_columns ∷ records_of cfg.export_timeout_seconds q.start (arrivals q.clock 0 rows)))

abbrev SentBy :
    (Text → Option ℕ)
    → (Text → Text → Bool)
    → Config
    → List Row
    → Request
    → Result Problem (List Text)
    → Type 0
SentBy parse le cfg table q (err e) = Unit
SentBy parse le cfg table q (ok chunks) = Sent parse le cfg table q chunks
