-- ===== src/Export/Csv.antt =====
-- The CSV text of api/export.py, with Python's csv.writer as the file uses it (comma, QUOTE_MINIMAL,
-- "\r\n"). A text is its code points. A value stands for itself, with the `str` of a number or a
-- text, and the printed time, ready made.
use Prim.Native.Char.{code}
use Prim.Native.String.{String}
use empyrean_v2_backend.Base.{
  ℕ, ◌*◌, ◌-◌, ◌==◌, Bool, true, false, ◌||◌, List, [], ◌∷◌, ◌++◌, Option, none, some, map, leb,
  ltb, if◌then◌else◌, length,
}

abbrev pub Text : Type 0
Text = List ℕ

abbrev pub code_points : String → Text
code_points String.[] = []
code_points (String.◌∷◌ c s) = code c ∷ code_points s

-- A column's value: NULL, a flag, or the `str` of anything else.
pub data Value : Type 0 where
  null : Value
  flag : Bool → Value
  printed : Text → Value

-- The columns of SensorReading that are exported; `time` is its ISO text in UTC.
pub record SensorReading : Type 0 where
  pub time : Option Text
  pub node_id : Value
  pub temperature : Value
  pub humidity : Value
  pub pressure : Value
  pub voc_ohm : Value
  pub mq135_ppm : Value
  pub pm1 : Value
  pub pm25 : Value
  pub pm10 : Value
  pub battery_v : Value
  pub fuzzy_score : Value
  pub aqi : Value
  pub aqi_category : Value
  pub is_anomaly : Value

-- `_format_cell`
unfoldable pub format_cell : Value → Text
format_cell null = []
format_cell (flag true) = code_points "true"
format_cell (flag false) = code_points "false"
format_cell (printed s) = s

unfoldable pub format_time : Option Text → Text
format_time none = []
format_time (some s) = s

-- `_format_row`
unfoldable pub format_row : SensorReading → List Text
format_row r =
    format_time r.time
    ∷ map format_cell (
        r.node_id
        ∷ (r.temperature
            ∷ (r.humidity
                ∷ (r.pressure
                    ∷ (r.voc_ohm
                        ∷ (r.mq135_ppm
                            ∷ (r.pm1
                                ∷ (r.pm25
                                    ∷ (r.pm10
                                        ∷ (r.battery_v
                                            ∷ (r.fuzzy_score
                                                ∷ (r.aqi
                                                    ∷ (r.aqi_category
                                                        ∷ (r.is_anomaly ∷ []))))))))))))))

abbrev pub comma : ℕ
comma = 44

abbrev pub quote : ℕ
quote = 34

abbrev pub cr : ℕ
cr = 13

abbrev pub lf : ℕ
lf = 10

-- The characters for which csv.writer puts a cell in quotes.
abbrev pub is_special : ℕ → Bool
is_special c = (c == comma) || ((c == quote) || ((c == cr) || (c == lf)))

unfoldable pub needs_quotes : Text → Bool
needs_quotes [] = false
needs_quotes (c ∷ s) = is_special c || needs_quotes s

-- Each quote is doubled.
unfoldable pub escape : Text → Text
escape [] = []
escape (c ∷ s) = if c == quote then quote ∷ (quote ∷ escape s) else c ∷ escape s

unfoldable pub write_cell : Text → Text
write_cell s = if needs_quotes s then quote ∷ (escape s ++ (quote ∷ [])) else s

unfoldable pub join_cells : List Text → Text
join_cells [] = []
join_cells (s ∷ []) = write_cell s
join_cells (s ∷ t ∷ ts) = write_cell s ++ (comma ∷ join_cells (t ∷ ts))

-- `writer.writerow`. A row of one empty cell is written as "", to tell it from an empty row.
unfoldable pub writerow : List Text → Text
writerow ([] ∷ []) = quote ∷ (quote ∷ (cr ∷ (lf ∷ [])))
writerow [] = cr ∷ (lf ∷ [])
writerow ((c ∷ s) ∷ []) = join_cells ((c ∷ s) ∷ []) ++ (cr ∷ (lf ∷ []))
writerow (s ∷ t ∷ ts) = join_cells (s ∷ t ∷ ts) ++ (cr ∷ (lf ∷ []))

-- `_CSV_COLUMNS`
abbrev pub csv_columns : List Text
csv_columns = map code_points (
    "time"
    ∷ ("node_id"
        ∷ ("temperature"
            ∷ ("humidity"
                ∷ ("pressure"
                    ∷ ("voc_ohm"
                        ∷ ("mq135_ppm"
                            ∷ ("pm1"
                                ∷ ("pm25"
                                    ∷ ("pm10"
                                        ∷ ("battery_v"
                                            ∷ ("fuzzy_score"
                                                ∷ ("aqi"
                                                    ∷ ("aqi_category"
                                                        ∷ ("is_anomaly" ∷ [])))))))))))))))

-- `_CSV_HEADER`
unfoldable pub csv_header : Text
csv_header = writerow csv_columns

-- `_TRUNCATED_SENTINEL`
abbrev pub truncated_sentinel : Text
truncated_sentinel =
    code_points "# TRUNCATED: export exceeded the server timeout — data is INCOMPLETE"

-- A row of the stream, with the clock's reading when it arrives, in milliseconds.
pub record Arrival : Type 0 where
  pub at : ℕ
  pub row : SensorReading

abbrev pub chunk_bytes : ℕ
chunk_bytes = 65536

unfoldable pub is_late : ℕ → ℕ → Arrival → Bool
is_late timeout_s start a = ltb (timeout_s * 1000) (a.at - start)

-- What the buffer holds after a row, and the chunk that this row completes.
unfoldable pub flush : Text → List Text × Text
flush out = if leb chunk_bytes (length out) then (out ∷ [], []) else ([], out)

-- The loop of `_csv_chunks`, with what the buffer holds.
unfoldable pub csv_chunks_from : ℕ → ℕ → List Arrival → Text → List Text
csv_chunks_from timeout_s start [] [] = []
csv_chunks_from timeout_s start [] (c ∷ out) = (c ∷ out) ∷ []
csv_chunks_from timeout_s start (a ∷ rows) out =
    let next = flush (out ++ writerow (format_row a.row)) in
    let rest = csv_chunks_from timeout_s start rows next.1 in
    if is_late timeout_s start a
    then out ∷ (writerow (truncated_sentinel ∷ []) ∷ [])
    else next.0 ++ rest

-- `_csv_chunks`: the chunks that it yields.
unfoldable pub csv_chunks : ℕ → ℕ → List Arrival → List Text
csv_chunks timeout_s start rows = csv_chunks_from timeout_s start rows csv_header
