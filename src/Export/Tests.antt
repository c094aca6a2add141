-- ===== src/Export/Tests.antt =====
-- Tests of the export, and its theorems at concrete tables.
use empyrean_v2_backend.Base.{
  ℕ, ◌+◌, ◌≡◌, refl, arith, Bool, true, false, List, [], ◌∷◌, Option, none, some, String, err,
}
use empyrean_v2_backend.Export.Csv.{
  Text, code_points, null, flag, printed, SensorReading, Arrival, format_row, format_cell,
  format_time, writerow, join_cells, write_cell, needs_quotes, escape,
}
use empyrean_v2_backend.Export.Route.{
  Config, Cooldowns, Row, Request, too_many_requests, ttl, check_export_cooldown, check_args,
  parse_or, export,
}
use empyrean_v2_backend.Access.Store.{set_entry}
use empyrean_v2_backend.Export.Cooldown.{is_ok, serve, export_once}

-- A reading of a node, with all else missing.
abbrev reading : String → SensorReading
reading node = record {
  time = some (code_points "2026-01-01T00:00:00Z");
  node_id = printed (code_points node);
  temperature = null;
  humidity = null;
  pressure = null;
  voc_ohm = null;
  mq135_ppm = null;
  pm1 = null;
  pm25 = null;
  pm10 = null;
  battery_v = null;
  fuzzy_score = null;
  aqi = null;
  aqi_category = null;
  is_anomaly = flag false;
}

cell_with_quote : write_cell (code_points "a\"b") ≡ code_points "\"a\"\"b\""
unfolding write_cell needs_quotes escape
cell_with_quote = refl

row_is_written :
    writerow (format_row (reading "n,1"))
    ≡ code_points "2026-01-01T00:00:00Z,\"n,1\",,,,,,,,,,,,,false\r\n"
unfolding writerow format_row format_time format_cell join_cells write_cell needs_quotes escape
row_is_written = refl

abbrev two_rows : List Arrival
two_rows =
    (record { at = 1000; row = reading "n,1" })
    ∷ ((record { at = 400000; row = reading "n2" }) ∷ [])

abbrev config : Config
config = record { export_timeout_seconds = 300; export_cooldown_seconds = 300 }

abbrev parse : Text → Option ℕ
parse s = none

abbrev le : Text → Text → Bool
le s t = true

abbrev table : List Row
table =
    (record { time = 90000000; node_id = code_points "n2"; reading = reading "n2" })
    ∷ ((record { time = 80000000; node_id = code_points "n1"; reading = reading "n1" })
        ∷ ((record { time = 5; node_id = code_points "n1"; reading = reading "n1" }) ∷ []))

-- The last day, of all nodes.
abbrev request : ℕ → ℕ → Request
request now user = record {
  now = now;
  user_id = user;
  from_arg = none;
  to_arg = none;
  node_arg = none;
  start = now;
  clock = λ n. now + n;
}

abbrev idle : Cooldowns
idle = record { up = true; claims = [] }

second_is_refused :
    (export parse le config table
      (request 100060000 7)
      (export parse le config table (request 100000000 7) idle).1).0
    ≡ err (too_many_requests 240)
unfolding export check_args parse_or check_export_cooldown ttl set_entry
second_is_refused = refl

export_once_example :
    is_ok
      (export parse le config table (request 100060000 7) (
        serve parse le config table
          (request 100001000 8 ∷ [])
          (export parse le config table (request 100000000 7) idle).1)).0
    ≡ false
unfolding export check_args parse_or check_export_cooldown ttl
export_once_example =
    export_once parse le config table (request 100000000 7) (request 100060000 7)
      (request 100001000 8 ∷ []) idle (omega arith) refl refl (omega arith, tt) refl (omega arith)
