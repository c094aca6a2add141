-- ===== src/Export/Route.antt =====
-- The export route (api/export.py, `export`) with its cooldown, its query and its stream. Times are
-- milliseconds. `parse` stands for `parse_iso_datetime` on a text that is given, with `none` for its
-- ValueError, and `le` for the order of the database on node ids.
use empyrean_v2_backend.Base.{
  ℕ, ◌+◌, ◌-◌, ◌*◌, ◌/◌, ◌==◌, max, Bool, true, false, ◌&&◌, ◌||◌, List, [], ◌∷◌, Option, none,
  some, ltb, leb, if◌then◌else◌, keep, Result, ok, err,
}
use empyrean_v2_backend.Access.Store.{Entry, set_entry}
use empyrean_v2_backend.Export.Csv.{Text, SensorReading, Arrival, csv_chunks}

pub record Config : Type 0 where
  pub export_timeout_seconds : ℕ
  pub export_cooldown_seconds : ℕ

-- The cooldown keys in Redis, by user.
pub record Cooldowns : Type 0 where
  pub up : Bool
  pub claims : List (Entry (Unit {0}))

-- A row of `sensor_readings`, with the columns of the query beside the text of all of them.
pub record Row : Type 0 where
  pub time : ℕ
  pub node_id : Text
  pub reading : SensorReading

-- `now` is the time of the request, `start` that at which its stream is begun, and `clock` tells when
-- the n-th row arrives.
pub record Request : Type 0 where
  pub now : ℕ
  pub user_id : ℕ
  pub from_arg : Option Text
  pub to_arg : Option Text
  pub node_arg : Option Text
  pub start : ℕ
  pub clock : ℕ → ℕ

-- 422 four times, and 429 with the seconds to wait.
pub data Problem : Type 0 where
  malformed_time empty_range range_too_wide blank_node_id : Problem
  too_many_requests : ℕ → Problem

-- The TTL command, in whole seconds, for a key that is there.
unfoldable pub ttl : ℕ → ℕ → List (Entry (Unit {0})) → Option ℕ
ttl now k [] = none
ttl now k (e ∷ es) =
    if e.key == k
    then (if ltb now e.until then some ((e.until - now + 500) / 1000) else none)
    else ttl now k es

-- `_check_export_cooldown`: SET NX and EXPIRE in one command.
unfoldable pub check_export_cooldown : Config → ℕ → ℕ → Cooldowns → Option ℕ × Cooldowns
check_export_cooldown cfg now user r =
    if leb cfg.export_cooldown_seconds 0
    then (none, r)
    else if r.up
    then (elim (ttl now user r.claims) [
      | some seconds ↦ (some (max seconds 1), r)
      | none ↦ (
        none,
        record r { claims = set_entry user tt (now + cfg.export_cooldown_seconds * 1000) r.claims },
      )
    ])
    else (none, r)

-- The characters that `str.strip` takes off.
abbrev pub is_space : ℕ → Bool
is_space c =
    (leb 9 c && leb c 13)
    || ((leb 28 c && leb c 32)
        || ((c == 133)
            || ((c == 160)
                || ((c == 5760)
                    || ((leb 8192 c && leb c 8202)
                        || ((c == 8232)
                            || ((c == 8233) || ((c == 8239) || ((c == 8287) || (c == 12288))))))))))

unfoldable pub is_blank : Text → Bool
is_blank [] = true
is_blank (c ∷ s) = is_space c && is_blank s

abbrev pub max_export_span : ℕ
max_export_span = 365 * 86400000

abbrev pub same_text : Text → Text → Bool
same_text [] [] = true
same_text [] (d ∷ t) = false
same_text (c ∷ s) [] = false
same_text (c ∷ s) (d ∷ t) = (c == d) && same_text s t

-- The conditions of the statement.
unfoldable pub is_selected : ℕ → ℕ → Option Text → Row → Bool
is_selected from_dt to_dt none r = leb from_dt r.time && leb r.time to_dt
is_selected from_dt to_dt (some node) r =
    leb from_dt r.time && (leb r.time to_dt && same_text r.node_id node)

-- ORDER BY time, node_id
unfoldable pub row_le : (Text → Text → Bool) → Row → Row → Bool
row_le le a b = ltb a.time b.time || ((a.time == b.time) && le a.node_id b.node_id)

unfoldable pub insert_row : (Text → Text → Bool) → Row → List Row → List Row
insert_row le r [] = r ∷ []
insert_row le r (s ∷ rows) = if row_le le r s then r ∷ (s ∷ rows) else s ∷ insert_row le r rows

unfoldable pub sort_rows : (Text → Text → Bool) → List Row → List Row
sort_rows le [] = []
sort_rows le (r ∷ rows) = insert_row le r (sort_rows le rows)

-- `_stream_rows`
unfoldable pub stream_rows : (Text → Text → Bool) → ℕ → ℕ → Option Text → List Row → List Row
stream_rows le from_dt to_dt node table = sort_rows le (keep (is_selected from_dt to_dt node) table)

unfoldable pub arrivals : (ℕ → ℕ) → ℕ → List Row → List Arrival
arrivals clock n [] = []
arrivals clock n (r ∷ rows) = record { at = clock n; row = r.reading } ∷ arrivals clock (n + 1) rows

-- `parse_iso_datetime`, with its default.
unfoldable pub parse_or : (Text → Option ℕ) → Option Text → ℕ → Option ℕ
parse_or parse none default = some default
parse_or parse (some s) default = parse s

-- The checks of the arguments, before the cooldown: the two bounds and the node.
unfoldable pub check_args : (Text → Option ℕ) → Request → Result Problem (ℕ × ℕ × Option Text)
check_args parse q = elim (parse_or parse q.from_arg (q.now - 86400000)) [
  | none ↦ err malformed_time
  | some from_dt ↦ elim (parse_or parse q.to_arg q.now) [
    | none ↦ err malformed_time
    | some to_dt ↦
        if leb to_dt from_dt
        then err empty_range
        else if ltb max_export_span (to_dt - from_dt)
        then err range_too_wide
        else (elim q.node_arg [
          | none ↦ ok (from_dt, to_dt, none)
          | some node ↦ if is_blank node then err blank_node_id else ok (from_dt, to_dt, some node)
        ])
  ]
]

-- `export`: the chunks of the response.
unfoldable pub export :
    (Text → Option ℕ)
    → (Text → Text → Bool)
    → Config
    → List Row
    → Request
    → Cooldowns
    → Result Problem (List Text) × Cooldowns
export parse le cfg table q r = elim (check_args parse q) [
  | err e ↦ (err e, r)
  | ok (from_dt, to_dt, node) ↦
      let checked = check_export_cooldown cfg q.now q.user_id r in
      elim checked.0 [
        | some seconds ↦ (err (too_many_requests seconds), checked.1)
        | none ↦ (
          ok (
              csv_chunks cfg.export_timeout_seconds q.start
                (arrivals q.clock 0 (stream_rows le from_dt to_dt node table))),
          checked.1,
        )
      ]
]
