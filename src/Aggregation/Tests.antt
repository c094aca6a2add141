-- ===== src/Aggregation/Tests.antt =====
-- Tests of the periodic tasks, and their theorems at concrete tables.
use empyrean_v2_backend.Base.{
  ℕ, ◌+◌, ◌≤◌, ◌≡◌, refl, arith, Bool, true, false, not, List, [], ◌∷◌, Option, none, some, length,
  keep, count, find, All, Result, ok, String, ltb,
}
use empyrean_v2_backend.Base.Int.{pos}
use empyrean_v2_backend.Base.Number.{Number, finite}
use empyrean_v2_backend.Alerts.Check.{get}
use empyrean_v2_backend.Pipeline.Enrich.{Reading}
use empyrean_v2_backend.Tokens.Store.{RefreshToken, Db}
use empyrean_v2_backend.Tokens.Reset.{reset_password}
use empyrean_v2_backend.Aggregation.Rollup.{
  is_row, row_of, group_by, upsert, upsert_each, earliest_hour, watermark_of, start_of, roll_up,
  hourly_aggregate, day,
}
use empyrean_v2_backend.Base.{◌*◌, ◌≤◌}
use empyrean_v2_backend.Aggregation.Windows.{IsAligned}
use empyrean_v2_backend.Aggregation.Coverage.{hourly_aggregate_covers}
use empyrean_v2_backend.Aggregation.Idempotent.{hourly_aggregate_idempotent}
use empyrean_v2_backend.Aggregation.Retention.{
  Account, chosen, Failure, Tables, Counts, retention_days, int_of, data_retention_cleanup,
  is_expired, is_expired_of, refresh_token_cleanup, password_reset_token_cleanup,
}
use empyrean_v2_backend.Aggregation.Purge.{AreCleared, active, data_retention_cleanup_keeps}
use empyrean_v2_backend.Aggregation.Sweep.{
  IsInGrace, refresh_token_cleanup_bounds, reset_password-cleanup,
}

abbrev reading : ℕ → ℕ → Reading
reading t n = record {
  time = t;
  node_id = n;
  temperature = some (pos 2100);
  humidity = none;
  pressure = none;
  voc_ohm = none;
  mq135_ppm = none;
  pm1 = none;
  pm25 = some (pos 900);
  pm10 = none;
  battery_v = none;
  fuzzy_score = 0;
  rating = none;
  is_anomaly = false;
}

-- Two readings of one hour, one of the next, and one of the hour that is not over.
abbrev readings : List Reading
readings = reading 3600000 1 ∷ reading 3700000 1 ∷ reading 7300000 2 ∷ reading 10800000 1 ∷ []

rolled_up : (hourly_aggregate 10900000 readings []).1 ≡ 2
unfolding hourly_aggregate roll_up earliest_hour watermark_of start_of group_by upsert_each upsert
    row_of
rolled_up = refl

hourly_aggregate_covers_example :
    let after = (hourly_aggregate 10900000 readings []).0 in
    IsAligned after × (find (is_row 3600000 1) after ≡ some (row_of readings 3600000 1))
unfolding watermark_of
hourly_aggregate_covers_example = hourly_aggregate_covers 10900000 readings [] 3600000 1 tt

hourly_aggregate_idempotent_example :
    let once = (hourly_aggregate 10900000 readings []).0 in
    find (is_row 3600000 1) (hourly_aggregate 10900000 readings once).0
    ≡ find (is_row 3600000 1) once
hourly_aggregate_idempotent_example = hourly_aggregate_idempotent 10900000 readings [] 3600000 1 tt

abbrev gone : Account
gone = record {
  id = 8;
  username = chosen 1;
  email = chosen 2;
  password_hash = some 3;
  notification_prefs = none;
  last_login_at = none;
  is_active = false;
  updated_at = 5;
}

abbrev tables : Tables
tables = record { readings = readings; hourly_agg = []; users = gone ∷ [] }

abbrev parse : String → Option Number
parse s = some (finite (pos 250))

-- "2.5" days are two.
two_days : retention_days parse (pos 365) (("data_retention_days", "2.5") ∷ []) ≡ ok (pos 2)
unfolding retention_days get int_of
two_days = refl

abbrev late : Reading → Bool
late r = not (ltb r.time 7200000)

late_is_young : (r : Reading) → late r ≡ true → 172800000 + 7200000 ≤ r.time + 2 * day
late_is_young r h = ground arith

abbrev purged : Result Failure (Tables × Counts)
purged =
    data_retention_cleanup parse (172800000 + 7200000) (pos 365)
      (("data_retention_days", "2.5") ∷ []) tables

data_retention_cleanup_keeps_example :
    (t' : Tables) × (c : Counts) × (purged ≡ ok (t', c))
    × All (λ r. 172800000 + 7200000 ≤ r.time + 2 * day) t'.readings
    × (count late t'.readings ≡ count late readings)
    × (length t'.readings + c.deleted ≡ length readings)
    × All (λ h. 172800000 + 7200000 ≤ h.bucket + 2 * day) t'.hourly_agg
    × (count (λ h. false) t'.hourly_agg ≡ 0)
    × AreCleared (172800000 + 7200000) 2 tables.users t'.users
    × (keep active t'.users ≡ [])
data_retention_cleanup_keeps_example =
    data_retention_cleanup_keeps parse (172800000 + 7200000) 2 (pos 365)
      (("data_retention_days", "2.5") ∷ []) tables late (λ h. false) refl two_days (ground arith)
      late_is_young (λ h e. absurd (ground arith))

abbrev token : ℕ → RefreshToken
token at = record { user_id = 4; token_hash = at; expires_at = at; revoked = false }

abbrev is_live : RefreshToken → Bool
is_live t = not (is_expired 2592000100 t)

live_is_live : (t : RefreshToken) → is_live t ≡ true → is_expired 2592000100 t ≡ false
live_is_live t h = ground arith

-- The first token has been expired for more than thirty days.
swept :
    refresh_token_cleanup 2592000100 (token 50 ∷ token 200 ∷ token 2592000200 ∷ [])
    ≡ token 200 ∷ token 2592000200 ∷ []
unfolding refresh_token_cleanup
swept = refl

refresh_token_cleanup_bounds_example :
    let left = refresh_token_cleanup 2592000100 (token 50 ∷ token 200 ∷ token 2592000200 ∷ []) in
    (keep is_live left ≡ token 2592000200 ∷ [])
    × (count (is_expired_of 2592000100 4) left ≤ 10)
    × All (IsInGrace 2592000100) left
refresh_token_cleanup_bounds_example =
    refresh_token_cleanup_bounds 2592000100 4 (token 50 ∷ token 200 ∷ token 2592000200 ∷ []) is_live
      live_is_live

abbrev db : Db
db = record {
  users = [];
  refresh_tokens = [];
  reset_tokens = (record { user_id = 4; token_hash = 70; expires_at = 900; used_at = none }) ∷ [];
  redis = record { up = true; blocklist = []; user_cache = [] };
  reuse_total = 0;
}

reset_password-cleanup_example :
    let after = reset_password (λ x. x) 1000 5 70 (password_reset_token_cleanup 950 db) in
    let before = reset_password (λ x. x) 1000 5 70 db in
    (after.1 ≡ before.1) × (after.0.users ≡ before.0.users)
reset_password-cleanup_example =
    reset_password-cleanup (λ x. x) 950 1000 5 70 db (omega arith) (omega arith)
