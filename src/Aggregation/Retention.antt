-- ===== src/Aggregation/Retention.antt =====
-- The clean-up tasks of tasks/aggregation.py: `data_retention_cleanup`, `refresh_token_cleanup` and
-- `password_reset_token_cleanup`. Times are milliseconds. `parse` is Python's `float` of a text, with
-- `none` for its ValueError.
use empyrean_v2_backend.Base.{
  ℕ, suc, ◌+◌, ◌*◌, ◌/◌, ◌==◌, Bool, true, false, ◌&&◌, ◌||◌, not, List, [], ◌∷◌, Option, none,
  some, ltb, keep, count, map, if◌then◌else◌, Result, ok, err, ◌>>=◌, String,
}
use empyrean_v2_backend.Base.Int.{ℤ, pos, negsuc, sub_ℕ}
use empyrean_v2_backend.Base.Number.{Number, finite, nan, inf, neg_inf}
use empyrean_v2_backend.Alerts.Check.{Settings, get}
use empyrean_v2_backend.Pipeline.Enrich.{Reading}
use empyrean_v2_backend.Aggregation.Rollup.{HourlyAgg, day}
use empyrean_v2_backend.Tokens.Store.{RefreshToken, PasswordResetToken, Db}
use empyrean_v2_backend.Tokens.Reset.{is_unused}

-- A name or an address: one that its owner chose, or `deleted-user-<id>`. No chosen address ends in
-- `@deleted.invalid`, which is no deliverable domain.
pub data Handle : Type 0 where
  chosen : ℕ → Handle
  deleted_user : ℕ → Handle

-- The columns of `users` that the clean-up reads or writes. No hash is "!", a hash that no password
-- has; no preferences are `{}`.
pub record Account : Type 0 where
  pub id : ℕ
  pub username : Handle
  pub email : Handle
  pub password_hash : Option ℕ
  pub notification_prefs : Option ℕ
  pub last_login_at : Option ℕ
  pub is_active : Bool
  pub updated_at : ℕ

pub record Tables : Type 0 where
  pub readings : List Reading
  pub hourly_agg : List HourlyAgg
  pub users : List Account

pub record Counts : Type 0 where
  pub deleted : ℕ
  pub hourly_buckets_deleted : ℕ
  pub users_anonymised : ℕ

-- The exception that no handler catches: `int` of an infinite float.
pub data Failure : Type 0 where
  overflow_error : Failure

-- `int` of a float, towards zero; `none` is the ValueError at NaN.
unfoldable pub int_of : Number → Result Failure (Option ℤ)
int_of (finite (pos n)) = ok (some (pos (n / 100)))
int_of (finite (negsuc n)) = ok (some (sub_ℕ 0 (suc n / 100)))
int_of nan = ok none
int_of inf = err overflow_error
int_of neg_inf = err overflow_error

abbrev or_config : ℤ → Option ℤ → ℤ
or_config config none = config
or_config config (some d) = d

-- `_retention_days`
unfoldable pub retention_days : (String → Option Number) → ℤ → Settings → Result Failure ℤ
retention_days parse config settings = elim (get "data_retention_days" settings) [
  | none ↦ ok config
  | some raw ↦ elim (parse raw) [
    | none ↦ ok config
    | some x ↦ int_of x >>= λ d. ok (or_config config d)
  ]
]

-- `t < now - days * interval '1 day'`
abbrev pub is_old : ℕ → ℕ → ℕ → Bool
is_old now days t = ltb (t + days * day) now

abbrev pub is_scrubbed : Handle → Bool
is_scrubbed (chosen _) = false
is_scrubbed (deleted_user _) = true

-- The condition of the UPDATE of users.
abbrev pub is_abandoned : ℕ → ℕ → Account → Bool
is_abandoned now days a =
    not a.is_active && (is_old now days a.updated_at && not (is_scrubbed a.email))

abbrev pub anonymise : Account → Account
anonymise a = record a {
  username = deleted_user a.id;
  email = deleted_user a.id;
  password_hash = none;
  notification_prefs = none;
  last_login_at = none;
}

abbrev pub anonymise_old : ℕ → ℕ → Account → Account
anonymise_old now days a = if is_abandoned now days a then anonymise a else a

abbrev pub young_reading : ℕ → ℕ → Reading → Bool
young_reading now days r = not (is_old now days r.time)

abbrev pub young_hour : ℕ → ℕ → HourlyAgg → Bool
young_hour now days h = not (is_old now days h.bucket)

-- The three statements, for a positive number of days.
unfoldable pub purge : ℕ → ℕ → Tables → Tables × Counts
purge now days t = (
  record {
    readings = keep (young_reading now days) t.readings;
    hourly_agg = keep (young_hour now days) t.hourly_agg;
    users = map (anonymise_old now days) t.users;
  },
  record {
    deleted = count (λ r. not (young_reading now days r)) t.readings;
    hourly_buckets_deleted = count (λ h. not (young_hour now days h)) t.hourly_agg;
    users_anonymised = count (is_abandoned now days) t.users;
  },
)

abbrev pub nothing : Counts
nothing = record { deleted = 0; hourly_buckets_deleted = 0; users_anonymised = 0 }

-- The purge for the number of days that was resolved; it refuses zero and less.
unfoldable pub purge_after : ℕ → ℤ → Tables → Tables × Counts
purge_after now (pos days) t = if days == 0 then (t, nothing) else purge now days t
purge_after now (negsuc days) t = (t, nothing)

abbrev pub is_positive : ℤ → Bool
is_positive (pos n) = not (n == 0)
is_positive (negsuc n) = false

-- `data_retention_cleanup`
unfoldable pub data_retention_cleanup :
    (String → Option Number) → ℕ → ℤ → Settings → Tables → Result Failure (Tables × Counts)
data_retention_cleanup parse now config settings t =
    if is_positive config
    then (retention_days parse config settings >>= λ days. ok (purge_after now days t))
    else ok (t, nothing)

abbrev pub token_retention : ℕ
token_retention = 10

abbrev pub token_grace_days : ℕ
token_grace_days = 30

abbrev pub is_expired : ℕ → RefreshToken → Bool
is_expired now t = ltb t.expires_at now

abbrev pub is_expired_of : ℕ → ℕ → RefreshToken → Bool
is_expired_of now id t = (t.user_id == id) && is_expired now t

-- The condition of the DELETE, for a row that stands before younger ones: its ROW_NUMBER is one more
-- than the number of its user's expired tokens among these.
abbrev pub is_deleted : ℕ → RefreshToken → List RefreshToken → Bool
is_deleted now t younger =
    is_expired now t
    && (ltb token_retention (suc (count (is_expired_of now t.user_id) younger))
        || ltb (t.expires_at + token_grace_days * day) now)

-- `refresh_token_cleanup` on rows in the order of their creation.
unfoldable pub refresh_token_cleanup : ℕ → List RefreshToken → List RefreshToken
refresh_token_cleanup now [] = []
refresh_token_cleanup now (t ∷ ts) =
    let rest = refresh_token_cleanup now ts in if is_deleted now t ts then rest else t ∷ rest

abbrev pub is_redeemable : ℕ → PasswordResetToken → Bool
is_redeemable now t = is_unused t && not (ltb t.expires_at now)

-- `password_reset_token_cleanup`
unfoldable pub password_reset_token_cleanup : ℕ → Db → Db
password_reset_token_cleanup now db = record db {
  reset_tokens = keep (is_redeemable now) db.reset_tokens;
}
