-- ===== src/Admin/Settings.antt =====
-- The settings routes of api/admin.py (`get_settings`, `update_settings`), the body that they take
-- (api/schemas.py, `AdminSettingsUpdate`) and the audit log (models/setting.py). `str_of` stands for
-- `str` of an int, and `int_of` for `int` of a text, with `none` for its ValueError. The ranges and
-- the address are checked by pydantic before.
use empyrean_v2_backend.Base.{
  ℕ, Bool, true, false, ◌&&◌, ◌||◌, List, [], ◌∷◌, ◌++◌, Option, none, some, if◌then◌else◌, String,
  str_eq, map, Result, ok, err,
}
use empyrean_v2_backend.Base.Int.{ℤ, pos, leb_ℤ}
use empyrean_v2_backend.Alerts.Check.{Settings, get}

-- A member of the body: absent, null, or a value.
pub data Field {ℓ} (A : Type ℓ) : Type ℓ where
  unset null : Field A
  supplied : A → Field A

pub record AdminSettingsUpdate : Type 0 where
  pub aqi_warning_threshold : Field ℕ
  pub aqi_critical_threshold : Field ℕ
  pub data_retention_days : Field ℕ
  pub alerts_enabled : Field Bool
  pub alert_email : Field String

-- A row of `audit_logs` for a setting.
pub record AuditLog : Type 0 where
  pub entity_id : String
  pub old_value : Option String
  pub new_value : String
  pub changed_by : ℕ

pub record Tables : Type 0 where
  pub settings : Settings
  pub audit_logs : List AuditLog

-- The fallbacks of the configuration.
pub record Config : Type 0 where
  pub aqi_warning_threshold : ℕ
  pub aqi_critical_threshold : ℕ
  pub data_retention_days : ℕ
  pub alert_email : String

-- The two problem responses of the route, both 422, and the one of the schema.
pub data Problem : Type 0 where
  explicit_null thresholds_inverted : Problem

abbrev pub is_null {ℓ} : {A : Type ℓ} → Field A → Bool
is_null unset = false
is_null null = true
is_null (supplied _) = false

abbrev pub is_unset {ℓ} : {A : Type ℓ} → Field A → Bool
is_unset unset = true
is_unset null = false
is_unset (supplied _) = false

-- `updates` is empty
unfoldable pub is_empty : AdminSettingsUpdate → Bool
is_empty p =
    is_unset p.aqi_warning_threshold
    && (is_unset p.aqi_critical_threshold
        && (is_unset p.data_retention_days
            && (is_unset p.alerts_enabled && is_unset p.alert_email)))

-- `null_keys` is not empty
unfoldable pub has_null : AdminSettingsUpdate → Bool
has_null p =
    is_null p.aqi_warning_threshold
    || (is_null p.aqi_critical_threshold
        || (is_null p.data_retention_days || (is_null p.alerts_enabled || is_null p.alert_email)))

-- `_normalise` for each kind of value
abbrev pub of_bool : Bool → String
of_bool true = "true"
of_bool false = "false"

abbrev pub text_of {ℓ} : {A : Type ℓ} → (A → String) → Field A → Option String
text_of normalise unset = none
text_of normalise null = none
text_of normalise (supplied x) = some (normalise x)

-- INSERT … ON CONFLICT (key) DO UPDATE
unfoldable pub put : String → String → Settings → Settings
put k v [] = (k, v) ∷ []
put k v ((j, w) ∷ m) = if str_eq j k then (k, v) ∷ m else (j, w) ∷ put k v m

-- The writes for a key: the setting, and the audit row with the value that was there.
unfoldable pub write : ℕ → Settings → String → Option String → Tables → Tables
write admin before key none t = t
write admin before key (some text) t = record {
  settings = put key text t.settings;
  audit_logs =
      t.audit_logs
      ++ (record {
        entity_id = key;
        old_value = get key before;
        new_value = text;
        changed_by = admin;
      }
          ∷ []);
}

-- The loop over `updates`, in the order of the fields.
unfoldable pub write_all : (ℕ → String) → ℕ → Settings → AdminSettingsUpdate → Tables → Tables
write_all str_of admin before p t =
    write admin before "alert_email" (text_of (λ s. s) p.alert_email) (
      write admin before "alerts_enabled" (text_of of_bool p.alerts_enabled) (
        write admin before "data_retention_days" (text_of str_of p.data_retention_days) (
          write admin before "aqi_critical_threshold" (text_of str_of p.aqi_critical_threshold) (
            write admin before "aqi_warning_threshold" (text_of str_of p.aqi_warning_threshold)
              t))))

-- The keys of `_SETTING_DEFS`.
abbrev pub setting_defs : List String
setting_defs =
    "aqi_warning_threshold"
    ∷ ("aqi_critical_threshold"
        ∷ ("data_retention_days" ∷ ("alerts_enabled" ∷ ("alert_email" ∷ []))))

-- `_config_fallback`
unfoldable pub config_fallback : (ℕ → String) → Config → String → String
config_fallback str_of cfg key =
    if str_eq key "aqi_warning_threshold"
    then str_of cfg.aqi_warning_threshold
    else if str_eq key "aqi_critical_threshold"
    then str_of cfg.aqi_critical_threshold
    else if str_eq key "data_retention_days"
    then str_of cfg.data_retention_days
    else if str_eq key "alerts_enabled"
    then "true"
    else if str_eq key "alert_email"
    then cfg.alert_email
    else ""

-- An entry of the answer: a key, its value, and whether the source is "db".
pub record Entry : Type 0 where
  pub key : String
  pub value : String
  pub from_db : Bool

unfoldable pub entry_of : (ℕ → String) → Config → Settings → String → Entry
entry_of str_of cfg s k = record {
  key = k;
  value = elim (get k s) [ none ↦ config_fallback str_of cfg k | some v ↦ v ];
  from_db = elim (get k s) [ none ↦ false | some _ ↦ true ];
}

-- `key in keys`
abbrev contains : List String → String → Bool
contains [] k = false
contains (j ∷ js) k = str_eq j k || contains js k

-- The keys that only the table has.
unfoldable pub extra_keys : Settings → List String
extra_keys [] = []
extra_keys ((k, v) ∷ m) = if contains setting_defs k then extra_keys m else k ∷ extra_keys m

-- `_load_settings`
unfoldable pub load_settings : (ℕ → String) → Config → Settings → List Entry
load_settings str_of cfg s = map (entry_of str_of cfg s) (setting_defs ++ extra_keys s)

-- `current_settings`: the values by key.
unfoldable pub current_settings : List Entry → Settings
current_settings es = map (λ e. (e.key, e.value)) es

-- The number that a key has in the table, or the fallback.
unfoldable pub stored_int : (String → Option ℤ) → String → ℕ → Settings → ℤ
stored_int int_of key fallback s = elim (get key s) [
  | none ↦ pos fallback
  | some raw ↦ elim (int_of raw) [ none ↦ pos fallback | some x ↦ x ]
]

-- `_merged_int`
unfoldable pub merged_int : (String → Option ℤ) → String → ℕ → Field ℕ → Settings → ℤ
merged_int int_of key fallback (supplied n) s = pos n
merged_int int_of key fallback null s = stored_int int_of key fallback s
merged_int int_of key fallback unset s = stored_int int_of key fallback s

-- The test of the merged pair.
unfoldable pub is_inverted : (String → Option ℤ) → Config → AdminSettingsUpdate → Settings → Bool
is_inverted int_of cfg p s =
    leb_ℤ
      (merged_int int_of "aqi_critical_threshold" cfg.aqi_critical_threshold
        p.aqi_critical_threshold s)
      (merged_int int_of "aqi_warning_threshold" cfg.aqi_warning_threshold p.aqi_warning_threshold
        s)

-- The transaction: `locked` is what its SELECT … FOR UPDATE reads, where the pair is tested again, and
-- `t` the tables when it writes. The lock keeps the rows that it reads from changing until then; a key
-- with no row is not locked, so another transaction may have inserted it.
unfoldable pub transaction :
    (ℕ → String)
    → (String → Option ℤ)
    → Config
    → ℕ
    → AdminSettingsUpdate
    → Settings
    → Tables
    → Result Problem Tables
transaction str_of int_of cfg admin p locked t =
    if is_inverted int_of cfg p locked
    then err thresholds_inverted
    else ok (write_all str_of admin locked p t)

-- `update_settings`: `seen` is the table that its first test reads. A body with no member changes
-- nothing.
unfoldable pub update_settings :
    (ℕ → String)
    → (String → Option ℤ)
    → Config
    → ℕ
    → AdminSettingsUpdate
    → Settings
    → Settings
    → Tables
    → Result Problem Tables
update_settings str_of int_of cfg admin p seen locked t =
    if is_empty p
    then ok t
    else if has_null p
    then err explicit_null
    else if is_inverted int_of cfg p (current_settings (load_settings str_of cfg seen))
    then err thresholds_inverted
    else transaction str_of int_of cfg admin p locked t
