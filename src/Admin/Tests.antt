-- ===== src/Admin/Tests.antt =====
-- Tests of the settings, and their theorems at concrete tables.
use Prim.Native.String.count
use Prim.Native.String.{◌∷◌ as char_then, count}
use empyrean_v2_backend.Base.{
  ℕ, zero, suc, ◌≡◌, refl, ap, ◌∙◌, true, false, List, [], ◌∷◌, ◌++◌, Option, none, some, String,
  ok, err, ◌⊎◌,
}
use empyrean_v2_backend.Base.Int.{ℤ, pos, leb_ℤ}
use empyrean_v2_backend.Alerts.Check.{get}
use empyrean_v2_backend.Admin.Settings.{
  unset, null, supplied, AuditLog, Tables, Config, explicit_null, thresholds_inverted, is_empty,
  has_null, put, write, write_all, stored_int, merged_int, is_inverted, transaction,
  update_settings, config_fallback, load_settings, current_settings, entry_of, extra_keys,
}
use empyrean_v2_backend.Admin.Update.{update_settings_ordered}
use empyrean_v2_backend.Admin.Audit.{IsAudited, update_settings-IsAudited}
use empyrean_v2_backend.Admin.Race.{warning_only, critical_only, settings_race}

-- Numbers as tallies, and the number that a tally counts.
abbrev str_of : ℕ → String
str_of zero = ""
str_of (suc n) = char_then "1" (str_of n)

abbrev int_of : String → Option ℤ
int_of s = some (pos (count s))

count-str_of : (n : ℕ) → count (str_of n) ≡ n
count-str_of zero = count.nil
count-str_of (suc n) = count.cons "1" (str_of n) ∙ ap suc (count-str_of n)

int_of-str_of : (n : ℕ) → int_of (str_of n) ≡ some (pos n)
int_of-str_of n = ap (λ k. some (pos k)) (count-str_of n)

abbrev config : Config
config = record {
  aqi_warning_threshold = 3;
  aqi_critical_threshold = 6;
  data_retention_days = 9;
  alert_email = "ops@example.org";
}

-- Nothing is stored.
abbrev fresh : Tables
fresh = record { settings = []; audit_logs = [] }

-- The critical threshold is 5.
abbrev stored : Tables
stored = record { settings = ("aqi_critical_threshold", "11111") ∷ []; audit_logs = [] }

abbrev changed : Tables
changed = record {
  settings = ("aqi_critical_threshold", "11111") ∷ (("aqi_warning_threshold", "1111") ∷ []);
  audit_logs =
      (record {
        entity_id = "aqi_warning_threshold";
        old_value = none;
        new_value = "1111";
        changed_by = 1;
      })
      ∷ [];
}

warning_is_changed :
    update_settings str_of int_of config 1 (warning_only 4) stored.settings stored.settings stored
    ≡ ok changed
unfolding update_settings is_empty has_null is_inverted merged_int stored_int transaction
    load_settings current_settings entry_of extra_keys config_fallback get write_all write put
warning_is_changed = refl

-- A lone threshold is tested against the stored one.
warning_is_refused :
    update_settings str_of int_of config 1 (warning_only 5) stored.settings stored.settings stored
    ≡ err thresholds_inverted
unfolding update_settings is_empty has_null is_inverted merged_int stored_int load_settings
    current_settings entry_of extra_keys config_fallback get
warning_is_refused = refl

null_is_refused :
    update_settings str_of int_of config 1
      (record {
        aqi_warning_threshold = unset;
        aqi_critical_threshold = supplied 9;
        data_retention_days = unset;
        alerts_enabled = null;
        alert_email = unset;
      })
      stored.settings
      stored.settings
      stored
    ≡ err explicit_null
unfolding update_settings is_empty has_null
null_is_refused = refl

settings_are_loaded :
    current_settings (load_settings str_of config (("site", "roof") ∷ stored.settings))
    ≡ ("aqi_warning_threshold", "111")
      ∷ (("aqi_critical_threshold", "11111")
          ∷ (("data_retention_days", str_of 9)
              ∷ (("alerts_enabled", "true")
                  ∷ (("alert_email", "ops@example.org") ∷ (("site", "roof") ∷ [])))))
unfolding load_settings current_settings entry_of extra_keys config_fallback get
settings_are_loaded = refl

update_settings_ordered_example :
    (stored ≡ changed)
    ⊎ (leb_ℤ
          (stored_int int_of "aqi_critical_threshold" 6 changed.settings)
          (stored_int int_of "aqi_warning_threshold" 3 changed.settings)
        ≡ false)
update_settings_ordered_example =
    update_settings_ordered str_of int_of config 1 (warning_only 4) stored.settings stored.settings
      stored changed int_of-str_of refl refl warning_is_changed

update_settings-IsAudited_example :
    (new : List AuditLog) × (changed.audit_logs ≡ [] ++ new)
    × ((get "aqi_warning_threshold" changed.settings ≡ get "aqi_warning_threshold" stored.settings)
        ⊎ IsAudited 1 "aqi_warning_threshold"
            (get "aqi_warning_threshold" stored.settings)
            (get "aqi_warning_threshold" changed.settings)
            new)
update_settings-IsAudited_example =
    update_settings-IsAudited str_of int_of config 1 (warning_only 4) stored.settings
      stored.settings stored changed "aqi_warning_threshold" warning_is_changed

settings_race_example :
    let first = write_all str_of 1 [] (warning_only 5) fresh in
    let both = write_all str_of 2 [] (critical_only 4) first in
    (update_settings str_of int_of config 1 (warning_only 5) [] [] fresh ≡ ok first)
    × (update_settings str_of int_of config 2 (critical_only 4) [] [] first ≡ ok both)
    × (leb_ℤ
          (stored_int int_of "aqi_critical_threshold" 6 both.settings)
          (stored_int int_of "aqi_warning_threshold" 3 both.settings)
        ≡ true)
unfolding get
settings_race_example =
    settings_race str_of int_of config 1 2 5 4 fresh int_of-str_of refl refl refl refl refl
