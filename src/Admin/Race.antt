-- ===== src/Admin/Race.antt =====
-- Two changes of the thresholds whose transactions lock no row, as none is stored yet
-- (api/admin.py, `update_settings`).
use empyrean_v2_backend.Base.{
  ℕ, ◌≡◌, refl, ap, arith, ◌∙◌, true, false, Option, none, some, leb, String, ok,
}
use empyrean_v2_backend.Base.Int.{ℤ, pos, leb_ℤ}
use empyrean_v2_backend.Alerts.Check.{Settings, get}
use empyrean_v2_backend.Admin.Settings.{
  unset, supplied, AdminSettingsUpdate, Tables, Config, write_all, stored_int, merged_int,
  is_inverted, is_empty, has_null, transaction, entry_of, config_fallback, load_settings,
  current_settings, update_settings,
}
use empyrean_v2_backend.Admin.Update.{warning-write_all, critical-write_all}

-- A body with the warning threshold alone.
abbrev pub warning_only : ℕ → AdminSettingsUpdate
warning_only n = record {
  aqi_warning_threshold = supplied n;
  aqi_critical_threshold = unset;
  data_retention_days = unset;
  alerts_enabled = unset;
  alert_email = unset;
}

-- A body with the critical threshold alone.
abbrev pub critical_only : ℕ → AdminSettingsUpdate
critical_only n = record {
  aqi_warning_threshold = unset;
  aqi_critical_threshold = supplied n;
  data_retention_days = unset;
  alerts_enabled = unset;
  alert_email = unset;
}

-- The test of a lone warning threshold.
is_inverted-warning :
    (int_of : String → Option ℤ) (cfg : Config) (s : Settings) (a c : ℕ)
    → stored_int int_of "aqi_critical_threshold" cfg.aqi_critical_threshold s ≡ pos c
    → is_inverted int_of cfg (warning_only a) s ≡ leb_ℤ (pos c) (pos a)
unfolding is_inverted merged_int
is_inverted-warning int_of cfg s a c e = λ i. leb_ℤ (e i) (pos a)

-- The test of a lone critical threshold.
is_inverted-critical :
    (int_of : String → Option ℤ) (cfg : Config) (s : Settings) (b w : ℕ)
    → stored_int int_of "aqi_warning_threshold" cfg.aqi_warning_threshold s ≡ pos w
    → is_inverted int_of cfg (critical_only b) s ≡ leb_ℤ (pos b) (pos w)
unfolding is_inverted merged_int
is_inverted-critical int_of cfg s b w e = λ i. leb_ℤ (pos b) (e i)

stored_int-none :
    (int_of : String → Option ℤ) (key : String) (fallback : ℕ) (s : Settings)
    → get key s ≡ none
    → stored_int int_of key fallback s ≡ pos fallback
unfolding stored_int
stored_int-none int_of key fallback s e = rw (stored_int, e) refl

stored_int-supplied :
    (str_of : ℕ → String) (int_of : String → Option ℤ) (key : String) (fallback n : ℕ)
    (s : Settings)
    → ((m : ℕ) → int_of (str_of m) ≡ some (pos m))
    → get key s ≡ some (str_of n)
    → stored_int int_of key fallback s ≡ pos n
unfolding stored_int
stored_int-supplied str_of int_of key fallback n s round e = rw (stored_int, e, round n) refl

module _ (str_of : ℕ → String) (cfg : Config) (s : Settings) where
  entry_of-none :
      (k : String) → get k s ≡ none → (entry_of str_of cfg s k).value ≡ config_fallback str_of cfg k
  unfolding entry_of
  entry_of-none k e = rw (entry_of, e) refl

  warning-loaded :
      get "aqi_warning_threshold" s ≡ none
      → get "aqi_warning_threshold" (current_settings (load_settings str_of cfg s))
        ≡ some (str_of cfg.aqi_warning_threshold)
  unfolding load_settings current_settings config_fallback get entry_of
  warning-loaded e = ap some (entry_of-none "aqi_warning_threshold" e)

  critical-loaded :
      get "aqi_critical_threshold" s ≡ none
      → get "aqi_critical_threshold" (current_settings (load_settings str_of cfg s))
        ≡ some (str_of cfg.aqi_critical_threshold)
  unfolding load_settings current_settings config_fallback get entry_of
  critical-loaded e = ap some (entry_of-none "aqi_critical_threshold" e)

-- A change whose two tests pass on the same rows is made, on the tables as they are by then.
update_settings-accepted :
    (str_of : ℕ → String) (int_of : String → Option ℤ) (cfg : Config) (admin : ℕ)
    (p : AdminSettingsUpdate) (seen : Settings) (t : Tables)
    → is_empty p ≡ false
    → has_null p ≡ false
    → is_inverted int_of cfg p (current_settings (load_settings str_of cfg seen)) ≡ false
    → is_inverted int_of cfg p seen ≡ false
    → update_settings str_of int_of cfg admin p seen seen t ≡ ok (write_all str_of admin seen p t)
unfolding update_settings transaction
update_settings-accepted str_of int_of cfg admin p seen t e n l i = ground (arith, e, n, l, i)

-- Where no threshold is stored, and so no row is locked, two transactions can both test the table
-- before either writes. Then a lone warning threshold and a lone critical one that are each in order
-- with the other's fallback are both accepted, the second on the table that the first has written;
-- where the warning is not below the critical one, the table has an inverted pair in the end.
pub settings_race :
    (str_of : ℕ → String) (int_of : String → Option ℤ) (cfg : Config) (admin other a b : ℕ)
    (t : Tables)
    → ((n : ℕ) → int_of (str_of n) ≡ some (pos n))
    → get "aqi_warning_threshold" t.settings ≡ none
    → get "aqi_critical_threshold" t.settings ≡ none
    → leb cfg.aqi_critical_threshold a ≡ false
    → leb b cfg.aqi_warning_threshold ≡ false
    → leb b a ≡ true
    → let first = write_all str_of admin t.settings (warning_only a) t in
      let both = write_all str_of other t.settings (critical_only b) first in
      (update_settings str_of int_of cfg admin (warning_only a) t.settings t.settings t ≡ ok first)
      × (update_settings str_of int_of cfg other (critical_only b) t.settings t.settings first
          ≡ ok both)
      × (leb_ℤ
            (stored_int int_of "aqi_critical_threshold" cfg.aqi_critical_threshold both.settings)
            (stored_int int_of "aqi_warning_threshold" cfg.aqi_warning_threshold both.settings)
          ≡ true)
unfolding is_empty has_null
settings_race str_of int_of cfg admin other a b t round w c warned criticised inverted =
    let first = write_all str_of admin t.settings (warning_only a) t in
    let both = write_all str_of other t.settings (critical_only b) first in
    let warning =
      stored_int-supplied str_of int_of "aqi_warning_threshold" cfg.aqi_warning_threshold a
        both.settings round
        (warning-write_all str_of other t.settings (critical_only b) first
          ∙ warning-write_all str_of admin t.settings (warning_only a) t) in
    let critical =
      stored_int-supplied str_of int_of "aqi_critical_threshold" cfg.aqi_critical_threshold b
        both.settings round (critical-write_all str_of other t.settings (critical_only b) first) in
    let fits-warning : (s : Settings)
        → stored_int int_of "aqi_critical_threshold" cfg.aqi_critical_threshold s
          ≡ pos cfg.aqi_critical_threshold
        → is_inverted int_of cfg (warning_only a) s ≡ false =
      λ s e.
        is_inverted-warning int_of cfg s a cfg.aqi_critical_threshold e ∙ ground (arith, warned) in
    let fits-critical : (s : Settings)
        → stored_int int_of "aqi_warning_threshold" cfg.aqi_warning_threshold s
          ≡ pos cfg.aqi_warning_threshold
        → is_inverted int_of cfg (critical_only b) s ≡ false =
      λ s e.
        is_inverted-critical int_of cfg s b cfg.aqi_warning_threshold e
        ∙ ground (arith, criticised) in
    (
      update_settings-accepted str_of int_of cfg admin (warning_only a) t.settings t refl refl
          (fits-warning _ (
            stored_int-supplied str_of int_of _ _ cfg.aqi_critical_threshold _ round
              (critical-loaded str_of cfg t.settings c)))
          (fits-warning t.settings (stored_int-none int_of _ _ t.settings c)),
      update_settings-accepted str_of int_of cfg other (critical_only b) t.settings first refl refl
          (fits-critical _ (
            stored_int-supplied str_of int_of _ _ cfg.aqi_warning_threshold _ round
              (warning-loaded str_of cfg t.settings w)))
          (fits-critical t.settings (stored_int-none int_of _ _ t.settings w)),
      (λ i. leb_ℤ (critical i) (warning i)) ∙ ground (arith, inverted),
    )
