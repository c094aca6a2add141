-- ===== src/Admin/Update.antt =====
-- What a change of the settings keeps in order (api/admin.py, `update_settings`).
use empyrean_v2_backend.Base.{
  ℕ, ◌≡◌, refl, ap, subst, ◌∙◌, arith, true, false, [], ◌∷◌, Option, none, some, if◌then◌else◌,
  String, str_eq, eq_iff, ok, inl, inr, ◌⊎◌, Bool-cases,
}
use empyrean_v2_backend.Base.Int.{ℤ, pos, leb_ℤ}
use empyrean_v2_backend.Alerts.Check.{Settings, get}
use empyrean_v2_backend.Admin.Settings.{
  Field, unset, null, supplied, AdminSettingsUpdate, Tables, Config, is_empty, has_null, text_of,
  put, write, write_all, stored_int, merged_int, current_settings, load_settings, is_inverted,
  transaction, update_settings,
}

pub get-put :
    (j k v : String) (m : Settings) → get j (put k v m) ≡ (if str_eq k j then some v else get j m)
unfolding get put
get-put j k v [] = refl
get-put j k v ((i, w) ∷ m) = ground (arith, eq_iff k j, eq_iff i k, eq_iff i j, get-put j k v m)

pub get-write :
    (admin : ℕ) (before : Settings) (j k : String) (o : Option String) (t : Tables)
    → get j (write admin before k o t).settings ≡ elim o [
      | none ↦ get j t.settings
      | some v ↦ if str_eq k j then some v else get j t.settings
    ]
unfolding write
get-write admin before j k none t = refl
get-write admin before j k (some v) t = get-put j k v t.settings

get-write_ne :
    (admin : ℕ) (before : Settings) (j k : String) (o : Option String) (t : Tables)
    → str_eq k j ≡ false
    → get j (write admin before k o t).settings ≡ get j t.settings
get-write_ne admin before j k none t e = get-write admin before j k none t
get-write_ne admin before j k (some v) t e = get-write admin before j k (some v) t ∙ rw e refl

-- What is under a key after a write to it.
abbrev or_else : Option String → Option String → Option String
or_else none old = old
or_else (some v) old = some v

get-write_self :
    (admin : ℕ) (before : Settings) (k : String) (o : Option String) (t : Tables)
    → str_eq k k ≡ true
    → get k (write admin before k o t).settings ≡ or_else o (get k t.settings)
get-write_self admin before k none t e = get-write admin before k k none t
get-write_self admin before k (some v) t e = get-write admin before k k (some v) t ∙ rw e refl

module _ (str_of : ℕ → String) (admin : ℕ) (before : Settings) (p : AdminSettingsUpdate)
    (t : Tables) where
  pub warning-write_all :
      get "aqi_warning_threshold" (write_all str_of admin before p t).settings
      ≡ or_else (text_of str_of p.aqi_warning_threshold) (get "aqi_warning_threshold" t.settings)
  unfolding write_all
  warning-write_all =
      get-write_ne admin before "aqi_warning_threshold" "alert_email" _ _ refl
      ∙ (get-write_ne admin before "aqi_warning_threshold" "alerts_enabled" _ _ refl
          ∙ (get-write_ne admin before "aqi_warning_threshold" "data_retention_days" _ _ refl
              ∙ (get-write_ne admin before "aqi_warning_threshold" "aqi_critical_threshold" _ _ refl
                  ∙ get-write_self admin before "aqi_warning_threshold" _ t refl)))

  pub critical-write_all :
      get "aqi_critical_threshold" (write_all str_of admin before p t).settings
      ≡ or_else (text_of str_of p.aqi_critical_threshold) (get "aqi_critical_threshold" t.settings)
  unfolding write_all
  critical-write_all =
      get-write_ne admin before "aqi_critical_threshold" "alert_email" _ _ refl
      ∙ (get-write_ne admin before "aqi_critical_threshold" "alerts_enabled" _ _ refl
          ∙ (get-write_ne admin before "aqi_critical_threshold" "data_retention_days" _ _ refl
              ∙ (get-write_self admin before "aqi_critical_threshold" _ _ refl
                  ∙ ap (or_else (text_of str_of p.aqi_critical_threshold)) (
                      get-write_ne admin before "aqi_critical_threshold" "aqi_warning_threshold" _ t
                        refl))))

-- The merged number of a key is the one that is stored after the write.
merged-stored :
    (str_of : ℕ → String) (int_of : String → Option ℤ) (key : String) (fallback : ℕ) (f : Field ℕ)
    (s s' : Settings)
    → ((n : ℕ) → int_of (str_of n) ≡ some (pos n))
    → get key s' ≡ or_else (text_of str_of f) (get key s)
    → stored_int int_of key fallback s' ≡ merged_int int_of key fallback f s
unfolding stored_int merged_int
merged-stored str_of int_of key fallback unset s s' round e = rw (stored_int, e) refl
merged-stored str_of int_of key fallback null s s' round e = rw (stored_int, e) refl
merged-stored str_of int_of key fallback (supplied n) s s' round e =
    rw (stored_int, e, round n) refl

-- What the request makes of the table: nothing, or the writes of a body whose merged pair is in
-- order in the rows that it locked.
pub update_cases :
    (str_of : ℕ → String) (int_of : String → Option ℤ) (cfg : Config) (admin : ℕ)
    (p : AdminSettingsUpdate) (seen locked : Settings) (t t' : Tables)
    → update_settings str_of int_of cfg admin p seen locked t ≡ ok t'
    → (t ≡ t')
      ⊎ ((is_inverted int_of cfg p locked ≡ false) × (write_all str_of admin locked p t ≡ t'))
unfolding update_settings transaction
update_cases str_of int_of cfg admin p seen locked t t' h = elim (Bool-cases (is_empty p)) [
  | inl e ↦ inl (ground (arith, e, h))
  | inr e ↦ elim (Bool-cases (has_null p)) [
    | inl n ↦ absurd (ground (arith, e, n, h))
    | inr n ↦
        elim (Bool-cases
          (is_inverted int_of cfg p (current_settings (load_settings str_of cfg seen)))) [
            | inl i ↦ absurd (ground (arith, e, n, i, h))
            | inr i ↦ elim (Bool-cases (is_inverted int_of cfg p locked)) [
              | inl k ↦ absurd (ground (arith, e, n, i, k, h))
              | inr k ↦ inr (k, ground (arith, e, n, i, k, h))
            ]
          ]
  ]
]

module _ (str_of : ℕ → String) (int_of : String → Option ℤ) (cfg : Config) where
  abbrev warning_of : Settings → ℤ
  warning_of = stored_int int_of "aqi_warning_threshold" cfg.aqi_warning_threshold

  abbrev critical_of : Settings → ℤ
  critical_of = stored_int int_of "aqi_critical_threshold" cfg.aqi_critical_threshold

  -- The pair after the writes is the merged pair, where the thresholds are still what was locked.
  pub inverted-write_all :
      (admin : ℕ) (locked : Settings) (p : AdminSettingsUpdate) (t : Tables)
      → ((n : ℕ) → int_of (str_of n) ≡ some (pos n))
      → get "aqi_warning_threshold" t.settings ≡ get "aqi_warning_threshold" locked
      → get "aqi_critical_threshold" t.settings ≡ get "aqi_critical_threshold" locked
      → let s' = (write_all str_of admin locked p t).settings in
        leb_ℤ (critical_of s') (warning_of s') ≡ is_inverted int_of cfg p locked
  unfolding is_inverted
  inverted-write_all admin locked p t round w c =
      let after = (write_all str_of admin locked p t).settings in
      let critical =
        merged-stored str_of int_of "aqi_critical_threshold" cfg.aqi_critical_threshold
          p.aqi_critical_threshold locked after round
          (critical-write_all str_of admin locked p t
            ∙ ap (or_else (text_of str_of p.aqi_critical_threshold)) c) in
      let warning =
        merged-stored str_of int_of "aqi_warning_threshold" cfg.aqi_warning_threshold
          p.aqi_warning_threshold locked after round
          (warning-write_all str_of admin locked p t
            ∙ ap (or_else (text_of str_of p.aqi_warning_threshold)) w) in
      λ i. leb_ℤ (critical i) (warning i)

-- Where `int` reads what `str` writes, and the two thresholds are, when the transaction writes, what
-- they were when it tested them, as the lock ensures for those that are stored: a change that is
-- accepted leaves the table as it was, or leaves the warning threshold below the critical one, each
-- taken from the table or else from the configuration, whatever the request had read before its
-- transaction.
pub update_settings_ordered :
    (str_of : ℕ → String) (int_of : String → Option ℤ) (cfg : Config) (admin : ℕ)
    (p : AdminSettingsUpdate) (seen locked : Settings) (t t' : Tables)
    → ((n : ℕ) → int_of (str_of n) ≡ some (pos n))
    → get "aqi_warning_threshold" t.settings ≡ get "aqi_warning_threshold" locked
    → get "aqi_critical_threshold" t.settings ≡ get "aqi_critical_threshold" locked
    → update_settings str_of int_of cfg admin p seen locked t ≡ ok t'
    → (t ≡ t')
      ⊎ (leb_ℤ
            (stored_int int_of "aqi_critical_threshold" cfg.aqi_critical_threshold t'.settings)
            (stored_int int_of "aqi_warning_threshold" cfg.aqi_warning_threshold t'.settings)
          ≡ false)
update_settings_ordered str_of int_of cfg admin p seen locked t t' round w c h =
    elim (update_cases str_of int_of cfg admin p seen locked t t' h) [
      | inl same ↦ inl same
      | inr (ordered, written) ↦ inr (
          subst
            (λ (u : Tables).
              leb_ℤ (critical_of str_of int_of cfg u.settings)
                (warning_of str_of int_of cfg u.settings)
              ≡ false)
            written (inverted-write_all str_of int_of cfg admin locked p t round w c ∙ ordered))
    ]
