-- ===== src/Admin/Audit.antt =====
-- What a change of the settings records (api/admin.py, `update_settings`).
use empyrean_v2_backend.Base.{
  ℕ, ◌≡◌, refl, sym, ap, subst, ◌∙◌, true, List, [], ◌∷◌, ◌++◌, Option, none, some, String, str_eq,
  eq_iff, ok, inl, inr, ◌⊎◌, Bool-cases, append_nil,
}
use mathlib.Core.List.{append_assoc}
use empyrean_v2_backend.Base.Int.{ℤ}
use empyrean_v2_backend.Alerts.Check.{Settings, get}
use empyrean_v2_backend.Admin.Settings.{
  AdminSettingsUpdate, AuditLog, Tables, Config, put, write, write_all, update_settings,
}
use empyrean_v2_backend.Admin.Update.{get-put, update_cases}

-- One of the entries records, for a key, what it held before and holds now, and who changed it.
abbrev pub IsAudited : ℕ → String → Option String → Option String → List AuditLog → Type 0
IsAudited admin j old now [] = ⊥
IsAudited admin j old now (e ∷ es) =
    ((str_eq e.entity_id j ≡ true)
      × (e.old_value ≡ old)
      × (some e.new_value ≡ now)
      × (e.changed_by ≡ admin))
    ⊎ IsAudited admin j old now es

-- From one table to another, the log grows by entries that record what changed under a key, with the
-- value of the rows that were locked as the old one.
abbrev pub Trail : ℕ → String → Settings → Tables → Tables → Type 0
Trail admin j locked t t' =
    (new : List AuditLog) × (t'.audit_logs ≡ t.audit_logs ++ new)
    × ((get j t'.settings ≡ get j t.settings)
        ⊎ IsAudited admin j (get j locked) (get j t'.settings) new)

IsAudited-append :
    (admin : ℕ) (j : String) (old now : Option String) (es fs : List AuditLog)
    → IsAudited admin j old now es
    → IsAudited admin j old now (es ++ fs)
IsAudited-append admin j old now [] fs h = absurd h
IsAudited-append admin j old now (e ∷ es) fs (inl h) = inl h
IsAudited-append admin j old now (e ∷ es) fs (inr h) =
    inr (IsAudited-append admin j old now es fs h)

IsAudited-last :
    (admin : ℕ) (j : String) (old now : Option String) (e : AuditLog) (es : List AuditLog)
    → str_eq e.entity_id j ≡ true
    → e.old_value ≡ old
    → some e.new_value ≡ now
    → e.changed_by ≡ admin
    → IsAudited admin j old now (es ++ (e ∷ []))
IsAudited-last admin j old now e [] a b c d = inl (a, b, c, d)
IsAudited-last admin j old now e (x ∷ es) a b c d =
    inr (IsAudited-last admin j old now e es a b c d)

Trail-write :
    (admin : ℕ) (j k : String) (o : Option String) (locked : Settings) (t u : Tables)
    → Trail admin j locked t u
    → Trail admin j locked t (write admin locked k o u)
unfolding write
Trail-write admin j k none locked t u h = h
Trail-write admin j k (some v) locked t u (new, logs, case_) =
    let e : AuditLog = record {
      entity_id = k;
      old_value = get k locked;
      new_value = v;
      changed_by = admin;
    } in
    let there = get-put j k v u.settings in
    let now = get j (put k v u.settings) in
    (
      new ++ (e ∷ []),
      ap (λ l. l ++ (e ∷ [])) logs ∙ append_assoc t.audit_logs new (e ∷ []),
      elim (Bool-cases (str_eq k j)) [
        | inl same ↦
            let k≡j : k ≡ j = (eq_iff k j).0 same in
            inr (
              IsAudited-last admin j (get j locked) now e new same (ap (λ x. get x locked) k≡j)
                (sym (there ∙ rw same refl)) refl)
        | inr other ↦
            let kept : now ≡ get j u.settings = there ∙ rw other refl in
            elim case_ [
              | inl unchanged ↦ inl (kept ∙ unchanged)
              | inr audited ↦ inr (
                  subst (λ x. IsAudited admin j (get j locked) x (new ++ (e ∷ []))) (sym kept)
                    (IsAudited-append admin j (get j locked) (get j u.settings) new (e ∷ [])
                      audited))
            ]
      ],
    )

Trail-write_all :
    (str_of : ℕ → String) (admin : ℕ) (j : String) (p : AdminSettingsUpdate) (locked : Settings)
    (t : Tables)
    → Trail admin j locked t (write_all str_of admin locked p t)
unfolding write_all
Trail-write_all str_of admin j p locked t = Trail-write admin j "alert_email" _ locked t _ (
    Trail-write admin j "alerts_enabled" _ locked t _ (
      Trail-write admin j "data_retention_days" _ locked t _ (
        Trail-write admin j "aqi_critical_threshold" _ locked t _ (
          Trail-write admin j "aqi_warning_threshold" _ locked t t
            ([], sym (append_nil t.audit_logs), inl refl)))))

-- An accepted change leaves a trail: the log grows at its end, and for every key whose value is not
-- what it was, an entry of the new ones names the key, its value in the rows that the transaction
-- locked, its new value, and the administrator.
pub update_settings-IsAudited :
    (str_of : ℕ → String) (int_of : String → Option ℤ) (cfg : Config) (admin : ℕ)
    (p : AdminSettingsUpdate) (seen locked : Settings) (t t' : Tables) (j : String)
    → update_settings str_of int_of cfg admin p seen locked t ≡ ok t'
    → (new : List AuditLog) × (t'.audit_logs ≡ t.audit_logs ++ new)
      × ((get j t'.settings ≡ get j t.settings)
          ⊎ IsAudited admin j (get j locked) (get j t'.settings) new)
update_settings-IsAudited str_of int_of cfg admin p seen locked t t' j h =
    elim (update_cases str_of int_of cfg admin p seen locked t t' h) [
      | inl same ↦ subst (Trail admin j locked t) same ([], sym (append_nil t.audit_logs), inl refl)
      | inr (ordered, written) ↦
          subst (Trail admin j locked t) written (Trail-write_all str_of admin j p locked t)
    ]
