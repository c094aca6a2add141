-- ===== src/Fuzzy/Fires.antt =====
-- How many rules fire on a reading (fuzzy/tsukamoto.py, `infer`).
use empyrean_v2_backend.Base.{
  ℕ, ◌*◌, ◌≤◌, ◌≡◌, refl, inl, inr, false, not, List, [], ◌∷◌, length, length-append, count, arith,
  ◌==◌, Bool-cases,
}
use empyrean_v2_backend.Base.Int.{ℤ}
use empyrean_v2_backend.Fuzzy.Rules.{TempTerm, HumTerm, PmTerm, dry, humid, wet}
use empyrean_v2_backend.Fuzzy.Partition.{IsPartition, memberships-IsPartition}
use empyrean_v2_backend.Fuzzy.Tsukamoto.{
  mu_t, mu_h, mu_p, fire_pm, fire_hum, fire_temp, fired_rules,
}

-- The terms of an input that the loops of `infer` do not skip.
abbrev pub active {ℓ} : {T : Type ℓ} → List (T × ℕ) → ℕ
active = count (λ e. not (e.1 == 0))

length-fire_pm :
    (t : TempTerm × ℕ) (h : HumTerm × ℕ) (ps : List (PmTerm × ℕ))
    → (t.1 == 0) ≡ false
    → (h.1 == 0) ≡ false
    → length (fire_pm t h ps) ≡ active ps
unfolding fire_pm
length-fire_pm t h [] et eh = refl
length-fire_pm t h (p ∷ ps) et eh = ground (arith, length-fire_pm t h ps et eh)

length-fire_hum :
    (t : TempTerm × ℕ) (hs : List (HumTerm × ℕ)) (ps : List (PmTerm × ℕ))
    → (t.1 == 0) ≡ false
    → length (fire_hum t hs ps) ≡ active hs * active ps
unfolding fire_hum
length-fire_hum t [] ps et = omega arith
length-fire_hum t (h ∷ hs) ps et = elim (Bool-cases (h.1 == 0)) [
  | inl eh ↦ rw eh (omega (arith, length-fire_hum t hs ps et))
  | inr eh ↦ rw eh (
      omega (
        arith,
        length-append (fire_pm t h ps) (fire_hum t hs ps),
        length-fire_pm t h ps et eh,
        length-fire_hum t hs ps et,
      ))
]

length-fire_temp :
    (ts : List (TempTerm × ℕ)) (hs : List (HumTerm × ℕ)) (ps : List (PmTerm × ℕ))
    → length (fire_temp ts hs ps) ≡ active ts * (active hs * active ps)
unfolding fire_temp
length-fire_temp [] hs ps = omega arith
length-fire_temp (t ∷ ts) hs ps = elim (Bool-cases (t.1 == 0)) [
  | inl et ↦ rw et (omega (arith, length-fire_temp ts hs ps))
  | inr et ↦ rw et (
      omega (
        arith,
        length-append (fire_hum t hs ps) (fire_temp ts hs ps),
        length-fire_hum t hs ps et,
        length-fire_temp ts hs ps,
      ))
]

-- One term or two of an input have a grade above zero.
active_bounds :
    {T : Type 0} (a b c : T) {low mid high : ℕ}
    → IsPartition low mid high
    → let n = active ((a, low) ∷ (b, mid) ∷ (c, high) ∷ []) in (1 ≤ n) × (n ≤ 2)
active_bounds a b c h = ground arith

product_bounds :
    (a b c : ℕ)
    → (1 ≤ a) × (a ≤ 2)
    → (1 ≤ b) × (b ≤ 2)
    → (1 ≤ c) × (c ≤ 2)
    → (1 ≤ a * (b * c)) × (a * (b * c) ≤ 8)
product_bounds a b c ha hb hc = grind arith

-- On every reading at least one rule fires, and at most eight of the 27 do.
pub fired_rules_bounds :
    (t h p : ℤ) → (1 ≤ length (fired_rules t h p)) × (length (fired_rules t h p) ≤ 8)
unfolding fired_rules
fired_rules_bounds t h p =
    let (pt, ph, pp) = memberships-IsPartition t h p in
    simp (length-fire_temp (mu_t t) (mu_h h) (mu_p p)) (
      product_bounds (active (mu_t t)) (active (mu_h h)) (active (mu_p p))
        (active_bounds TempTerm.low TempTerm.medium TempTerm.high pt)
        (active_bounds dry humid wet ph) (active_bounds PmTerm.low PmTerm.medium PmTerm.high pp))
