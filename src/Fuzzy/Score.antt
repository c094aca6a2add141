-- ===== src/Fuzzy/Score.antt =====
-- The range of the score (fuzzy/tsukamoto.py) and what pollution alone says of it.
use native.Mathlib.Nat.{div-add-mod, mod-lt, mul-le-mul_left, le_of_mul-le-mul_right}
use empyrean_v2_backend.Base.{
  ℕ, ◌+◌, ◌*◌, ◌/◌, ◌%◌, ◌≤◌, ◌<◌, ◌≡◌, refl, ap, ◌⊎◌, inl, inr, List, [], ◌∷◌, length, All,
  All-append, arith, ◌==◌, min, Bool-cases, ok,
}
use empyrean_v2_backend.Base.Int.{ℤ, pos, ◌≤ℤ◌}
use empyrean_v2_backend.Base.Number.{finite}
use empyrean_v2_backend.Fuzzy.Membership.{one, pm_low, pm_medium, pm_high, trap}
use empyrean_v2_backend.Fuzzy.Rules.{TempTerm, HumTerm, PmTerm, Consequent, consequents, rule_table}
use empyrean_v2_backend.Fuzzy.Partition.{IsPartition, memberships-IsPartition}
use empyrean_v2_backend.Fuzzy.Fires.{fired_rules_bounds}
use empyrean_v2_backend.Fuzzy.Tsukamoto.{
  Fired, Inference, num, inverse, round_half_even, sum_alpha, sum_weighted, weighted_average, mu_t,
  mu_h, mu_p, fire_pm, fire_hum, fire_temp, fired_rules, require_finite, infer,
}

-- The outputs that the rules of one PM2.5 term can give.
abbrev pub pm_floor : PmTerm → ℕ
pm_floor PmTerm.low = 0
pm_floor PmTerm.medium = 30
pm_floor PmTerm.high = 65

abbrev pub pm_ceiling : PmTerm → ℕ
pm_ceiling PmTerm.low = 60
pm_ceiling PmTerm.medium = 75
pm_ceiling PmTerm.high = 100

rule_range :
    (t : TempTerm) (h : HumTerm) (p : PmTerm)
    → let r = consequents (rule_table t h p) in (pm_floor p ≤ r.lo) × (r.hi ≤ pm_ceiling p)
unfolding rule_table
rule_range t h p = ground arith

inverse_bounds :
    (a : ℕ) (c : Consequent)
    → a ≤ one
    → let r = consequents c in (r.lo * one ≤ inverse a r) × (inverse a r ≤ r.hi * one)
unfolding inverse
inverse_bounds a c h = ground arith

le_or_lt : (a b : ℕ) → (a ≤ b) ⊎ (b < a)
le_or_lt a b = omega arith

quotient_bounds :
    (lo hi q r d : ℕ)
    → r < d
    → lo * d ≤ d * q + r
    → d * q + r ≤ hi * d
    → (lo ≤ q) × ((q + 1 ≤ hi) ⊎ ((q ≡ hi) × (r ≡ 0)))
quotient_bounds lo hi q r d h hl hh = (below, above (le_or_lt (q + 1) hi))
  where
    below : lo ≤ q
    below = grind arith

    q-le-hi : q ≤ hi
    q-le-hi = le_of_mul-le-mul_right {k = d} (omega arith) (omega arith)

    above : (q + 1 ≤ hi) ⊎ (hi < q + 1) → (q + 1 ≤ hi) ⊎ ((q ≡ hi) × (r ≡ 0))
    above (inl h') = inl h'
    above (inr h') =
        let top : q ≡ hi = omega (arith, q-le-hi) in
        inr (top, omega (arith, ap (λ (k : ℕ). k * d) top))

pub round_bounds :
    (lo hi n d : ℕ)
    → 0 < d
    → lo * d ≤ n
    → n ≤ hi * d
    → (lo ≤ round_half_even n d) × (round_half_even n d ≤ hi)
unfolding round_half_even
round_bounds lo hi n d pd hl hh =
    ground (arith, quotient_bounds lo hi (n / d) (n % d) d, div-add-mod n d, mod-lt n pd)

module _ (lo hi : ℕ) where
  abbrev Within : Fired → Type 0
  Within f = (0 < f.alpha) × (lo * one ≤ f.z) × (f.z ≤ hi * one)

  -- A PM2.5 term whose rules keep to the range, or which is not active.
  abbrev Fits : PmTerm × ℕ → Type 0
  Fits p = (p.1 ≡ 0) ⊎ ((lo ≤ pm_floor p.0) × (pm_ceiling p.0 ≤ hi) × (p.1 ≤ one))

  fire_pm-Within :
      (t : TempTerm × ℕ) (h : HumTerm × ℕ) (ps : List (PmTerm × ℕ))
      → All Fits ps
      → All Within (fire_pm t h ps)
  unfolding fire_pm
  fire_pm-Within t h [] fs = tt
  fire_pm-Within t h (p ∷ ps) fs = ground (
    arith,
    fire_pm-Within t h ps fs.1,
    rule_range t.0 h.0 p.0,
    inverse_bounds (min t.1 (min h.1 p.1)) (rule_table t.0 h.0 p.0),
  )

  fire_hum-Within :
      (t : TempTerm × ℕ) (hs : List (HumTerm × ℕ)) (ps : List (PmTerm × ℕ))
      → All Fits ps
      → All Within (fire_hum t hs ps)
  unfolding fire_hum
  fire_hum-Within t [] ps fs = tt
  fire_hum-Within t (h ∷ hs) ps fs = elim (Bool-cases (h.1 == 0)) [
    | inl e ↦ rw e (fire_hum-Within t hs ps fs)
    | inr e ↦ rw e (All-append Within _ _ (fire_pm-Within t h ps fs) (fire_hum-Within t hs ps fs))
  ]

  fire_temp-Within :
      (ts : List (TempTerm × ℕ)) (hs : List (HumTerm × ℕ)) (ps : List (PmTerm × ℕ))
      → All Fits ps
      → All Within (fire_temp ts hs ps)
  unfolding fire_temp
  fire_temp-Within [] hs ps fs = tt
  fire_temp-Within (t ∷ ts) hs ps fs = elim (Bool-cases (t.1 == 0)) [
    | inl e ↦ rw e (fire_temp-Within ts hs ps fs)
    | inr e ↦
        rw e (All-append Within _ _ (fire_hum-Within t hs ps fs) (fire_temp-Within ts hs ps fs))
  ]

  sum_bounds :
      (fs : List Fired)
      → All Within fs
      → (lo * one * sum_alpha fs ≤ sum_weighted fs) × (sum_weighted fs ≤ hi * one * sum_alpha fs)
  unfolding sum_alpha sum_weighted
  sum_bounds [] h = omega arith
  sum_bounds (f ∷ fs) h =
      omega (arith, sum_bounds fs h.1, mul-le-mul_left f.alpha h.0.1, mul-le-mul_left f.alpha h.0.2)

  average_bounds :
      (fs : List Fired)
      → All Within fs
      → 1 ≤ length fs
      → (lo * 100 ≤ weighted_average fs) × (weighted_average fs ≤ hi * 100)
  unfolding weighted_average sum_alpha
  average_bounds [] h n = absurd (omega arith)
  average_bounds (f ∷ fs) h n = ground (
    arith,
    sum_bounds (f ∷ fs) h,
    round_bounds (lo * 100) (hi * 100) (sum_weighted (f ∷ fs)) (sum_alpha (f ∷ fs) * 200),
  )

  -- Finite readings whose PM2.5 terms keep to the range are scored within it.
  infer_range :
      (t h p : ℤ)
      → All Fits (mu_p p)
      → (r : Inference) × (infer (num (finite t)) (num (finite h)) (num (finite p)) ≡ ok r)
        × (lo * 100 ≤ r.score)
        × (r.score ≤ hi * 100)
        × (1 ≤ r.rules_fired)
        × (r.rules_fired ≤ 8)
  unfolding infer require_finite fired_rules
  infer_range t h p fits =
      let fs : List Fired = fired_rules t h p in
      let n = fired_rules_bounds t h p in
      let within : All Within fs = fire_temp-Within (mu_t t) (mu_h h) (mu_p p) fits in
      let b = average_bounds fs within n.0 in
      (record { score = weighted_average fs; rules_fired = length fs }, refl, b.0, b.1, n.0, n.1)

grade-le-one :
    {low mid high : ℕ} → IsPartition low mid high → (low ≤ one) × (mid ≤ one) × (high ≤ one)
grade-le-one h = omega (arith, h.total)

-- Every reading of finite numbers gets a score from 0 to 100, from between one and eight rules.
pub infer_total :
    (t h p : ℤ)
    → (r : Inference) × (infer (num (finite t)) (num (finite h)) (num (finite p)) ≡ ok r)
      × (r.score ≤ 10000)
      × (1 ≤ r.rules_fired)
      × (r.rules_fired ≤ 8)
infer_total t h p =
    let (_, _, pp) = memberships-IsPartition t h p in
    let g = grade-le-one pp in
    let (r, e, _, top, few, many) = infer_range 0 100 t h p (ground (arith, g)) in
    (r, e, top, few, many)

clean_grades : (p : ℤ) → p ≤ℤ pos 5000 → (pm_medium p ≡ 0) × (pm_high p ≡ 0)
unfolding pm_medium pm_high trap
clean_grades p h = ground arith

heavy_grades : (p : ℤ) → pos 30000 ≤ℤ p → (pm_low p ≡ 0) × (pm_medium p ≡ 0)
unfolding pm_low pm_medium trap
heavy_grades p h = ground arith

-- Clean air, with PM2.5 up to 50, is never scored above 60, and heavy pollution, with PM2.5 of 300 or
-- more, never below 65, whatever the temperature and the humidity.
pub infer_extremes :
    (t h p : ℤ)
    → (p ≤ℤ pos 5000) ⊎ (pos 30000 ≤ℤ p)
    → (r : Inference) × (infer (num (finite t)) (num (finite h)) (num (finite p)) ≡ ok r)
      × (((p ≤ℤ pos 5000) × (r.score ≤ 6000)) ⊎ ((pos 30000 ≤ℤ p) × (6500 ≤ r.score)))
infer_extremes t h p (inl k) =
    let grades = grade-le-one (memberships-IsPartition t h p).2 in
    let (r, e, _, top, _, _) = infer_range 0 60 t h p (ground (arith, clean_grades p k, grades)) in
    (r, e, inl (k, top))
infer_extremes t h p (inr k) =
    let grades = grade-le-one (memberships-IsPartition t h p).2 in
    let (r, e, bottom, _, _, _) =
      infer_range 65 100 t h p (ground (arith, heavy_grades p k, grades)) in
    (r, e, inr (k, bottom))
