-- ===== src/Fuzzy/Inputs.antt =====
-- What `infer` accepts (fuzzy/tsukamoto.py), and what the rule table says (fuzzy/rules.py).
use empyrean_v2_backend.Base.{
  ◌≡◌, refl, ◌⊎◌, inl, inr, subst, ok, err, Bool, true, false, ◌&&◌, ◌||◌, arith, if◌then◌else◌,
}
use empyrean_v2_backend.Base.Int.{ℤ}
use empyrean_v2_backend.Base.Number.{finite, nan, inf, neg_inf}
use empyrean_v2_backend.Fuzzy.Rules.{
  TempTerm, HumTerm, PmTerm, Consequent, dry, humid, wet, good, moderate, usg, unhealthy,
  very_unhealthy, consequent_for,
}
use empyrean_v2_backend.Fuzzy.Tsukamoto.{
  Value, missing, other, num, ValueError, not_numeric, not_finite, require_finite, infer,
}

-- A finite number.
abbrev pub IsReading : Value → Type 0
IsReading v = (x : ℤ) × (v ≡ num (finite x))

-- Why a value is refused.
abbrev pub Refused : ValueError → Value → Type 0
Refused not_numeric v = (v ≡ missing) ⊎ (v ≡ other)
Refused not_finite v = (v ≡ num nan) ⊎ ((v ≡ num inf) ⊎ (v ≡ num neg_inf))

require_finite_cases :
    (v : Value)
    → ((x : ℤ) × (v ≡ num (finite x)) × (require_finite v ≡ ok x))
      ⊎ ((e : ValueError) × Refused e v × (require_finite v ≡ err e))
unfolding require_finite
require_finite_cases missing = inr (not_numeric, inl refl, refl)
require_finite_cases other = inr (not_numeric, inr refl, refl)
require_finite_cases (num (finite x)) = inl (x, refl, refl)
require_finite_cases (num nan) = inr (not_finite, inl refl, refl)
require_finite_cases (num inf) = inr (not_finite, inr (inl refl), refl)
require_finite_cases (num neg_inf) = inr (not_finite, inr (inr refl), refl)

-- An error of `infer` is that of the first input, in the order temperature, humidity, PM2.5, that is
-- not a finite number: the inputs before it are finite, and the error says what is wrong with it.
pub infer_error :
    (a b c : Value) (e : ValueError)
    → infer a b c ≡ err e
    → Refused e a ⊎ ((IsReading a × Refused e b) ⊎ (IsReading a × IsReading b × Refused e c))
unfolding infer
infer_error a b c e h = elim (require_finite_cases a) [
  | inr (e', bad, q) ↦ inl (subst (λ d. Refused d a) (ground (arith, q)) bad)
  | inl (x, ea, q) ↦ elim (require_finite_cases b) [
    | inr (e', bad, q') ↦ inr (inl ((x, ea), subst (λ d. Refused d b) (ground (arith, q, q')) bad))
    | inl (y, eb, q') ↦ elim (require_finite_cases c) [
      | inr (e', bad, q'') ↦
          inr (inr ((x, ea), (y, eb), subst (λ d. Refused d c) (ground (arith, q, q', q'')) bad))
      | inl (z, ec, q'') ↦ absurd (ground (arith, q, q', q''))
    ]
  ]
]

pub is_dry : HumTerm → Bool
is_dry dry = true
is_dry humid = false
is_dry wet = false

pub is_high : TempTerm → Bool
is_high TempTerm.high = true
is_high TempTerm.low = false
is_high TempTerm.medium = false

-- The assignment rules in the header of fuzzy/rules.py.
pub assigned : TempTerm → HumTerm → PmTerm → Consequent
unfolding is_dry is_high
assigned t h PmTerm.low = if is_dry h || is_high t then moderate else good
assigned t h PmTerm.medium = if is_dry h || is_high t then usg else moderate
assigned t h PmTerm.high = if is_dry h && is_high t then very_unhealthy else unhealthy

-- The table holds exactly the assignment rules that its header states: low PM2.5 is good, or moderate
-- in dry or hot air; medium PM2.5 is moderate, or unhealthy for sensitive groups in dry or hot air;
-- high PM2.5 is unhealthy, or very unhealthy in air that is dry and hot.
pub consequent_for-eq-assigned :
    (t : TempTerm) (h : HumTerm) (p : PmTerm) → consequent_for t h p ≡ assigned t h p
unfolding consequent_for assigned
consequent_for-eq-assigned t h p = ground arith
