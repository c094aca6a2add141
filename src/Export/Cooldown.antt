-- ===== src/Export/Cooldown.antt =====
-- That a user exports once in a cooldown (api/export.py, `_check_export_cooldown` and `export`).
use empyrean_v2_backend.Base.{
  ℕ, ◌+◌, ◌-◌, ◌*◌, ◌/◌, ◌<◌, ◌==◌, ◌≡◌, ◌≢◌, ◌⊎◌, refl, sym, subst, ◌∙◌, arith, Bool, true, false,
  List, [], ◌∷◌, Option, none, some, ltb, leb, if◌then◌else◌, Result, ok, err, All, Bool-cases,
  Option-cases, Result-cases, inl, inr,
}
use empyrean_v2_backend.Access.Store.{Entry, set_entry}
use empyrean_v2_backend.Export.Csv.{Text}
use empyrean_v2_backend.Export.Route.{
  Config, Cooldowns, Row, Request, ttl, check_export_cooldown, check_args, export,
}

abbrev pub is_ok {ℓ} : {E A : Type ℓ} → Result E A → Bool
is_ok (ok x) = true
is_ok (err e) = false

abbrev is_none {ℓ} : {A : Type ℓ} → Option A → Bool
is_none none = true
is_none (some x) = false

-- The requests that are served one after another, of whatever users.
abbrev pub serve :
    (Text → Option ℕ)
    → (Text → Text → Bool)
    → Config
    → List Row
    → List Request
    → Cooldowns
    → Cooldowns
serve parse le cfg table [] r = r
serve parse le cfg table (q ∷ qs) r = serve parse le cfg table qs (export parse le cfg table q r).1

ttl-set_entry :
    (now j k until : ℕ) (es : List (Entry (Unit {0})))
    → ttl now j (set_entry k tt until es) ≡ (
        if k == j
        then (if ltb now until then some ((until - now + 500) / 1000) else none)
        else ttl now j es)
unfolding ttl set_entry
ttl-set_entry now j k until [] = ground arith
ttl-set_entry now j k until (e ∷ es) = ground (arith, ttl-set_entry now j k until es)

-- The key of a user is there until a time.
abbrev Claimed : ℕ → ℕ → Cooldowns → Type 0
Claimed user until r = (r.up ≡ true) × ((now : ℕ) → now < until → ttl now user r.claims ≢ none)

-- A check changes nothing, or claims a key that was not there.
check_cases :
    (cfg : Config) (now user : ℕ) (r : Cooldowns)
    → let c = check_export_cooldown cfg now user r in
      (c.1 ≡ r)
      ⊎ ((ttl now user r.claims ≡ none)
          × (c.1 ≡ record r {
            claims = set_entry user tt (now + cfg.export_cooldown_seconds * 1000) r.claims;
          }))
unfolding check_export_cooldown
check_cases cfg now user r = elim (Bool-cases (leb cfg.export_cooldown_seconds 0)) [
  | inl off ↦ inl (ground (arith, off))
  | inr on ↦ elim (Bool-cases r.up) [
    | inr down ↦ inl (ground (arith, on, down))
    | inl up ↦ elim (Option-cases (ttl now user r.claims)) [
      | inl free ↦ inr (free, ground (arith, on, up, free))
      | inr (seconds, taken) ↦ inl (ground (arith, on, up, taken))
    ]
  ]
]

Claimed-set_entry :
    (now user other until later : ℕ) (r : Cooldowns)
    → now < until
    → ttl now other r.claims ≡ none
    → Claimed user until r
    → Claimed user until (record r { claims = set_entry other tt later r.claims })
Claimed-set_entry now user other until later r early free (up, claimed) = (
  up,
  λ t h e. elim (Bool-cases (other == user)) [
    | inl same ↦ claimed now early (ground (arith, same, free))
    | inr differs ↦
        claimed t h (ground (arith, differs, e, ttl-set_entry t user other later r.claims))
  ],
)

Claimed-check :
    (cfg : Config) (now user until other : ℕ) (r : Cooldowns)
    → now < until
    → Claimed user until r
    → Claimed user until (check_export_cooldown cfg now other r).1
Claimed-check cfg now user until other r early h = elim (check_cases cfg now other r) [
  | inl same ↦ subst (Claimed user until) (sym same) h
  | inr (free, set) ↦
      subst (Claimed user until) (sym set) (Claimed-set_entry now user other until _ r early free h)
]

-- A request with bad arguments changes nothing; any other is accepted just when its check passes.
export_cases :
    (parse : Text → Option ℕ) (le : Text → Text → Bool) (cfg : Config) (table : List Row)
    (q : Request) (r : Cooldowns)
    → let c = check_export_cooldown cfg q.now q.user_id r in
      let answer = export parse le cfg table q r in
      ((answer.1 ≡ r) × (is_ok answer.0 ≡ false))
      ⊎ ((answer.1 ≡ c.1) × (is_ok answer.0 ≡ is_none c.0))
unfolding export
export_cases parse le cfg table q r = elim (Result-cases (check_args parse q)) [
  | inr (e, bad) ↦ inl (rw (export, bad) refl, rw (export, bad) refl)
  | inl (args, good) ↦ elim (Option-cases (check_export_cooldown cfg q.now q.user_id r).0) [
    | inl free ↦ inr (rw (export, good, free) refl, rw (export, good, free) refl)
    | inr (seconds, taken) ↦ inr (rw (export, good, taken) refl, rw (export, good, taken) refl)
  ]
]

Claimed-export :
    (parse : Text → Option ℕ) (le : Text → Text → Bool) (cfg : Config) (table : List Row)
    (q : Request) (user until : ℕ) (r : Cooldowns)
    → q.now < until
    → Claimed user until r
    → Claimed user until (export parse le cfg table q r).1
Claimed-export parse le cfg table q user until r early h =
    elim (export_cases parse le cfg table q r) [
      | inl (same, _) ↦ subst (Claimed user until) (sym same) h
      | inr (checked, _) ↦
          subst (Claimed user until) (sym checked)
            (Claimed-check cfg q.now user until q.user_id r early h)
    ]

Claimed-serve :
    (parse : Text → Option ℕ) (le : Text → Text → Bool) (cfg : Config) (table : List Row)
    (qs : List Request) (user until : ℕ) (r : Cooldowns)
    → All (λ q. q.now < until) qs
    → Claimed user until r
    → Claimed user until (serve parse le cfg table qs r)
Claimed-serve parse le cfg table [] user until r early h = h
Claimed-serve parse le cfg table (q ∷ qs) user until r (first, early) h =
    Claimed-serve parse le cfg table qs user until (export parse le cfg table q r).1 early
      (Claimed-export parse le cfg table q user until r first h)

Claimed-passed :
    (cfg : Config) (now user : ℕ) (r : Cooldowns)
    → 0 < cfg.export_cooldown_seconds
    → r.up ≡ true
    → is_none (check_export_cooldown cfg now user r).0 ≡ true
    → Claimed user
        (now + cfg.export_cooldown_seconds * 1000)
        (check_export_cooldown cfg now user r).1
unfolding check_export_cooldown
Claimed-passed cfg now user r on up passed =
    let until = now + cfg.export_cooldown_seconds * 1000 in
    elim (Option-cases (ttl now user r.claims)) [
      | inl free ↦
          let set : (check_export_cooldown cfg now user r).1
              ≡ record r { claims = set_entry user tt until r.claims } =
            ground (arith, on, up, free) in
          subst (Claimed user until) (sym set)
            (up, λ t h e. ground (arith, h, e, ttl-set_entry t user user until r.claims))
      | inr (seconds, taken) ↦ absurd (ground (arith, on, up, taken, passed))
    ]

check-Claimed :
    (cfg : Config) (now user until : ℕ) (r : Cooldowns)
    → 0 < cfg.export_cooldown_seconds
    → now < until
    → Claimed user until r
    → is_none (check_export_cooldown cfg now user r).0 ≡ false
unfolding check_export_cooldown
check-Claimed cfg now user until r on early (up, claimed) =
    elim (Option-cases (ttl now user r.claims)) [
      | inl free ↦ absurd (claimed now early free)
      | inr (seconds, taken) ↦ ground (arith, on, up, taken)
    ]

-- While Redis is up and there is a cooldown, a user whose export was accepted gets no other one
-- before the cooldown is over, whatever requests of whatever users are served in between.
pub export_once :
    (parse : Text → Option ℕ) (le : Text → Text → Bool) (cfg : Config) (table : List Row)
    (q again : Request) (qs : List Request) (r : Cooldowns)
    → 0 < cfg.export_cooldown_seconds
    → r.up ≡ true
    → is_ok (export parse le cfg table q r).0 ≡ true
    → All (λ p. p.now < q.now + cfg.export_cooldown_seconds * 1000) qs
    → again.user_id ≡ q.user_id
    → again.now < q.now + cfg.export_cooldown_seconds * 1000
    → is_ok
        (export parse le cfg table again
          (serve parse le cfg table qs (export parse le cfg table q r).1)).0
      ≡ false
export_once parse le cfg table q again qs r on up accepted between same early =
    let until = q.now + cfg.export_cooldown_seconds * 1000 in
    let first = (export parse le cfg table q r).1 in
    let later = serve parse le cfg table qs first in
    let claimed : Claimed q.user_id until first = elim (export_cases parse le cfg table q r) [
      | inl (_, refused) ↦ absurd (ground (arith, accepted, refused))
      | inr (checked, passed) ↦
          subst (Claimed q.user_id until) (sym checked)
            (Claimed-passed cfg q.now q.user_id r on up (sym passed ∙ accepted))
    ] in
    let still : Claimed again.user_id until later =
      subst (λ u. Claimed u until later) (sym same)
        (Claimed-serve parse le cfg table qs q.user_id until first between claimed) in
    elim (export_cases parse le cfg table again later) [
      | inl (_, refused) ↦ refused
      | inr (_, passed) ↦
          passed ∙ check-Claimed cfg again.now again.user_id until later on early still
    ]
