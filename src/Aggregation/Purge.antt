-- ===== src/Aggregation/Purge.antt =====
-- What the retention purge keeps (tasks/aggregation.py, `data_retention_cleanup`).
use empyrean_v2_backend.Base.{
  ℕ, ◌+◌, ◌*◌, ◌≤◌, ◌<◌, ◌≡◌, ◌≢◌, refl, sym, subst, arith, Bool, true, false, none, not, List, [],
  ◌∷◌, Option, length, keep, count, map, All, ok, String, Bool-cases, inl, inr, ◌⊎◌,
}
use empyrean_v2_backend.Base.Int.{ℤ, pos}
use empyrean_v2_backend.Base.Number.{Number}
use empyrean_v2_backend.Alerts.Check.{Settings}
use empyrean_v2_backend.Pipeline.Enrich.{Reading}
use empyrean_v2_backend.Aggregation.Rollup.{HourlyAgg, day}
use empyrean_v2_backend.Aggregation.Retention.{
  Account, deleted_user, anonymise, Tables, Counts, retention_days, is_old, is_scrubbed,
  anonymise_old, young_reading, young_hour, purge, purge_after, is_positive, data_retention_cleanup,
}

-- What passes a test is not lost to a weaker one.
count-keep_weaker :
    {A : Type 0} (p q : A → Bool) (xs : List A)
    → ((x : A) → p x ≡ true → q x ≡ true)
    → count p (keep q xs) ≡ count p xs
count-keep_weaker p q [] h = refl
count-keep_weaker p q (x ∷ xs) h = elim (Bool-cases (p x)) [
  | inl e ↦ ground (arith, e, h x e, count-keep_weaker p q xs h)
  | inr e ↦ ground (arith, e, count-keep_weaker p q xs h)
]

length-keep-not :
    {A : Type 0} (q : A → Bool) (xs : List A)
    → length (keep q xs) + count (λ x. not (q x)) xs ≡ length xs
length-keep-not q [] = refl
length-keep-not q (x ∷ xs) = ground (arith, length-keep-not q xs)

-- The row names nobody and lets nobody in: what its owner chose is gone, and the id is all that is
-- left.
abbrev pub IsAnonymous : Account → Type 0
IsAnonymous a =
    (a.username ≡ deleted_user a.id)
    × (a.email ≡ deleted_user a.id)
    × (a.password_hash ≡ none)
    × (a.notification_prefs ≡ none)
    × (a.last_login_at ≡ none)

-- What becomes of a row: it is the same, where its user is active or has changed within the window or
-- the row was scrubbed before; or it is anonymous, and still the inactive row of that id, where none of
-- the three is so.
abbrev pub IsCleared : ℕ → ℕ → Account → Account → Type 0
IsCleared now days a b =
    ((b ≡ a)
      × ((a.is_active ≡ true) ⊎ ((now ≤ a.updated_at + days * day) ⊎ (is_scrubbed a.email ≡ true))))
    ⊎ (IsAnonymous b
        × (b.id ≡ a.id)
        × (b.is_active ≡ false)
        × (a.is_active ≡ false)
        × (a.updated_at + days * day < now)
        × (is_scrubbed a.email ≡ false))

-- Row by row.
abbrev pub AreCleared : ℕ → ℕ → List Account → List Account → Type 0
AreCleared now days [] [] = Unit
AreCleared now days [] (b ∷ bs) = ⊥
AreCleared now days (a ∷ as_) [] = ⊥
AreCleared now days (a ∷ as_) (b ∷ bs) = IsCleared now days a b × AreCleared now days as_ bs

anonymised :
    (now days : ℕ) (a : Account)
    → a.is_active ≡ false
    → is_old now days a.updated_at ≡ true
    → is_scrubbed a.email ≡ false
    → anonymise_old now days a ≡ anonymise a
anonymised now days a e old named = ground (arith, e, old, named)

anonymise_old-IsCleared :
    (now days : ℕ) (a : Account) → IsCleared now days a (anonymise_old now days a)
anonymise_old-IsCleared now days a = elim (Bool-cases a.is_active) [
  | inl e ↦ inl (ground (arith, e), inl e)
  | inr e ↦ elim (Bool-cases (is_old now days a.updated_at)) [
    | inr recent ↦ inl (ground (arith, e, recent), inr (inl (ground (arith, e, recent))))
    | inl old ↦ elim (Bool-cases (is_scrubbed a.email)) [
      | inl done ↦ inl (ground (arith, e, old, done), inr (inr done))
      | inr named ↦
          let made : IsAnonymous (anonymise_old now days a)
              × ((anonymise_old now days a).id ≡ a.id)
              × ((anonymise_old now days a).is_active ≡ false) =
            subst (λ b. IsAnonymous b × (b.id ≡ a.id) × (b.is_active ≡ false))
              (sym (anonymised now days a e old named)) ((refl, refl, refl, refl, refl), refl, e) in
          let outside : a.updated_at + days * day < now = ground (arith, old) in
          inr (made.0, made.1, made.2, e, outside, named)
    ]
  ]
]

map-AreCleared :
    (now days : ℕ) (us : List Account) → AreCleared now days us (map (anonymise_old now days) us)
map-AreCleared now days [] = tt
map-AreCleared now days (u ∷ us) = (anonymise_old-IsCleared now days u, map-AreCleared now days us)

abbrev pub active : Account → Bool
active a = a.is_active

keep-anonymise_old :
    (now days : ℕ) (us : List Account)
    → keep active (map (anonymise_old now days) us) ≡ keep active us
keep-anonymise_old now days [] = refl
keep-anonymise_old now days (u ∷ us) = elim (Bool-cases u.is_active) [
  | inl e ↦ ground (arith, e, keep-anonymise_old now days us)
  | inr e ↦ ground (arith, e, keep-anonymise_old now days us)
]

-- What is kept as young lies within the window.
All-young :
    {A : Type 0} (at : A → ℕ) (now days : ℕ) (xs : List A)
    → All (λ x. now ≤ at x + days * day) (keep (λ x. not (is_old now days (at x))) xs)
All-young at now days [] = tt
All-young at now days (x ∷ xs) = elim (Bool-cases (is_old now days (at x))) [
  | inl e ↦ rw e (All-young at now days xs)
  | inr e ↦ rw e (ground (arith, e), All-young at now days xs)
]

-- The purge goes by the number of days that the setting gives, or else the configuration: where both
-- are positive, it raises nothing and returns tables that hold no reading and no hourly row from
-- before the window, and every one from within it; it counts the readings that it deleted. The row of
-- each user who is inactive and has not changed within the window is anonymised, unless it was
-- before: its name and address are `deleted-user-<id>`, and its password, its preferences and its
-- last login are gone. The other rows are what they were.
pub data_retention_cleanup_keeps :
    (parse : String → Option Number) (now days : ℕ) (config : ℤ) (settings : Settings) (t : Tables)
    (p : Reading → Bool) (q : HourlyAgg → Bool)
    → is_positive config ≡ true
    → retention_days parse config settings ≡ ok (pos days)
    → days ≢ 0
    → ((r : Reading) → p r ≡ true → now ≤ r.time + days * day)
    → ((h : HourlyAgg) → q h ≡ true → now ≤ h.bucket + days * day)
    → (t' : Tables) × (c : Counts) × (data_retention_cleanup parse now config settings t
        ≡ ok (t', c))
      × All (λ r. now ≤ r.time + days * day) t'.readings
      × (count p t'.readings ≡ count p t.readings)
      × (length t'.readings + c.deleted ≡ length t.readings)
      × All (λ h. now ≤ h.bucket + days * day) t'.hourly_agg
      × (count q t'.hourly_agg ≡ count q t.hourly_agg)
      × AreCleared now days t.users t'.users
      × (keep active t'.users ≡ keep active t.users)
unfolding data_retention_cleanup purge_after purge
data_retention_cleanup_keeps parse now days config settings t p q c h nz yp yq =
    let r = purge now days t in
    (
      r.0,
      r.1,
      ground (arith, c, h, nz),
      All-young (λ r. r.time) now days t.readings,
      count-keep_weaker p (young_reading now days) t.readings (λ r e. ground (arith, yp r e)),
      length-keep-not (young_reading now days) t.readings,
      All-young (λ h. h.bucket) now days t.hourly_agg,
      count-keep_weaker q (young_hour now days) t.hourly_agg (λ h e. ground (arith, yq h e)),
      map-AreCleared now days t.users,
      keep-anonymise_old now days t.users,
    )
