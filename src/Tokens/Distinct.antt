-- ===== src/Tokens/Distinct.antt =====
-- The hashes of refresh tokens stay distinct (api/auth.py, `refresh`).
use empyrean_v2_backend.Base.{
  ℕ, ◌≤◌, ◌≡◌, refl, subst, arith, ◌==◌, Bool, true, List, [], ◌∷◌, ◌++◌, none, some, find, keep,
  count, update_where, ok, err, ◌⊎◌, inl, inr, Bool-cases, Option-cases, List-cases, count-append,
  count-update_where, count_mono, length, length-keep,
}
use empyrean_v2_backend.Access.Store.{has_user_id}
use empyrean_v2_backend.Tokens.Store.{
  RefreshToken, Db, Config, Fresh, unauthorized, new_refresh_token, add_refresh_token,
  scalar_one_or_none, revoke, has_hash, claimable, is_reused, belongs_to,
}
use empyrean_v2_backend.Tokens.Session.{
  revoke_where, record_token_reuse, reject_refresh, rotate, refresh,
}

-- No two refresh tokens have the same hash.
abbrev pub IsDistinct : Db → Type 0
IsDistinct db = (h : ℕ) → count (has_hash h) db.refresh_tokens ≤ 1

count-add_token :
    (h : ℕ) (rows : List RefreshToken) (t : RefreshToken)
    → count (has_hash t.token_hash) rows ≡ 0
    → count (has_hash h) rows ≤ 1
    → count (has_hash h) (rows ++ (t ∷ [])) ≤ 1
count-add_token h rows t new c = elim (Bool-cases (t.token_hash == h)) [
  | inl e ↦
      let same : t.token_hash ≡ h = ground (arith, e) in
      let none_of_h : count (has_hash h) rows ≡ 0 =
        subst (λ k. count (has_hash k) rows ≡ 0) same new in
      ground (arith, count-append (has_hash h) rows (t ∷ []), none_of_h)
  | inr e ↦ ground (arith, count-append (has_hash h) rows (t ∷ []), e)
]

pub count-revoke :
    (h : ℕ) (q : RefreshToken → Bool) (rows : List RefreshToken)
    → count (has_hash h) (update_where q revoke rows) ≡ count (has_hash h) rows
count-revoke h q rows = count-update_where (has_hash h) q revoke rows (λ t. refl)

-- With distinct hashes, at most one row is found.
scalar_one :
    (p : RefreshToken → Bool) (rows : List RefreshToken)
    → count p rows ≤ 1
    → (scalar_one_or_none (keep p rows) ≡ ok none)
      ⊎ ((t : RefreshToken) × (scalar_one_or_none (keep p rows) ≡ ok (some t)))
scalar_one p rows c = elim (List-cases (keep p rows)) [
  | inl e ↦ inl (rw e refl)
  | inr (t, [], e) ↦ inr (t, rw e refl)
  | inr (t, t' ∷ ts, e) ↦
      let too_long : length (keep p rows) ≡ length (t ∷ t' ∷ ts) = rw e refl in
      absurd (ground (arith, too_long, length-keep p rows))
]

pub count-subset :
    (h : ℕ) (p : RefreshToken → Bool) (rows : List RefreshToken)
    → ((t : RefreshToken) → p t ≡ true → has_hash h t ≡ true)
    → count (has_hash h) rows ≤ 1
    → count p rows ≤ 1
count-subset h p rows sub c = ground (arith, count_mono p (has_hash h) rows sub)

pub reject_refresh_lem :
    (h k : ℕ) (db : Db)
    → count (has_hash h) db.refresh_tokens ≤ 1
    → ((reject_refresh h db).1 ≡ err unauthorized)
      × (count (has_hash k) (reject_refresh h db).0.refresh_tokens
          ≡ count (has_hash k) db.refresh_tokens)
unfolding reject_refresh record_token_reuse revoke_where
reject_refresh_lem h k db c =
    let one = count-subset h (is_reused h) db.refresh_tokens (λ t e. ground arith) c in
    elim (scalar_one (is_reused h) db.refresh_tokens one) [
      | inl e ↦ rw (e, reject_refresh) (refl, refl)
      | inr (t, e) ↦ elim (Bool-cases db.redis.up) [
        | inl up ↦
            rw (e, reject_refresh, up, record_token_reuse)
              (refl, count-revoke k (belongs_to t.user_id) db.refresh_tokens)
        | inr up ↦
            rw (e, reject_refresh, up, record_token_reuse)
              (refl, count-revoke k (belongs_to t.user_id) db.refresh_tokens)
      ]
    ]

-- The hashes of the refresh tokens stay distinct over a refresh whose new token has a hash that no
-- row has.
pub refresh-IsDistinct :
    (sha : ℕ → ℕ) (cfg : Config) (now : ℕ) (fresh : Fresh) (raw : ℕ) (db : Db)
    → count (has_hash (sha fresh.raw)) db.refresh_tokens ≡ 0
    → IsDistinct db
    → IsDistinct (refresh sha cfg now fresh raw db).0
unfolding refresh rotate add_refresh_token revoke_where new_refresh_token
refresh-IsDistinct sha cfg now fresh raw db new d h =
    let claim = claimable (sha raw) now in
    let kept = count-revoke h claim db.refresh_tokens in
    elim (List-cases (keep claim db.refresh_tokens)) [
      | inl e ↦ rw (e, refresh) ground (arith, reject_refresh_lem (sha raw) h db (d (sha raw)), d h)
      | inr (t, ts, e) ↦ elim (Option-cases (find (has_user_id t.user_id) db.users)) [
        | inl f ↦ rw (e, refresh, f, rotate) ground (arith, kept, d h)
        | inr (u, f) ↦ elim (Bool-cases u.is_active) [
          | inl y ↦
              rw (e, refresh, f, rotate, y)
                (count-add_token h (update_where claim revoke db.refresh_tokens)
                  (new_refresh_token sha cfg now fresh u)
                  (ground (arith, new, count-revoke (sha fresh.raw) claim db.refresh_tokens))
                  (ground (arith, kept, d h)))
          | inr n ↦ rw (e, refresh, f, rotate, n) ground (arith, kept, d h)
        ]
      ]
    ]
