-- ===== src/Tokens/Rotation.antt =====
-- Refresh tokens are rotated once, and a token that is shown again ends its user's sessions (api/auth.py).
use empyrean_v2_backend.Base.{
  ℕ, ◌≤◌, ◌≡◌, ◌≢◌, refl, arith, ◌==◌, true, List, [], ◌∷◌, ◌++◌, some, find, keep, count,
  update_where, ok, err, inl, inr, Bool-cases, Option-cases, List-cases, find_holds, keep-append,
}
use empyrean_v2_backend.Access.Store.{User, has_user_id}
use empyrean_v2_backend.Tokens.Store.{
  RefreshToken, Db, Config, Fresh, AuthResponse, unauthorized, auth_payload, new_refresh_token,
  add_refresh_token, revoke, has_hash, claimable, is_reused, belongs_to, is_live_of,
}
use empyrean_v2_backend.Tokens.Session.{
  revoke_where, record_token_reuse, reject_refresh, rotate, refresh,
}

module _ (h now : ℕ) where
  -- Where no row has a hash, none is claimed or reused, before and after a revocation.
  keep_absent :
      (later : ℕ) (rows : List RefreshToken)
      → count (has_hash h) rows ≡ 0
      → (keep (claimable h now) rows ≡ [])
        × (keep (claimable h later) (update_where (claimable h now) revoke rows) ≡ [])
        × (keep (is_reused h) (update_where (claimable h now) revoke rows) ≡ [])
  keep_absent later [] c = (refl, refl, refl)
  keep_absent later (x ∷ rows) c = elim (Bool-cases (x.token_hash == h)) [
    | inl e ↦ absurd (ground (arith, e))
    | inr e ↦
        let (p, q, r) = keep_absent later rows (ground (arith, e)) in
        (ground (arith, e, p), ground (arith, e, q), ground (arith, e, r))
  ]

  -- A row that is claimed is the only one of its hash, and stands revoked from then on.
  keep_claimed :
      (later : ℕ) (t : RefreshToken) (ts rows : List RefreshToken)
      → count (has_hash h) rows ≤ 1
      → keep (claimable h now) rows ≡ t ∷ ts
      → (keep (claimable h later) (update_where (claimable h now) revoke rows) ≡ [])
        × (keep (is_reused h) (update_where (claimable h now) revoke rows) ≡ revoke t ∷ [])
  keep_claimed later t ts [] c e = absurd (ground (arith, e))
  keep_claimed later t ts (x ∷ rows) c e = elim (Bool-cases (x.token_hash == h)) [
    | inr n ↦
        let (p, q) = keep_claimed later t ts rows (ground (arith, n)) (ground (arith, n)) in
        (ground (arith, n, p), ground (arith, n, q))
    | inl y ↦
        let (p, q, r) = keep_absent later rows (ground (arith, y)) in
        (ground (arith, y, p, q), ground (arith, y, p, r))
  ]

-- After the user's tokens are revoked, none of them is live.
count-revoke_belongs :
    (id : ℕ) (rows : List RefreshToken)
    → count (is_live_of id) (update_where (belongs_to id) revoke rows) ≡ 0
count-revoke_belongs id [] = refl
count-revoke_belongs id (t ∷ rows) = ground (arith, count-revoke_belongs id rows)

-- The rows after a rotation: the new row, whose hash is another, is neither claimed nor reused.
module _ (sha : ℕ → ℕ) (cfg : Config) (now : ℕ) (fresh : Fresh) (raw : ℕ) where
  abbrev pub rotated_rows : User → List RefreshToken → List RefreshToken
  rotated_rows u rows =
      update_where (claimable (sha raw) now) revoke rows
      ++ (new_refresh_token sha cfg now fresh u ∷ [])

  keep_rotated :
      (later : ℕ) (u : User) (t : RefreshToken) (ts rows : List RefreshToken)
      → count (has_hash (sha raw)) rows ≤ 1
      → sha fresh.raw ≢ sha raw
      → keep (claimable (sha raw) now) rows ≡ t ∷ ts
      → (keep (claimable (sha raw) later) (rotated_rows u rows) ≡ [])
        × (keep (is_reused (sha raw)) (rotated_rows u rows) ≡ revoke t ∷ [])
  unfolding new_refresh_token
  keep_rotated later u t ts rows c ne e =
      let (p, q) = keep_claimed (sha raw) now later t ts rows c e in
      let new = new_refresh_token sha cfg now fresh u in
      let rows' = update_where (claimable (sha raw) now) revoke rows in
      (
        rw (keep-append (claimable (sha raw) later) rows' (new ∷ []), p) ground arith,
        rw (keep-append (is_reused (sha raw)) rows' (new ∷ []), q) ground arith,
      )

  reject_refresh_fails : (h : ℕ) (db : Db) (a : AuthResponse) → (reject_refresh h db).1 ≢ ok a
  unfolding reject_refresh
  reject_refresh_fails h db a e = ground arith

  -- A refresh that succeeds has claimed a row of an active user.
  refresh_ok :
      (db : Db) (a : AuthResponse)
      → (refresh sha cfg now fresh raw db).1 ≡ ok a
      → (t : RefreshToken) × (ts : List RefreshToken) × (u : User) × (keep
            (claimable (sha raw) now)
            db.refresh_tokens
          ≡ t ∷ ts)
        × (find (has_user_id t.user_id) db.users ≡ some u)
        × (u.is_active ≡ true)
        × (a ≡ auth_payload cfg now fresh u)
        × ((refresh sha cfg now fresh raw db).0
            ≡ record db { refresh_tokens = rotated_rows u db.refresh_tokens })
  unfolding refresh reject_refresh rotate add_refresh_token revoke_where
  refresh_ok db a h = elim (List-cases (keep (claimable (sha raw) now) db.refresh_tokens)) [
    | inl e ↦ absurd (reject_refresh_fails (sha raw) db a (ground (arith, h, e)))
    | inr (t, ts, e) ↦ elim (Option-cases (find (has_user_id t.user_id) db.users)) [
      | inl f ↦ absurd (ground (arith, e, f))
      | inr (u, f) ↦ elim (Bool-cases u.is_active) [
        | inl y ↦ (t, ts, u, e, f, y, ground (arith, e, f, y), rw (e, refresh, f, rotate, y) refl)
        | inr n ↦ absurd (ground (arith, e, f, n))
      ]
    ]
  ]

  -- A token that stands revoked is refused, and ends the sessions of its user.
  refresh_reused :
      (db : Db) (t : RefreshToken)
      → keep (claimable (sha raw) now) db.refresh_tokens ≡ []
      → keep (is_reused (sha raw)) db.refresh_tokens ≡ t ∷ []
      → ((refresh sha cfg now fresh raw db).1 ≡ err unauthorized)
        × (count (is_live_of t.user_id) (refresh sha cfg now fresh raw db).0.refresh_tokens ≡ 0)
  unfolding refresh reject_refresh revoke_where record_token_reuse
  refresh_reused db t p q =
      let none_live = count-revoke_belongs t.user_id db.refresh_tokens in
      elim (Bool-cases db.redis.up) [
        | inl e ↦ rw (p, refresh, q, reject_refresh, e, record_token_reuse) (refl, none_live)
        | inr e ↦ rw (p, refresh, q, reject_refresh, e, record_token_reuse) (refl, none_live)
      ]

-- A refresh token works once. Where no two rows have its hash and the new token has another one,
-- showing it again after it was rotated, whatever the time, is refused, and leaves no refresh token
-- of its user live, the one that the rotation gave out included.
pub refresh_replay :
    (sha : ℕ → ℕ) (cfg : Config) (now later : ℕ) (fresh fresh' : Fresh) (raw : ℕ) (db : Db)
    (a : AuthResponse)
    → count (has_hash (sha raw)) db.refresh_tokens ≤ 1
    → sha fresh.raw ≢ sha raw
    → (refresh sha cfg now fresh raw db).1 ≡ ok a
    → let (db', r) = refresh sha cfg later fresh' raw (refresh sha cfg now fresh raw db).0 in
      (r ≡ err unauthorized) × (count (is_live_of a.user.id) db'.refresh_tokens ≡ 0)
unfolding auth_payload
refresh_replay sha cfg now later fresh fresh' raw db a c ne h =
    let (t, ts, u, e, f, y, g, after) = refresh_ok sha cfg now fresh raw db a h in
    let (p, q) = keep_rotated sha cfg now fresh raw later u t ts db.refresh_tokens c ne e in
    let same : a.user.id ≡ t.user_id =
      ground (arith, g, find_holds (has_user_id t.user_id) db.users u f) in
    rw (after, same)
      (refresh_reused sha cfg later fresh' raw
        (record db { refresh_tokens = rotated_rows sha cfg now fresh raw u db.refresh_tokens })
        (revoke t) p q)
