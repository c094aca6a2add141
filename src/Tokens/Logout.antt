-- ===== src/Tokens/Logout.antt =====
-- What logging out ends (api/auth.py, `logout`).
use empyrean_v2_backend.Base.{
  ℕ, ◌≤◌, ◌≡◌, refl, arith, List, [], ◌∷◌, keep, count, update_where, ok, err, inl, inr, List-cases,
  count_mono, keep_none, length, length-keep,
}
use empyrean_v2_backend.Access.Guard.{Decode}
use empyrean_v2_backend.Tokens.Store.{
  RefreshToken, Db, Config, Fresh, unauthorized, revoke, has_hash, claimable, is_open,
}
use empyrean_v2_backend.Tokens.Session.{revoke_where, refresh, logout, logout_access}
use empyrean_v2_backend.Tokens.Distinct.{count-revoke, count-subset, reject_refresh_lem}

count_open_revoked :
    (h : ℕ) (rows : List RefreshToken)
    → count (is_open h) (update_where (is_open h) revoke rows) ≡ 0
count_open_revoked h [] = refl
count_open_revoked h (t ∷ rows) = ground (arith, count_open_revoked h rows)

-- A token with no open row is refused.
refresh_closed :
    (sha : ℕ → ℕ) (cfg : Config) (now : ℕ) (fresh : Fresh) (raw : ℕ) (db : Db)
    → count (has_hash (sha raw)) db.refresh_tokens ≤ 1
    → count (is_open (sha raw)) db.refresh_tokens ≡ 0
    → (refresh sha cfg now fresh raw db).1 ≡ err unauthorized
unfolding refresh
refresh_closed sha cfg now fresh raw db c closed =
    let fewer =
      count_mono (claimable (sha raw) now) (is_open (sha raw)) db.refresh_tokens
        (λ t e. ground arith) in
    let unclaimed =
      keep_none (claimable (sha raw) now) db.refresh_tokens (ground (arith, fewer, closed)) in
    rw (unclaimed, refresh) (reject_refresh_lem (sha raw) 0 db c).0

-- Where no two rows have its hash, logging out closes a token: it answers as ever, the token is
-- open no more, and refreshing with it is refused from then on.
pub logout_ends :
    (sha : ℕ → ℕ) (decode : Decode) (cfg : Config) (now later : ℕ) (auth : List ℕ) (fresh : Fresh)
    (raw : ℕ) (db : Db)
    → count (has_hash (sha raw)) db.refresh_tokens ≤ 1
    → let db' = (logout sha decode now auth raw db).0 in
      ((logout sha decode now auth raw db).1 ≡ ok tt)
      × (count (is_open (sha raw)) db'.refresh_tokens ≡ 0)
      × ((refresh sha cfg later fresh raw db').1 ≡ err unauthorized)
unfolding logout revoke_where
logout_ends sha decode cfg now later auth fresh raw db c =
    let h = sha raw in
    let rows = db.refresh_tokens in
    let redis' = logout_access decode now auth db.redis in
    let one = count-subset h (is_open h) rows (λ t e. ground arith) c in
    elim (List-cases (keep (is_open h) rows)) [
      | inl e ↦
          let none_open : count (is_open h) rows ≡ 0 =
            ground (arith, e, length-keep (is_open h) rows) in
          rw (e, logout)
            (
              refl,
              none_open,
              refresh_closed sha cfg later fresh raw (record db { redis = redis' }) c none_open,
            )
      | inr (t, [], e) ↦
          let none_open = count_open_revoked h rows in
          rw (e, logout)
            (
              refl,
              none_open,
              refresh_closed sha cfg later fresh raw
                  (record db {
                    redis = redis';
                    refresh_tokens = update_where (is_open h) revoke rows;
                  })
                  (ground (arith, count-revoke h (is_open h) rows, c)) none_open,
            )
      | inr (t, t' ∷ ts, e) ↦
          let too_long : length (keep (is_open h) rows) ≡ length (t ∷ t' ∷ ts) = rw e refl in
          absurd (ground (arith, too_long, length-keep (is_open h) rows))
    ]
