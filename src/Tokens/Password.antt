-- ===== src/Tokens/Password.antt =====
-- What a redeemed reset link does, and who logs in (api/auth.py).
use empyrean_v2_backend.Base.{
  ℕ, ◌+◌, ◌*◌, ◌<◌, ◌≡◌, refl, arith, ◌==◌, Bool, true, false, ◌&&◌, List, [], ◌∷◌, none, some,
  find, keep, count, update_where, ok, err, ◌⊎◌, inl, inr, Bool-cases, Option-cases, find_holds,
  count-append, count_mono, All, All-keep, subst,
}
use empyrean_v2_backend.Access.Store.{User, has_user_id, live}
use empyrean_v2_backend.Base.{◌/◌, ◌≤◌}
use empyrean_v2_backend.Base.Int.{pos}
use empyrean_v2_backend.Access.Guard.{integer}
use empyrean_v2_backend.Access.Protection.{live-invalidate}
use empyrean_v2_backend.Tokens.Store.{
  RefreshToken, PasswordResetToken, Db, Config, Fresh, unauthorized, revoke, is_live_of,
  AuthResponse,
}
use empyrean_v2_backend.Tokens.Session.{save_user, revoke_where}
use empyrean_v2_backend.Tokens.Reset.{
  is_unused, is_unused_of, has_reset_hash, use_at, has_email, supersede, forgot_password, redeem,
  reset_password,
}

-- The row that was written is the row that is read.
pub find-save :
    (u : User) (users : List User) (v : User)
    → find (has_user_id u.id) users ≡ some v
    → find (has_user_id u.id) (update_where (has_user_id u.id) (λ _. u) users) ≡ some u
find-save u [] v h = absurd (ground arith)
find-save u (x ∷ users) v h = elim (Bool-cases (x.id == u.id)) [
  | inl e ↦ rw e ground arith
  | inr e ↦ rw (e, e) (find-save u users v (ground (arith, e)))
]

pub count-revoke_live :
    (id : ℕ) (rows : List RefreshToken)
    → count (is_live_of id) (update_where (is_live_of id) revoke rows) ≡ 0
count-revoke_live id [] = refl
count-revoke_live id (t ∷ rows) = ground (arith, count-revoke_live id rows)

keep-use :
    (h now : ℕ) (rows : List PasswordResetToken)
    → keep (has_reset_hash h) (update_where (has_reset_hash h) (use_at now) rows)
      ≡ update_where (has_reset_hash h) (use_at now) (keep (has_reset_hash h) rows)
keep-use h now [] = refl
keep-use h now (t ∷ rows) = elim (Bool-cases (t.token_hash == h)) [
  | inl e ↦ rw (e, e, keep-use h now rows) refl
  | inr e ↦ rw (e, e, keep-use h now rows) refl
]

keep_head :
    (h : ℕ) (rows : List PasswordResetToken) (t : PasswordResetToken)
    → keep (has_reset_hash h) rows ≡ t ∷ []
    → t.token_hash ≡ h
keep_head h rows t e =
    let holds = subst (All (λ x. has_reset_hash h x ≡ true)) e (All-keep (has_reset_hash h) rows) in
    ground (arith, holds.0)

keep-use_head :
    (h now : ℕ) (rows : List PasswordResetToken) (t : PasswordResetToken)
    → keep (has_reset_hash h) rows ≡ t ∷ []
    → keep (has_reset_hash h) (update_where (has_reset_hash t.token_hash) (use_at now) rows)
      ≡ use_at now t ∷ []
keep-use_head h now rows t e =
    let head = keep_head h rows t e in rw (head, keep-use h now rows, e) ground (arith, head)

module _ (sha : ℕ → ℕ) (now pwd_hash raw : ℕ) (db : Db) (t : PasswordResetToken) where
  reset_password_done :
      (u : User)
      → keep (has_reset_hash (sha raw)) db.reset_tokens ≡ t ∷ []
      → is_unused t ≡ true
      → now < t.expires_at
      → find (has_user_id t.user_id) db.users ≡ some u
      → u.is_active ≡ true
      → reset_password sha now pwd_hash raw db ≡ (redeem now pwd_hash t u db, ok tt)
  unfolding reset_password
  reset_password_done u e unused lt f act = ground (arith, e, unused, lt, f, act)

  -- A link that was used is refused.
  reset_password_used :
      keep (has_reset_hash (sha raw)) db.reset_tokens ≡ t ∷ []
      → is_unused t ≡ false
      → reset_password sha now pwd_hash raw db ≡ (db, err unauthorized)
  unfolding reset_password
  reset_password_used e used = ground (arith, e, used)

-- A reset link works once. Where one row has its hash, unused and not expired, its user is active
-- and Redis is up, the request sets the new password, ends every session of the user and evicts the
-- cached row, and the same link is refused afterwards, with nothing changed.
pub reset_password_once :
    (sha : ℕ → ℕ) (now later pwd_hash pwd_hash' raw : ℕ) (db : Db) (t : PasswordResetToken)
    (u : User)
    → keep (has_reset_hash (sha raw)) db.reset_tokens ≡ t ∷ []
    → is_unused t ≡ true
    → now < t.expires_at
    → find (has_user_id t.user_id) db.users ≡ some u
    → u.is_active ≡ true
    → db.redis.up ≡ true
    → let (db', r) = reset_password sha now pwd_hash raw db in
      (r ≡ ok tt)
      × (find (has_user_id u.id) db'.users ≡ some (record u { password_hash = some pwd_hash }))
      × (count (is_live_of u.id) db'.refresh_tokens ≡ 0)
      × (live later u.id db'.redis.user_cache ≡ none)
      × (reset_password sha later pwd_hash' raw db' ≡ (db', err unauthorized))
unfolding redeem save_user revoke_where
reset_password_once sha now later pwd_hash pwd_hash' raw db t u e unused lt f act up =
    let db' = redeem now pwd_hash t u db in
    let same = find_holds (has_user_id t.user_id) db.users u f in
    let row : find (has_user_id u.id) db.users ≡ some u =
      subst (λ i. find (has_user_id i) db.users ≡ some u) (ground (arith, same)) f in
    let used : keep (has_reset_hash (sha raw)) db'.reset_tokens ≡ use_at now t ∷ [] =
      keep-use_head (sha raw) now db.reset_tokens t e in
    rw (reset_password_done sha now pwd_hash raw db t u e unused lt f act) (
      refl,
      find-save (record u { password_hash = some pwd_hash }) db.users u row,
      count-revoke_live u.id db.refresh_tokens,
      live-invalidate later u.id db.redis up,
      reset_password_used sha later pwd_hash' raw db' (use_at now t) used refl,
    )

count-use_unused :
    (id now : ℕ) (rows : List PasswordResetToken)
    → count (is_unused_of id) (update_where (is_unused_of id) (use_at now) rows) ≡ 0
count-use_unused id now [] = refl
count-use_unused id now (t ∷ rows) = elim (Bool-cases (is_unused_of id t)) [
  | inl e ↦ rw e ground (arith, count-use_unused id now rows)
  | inr e ↦ rw (e, e) (count-use_unused id now rows)
]

-- The new link is the only one that is unused.
count-supersede :
    (sha : ℕ → ℕ) (cfg : Config) (now raw : ℕ) (u : User) (db : Db)
    → (count (is_unused_of u.id) (supersede sha cfg now raw u db).reset_tokens ≡ 1)
      × (count
            (λ t. is_unused_of u.id t && has_reset_hash (sha raw) t)
            (supersede sha cfg now raw u db).reset_tokens
          ≡ 1)
unfolding supersede
count-supersede sha cfg now raw u db =
    let old = update_where (is_unused_of u.id) (use_at now) db.reset_tokens in
    let new : PasswordResetToken = record {
      user_id = u.id;
      token_hash = sha raw;
      expires_at = now + cfg.reset_minutes * 60000;
      used_at = none;
    } in
    let both : PasswordResetToken → Bool = λ t. is_unused_of u.id t && has_reset_hash (sha raw) t in
    let unused = count-use_unused u.id now db.reset_tokens in
    let fewer = count_mono both (is_unused_of u.id) old (λ t e. ground arith) in
    (
      ground (arith, count-append (is_unused_of u.id) old (new ∷ []), unused),
      ground (arith, count-append both old (new ∷ []), fewer, unused),
    )

-- A request for an active user's email supersedes every link that was sent before: the only unused
-- token of the user is the new one, whose raw text goes to that email. For every other email nothing
-- is sent and nothing changes.
pub forgot_password_supersedes :
    (sha : ℕ → ℕ) (cfg : Config) (now raw email : ℕ) (db : Db)
    → let (db', sent) = forgot_password sha cfg now raw email db in
      ((u : User) × (find (has_email email) db.users ≡ some u)
        × (u.is_active ≡ true)
        × (sent ≡ some (email, raw))
        × (count (is_unused_of u.id) db'.reset_tokens ≡ 1)
        × (count (λ t. is_unused_of u.id t && has_reset_hash (sha raw) t) db'.reset_tokens ≡ 1))
      ⊎ ((sent ≡ none) × (db' ≡ db))
unfolding forgot_password supersede
forgot_password_supersedes sha cfg now raw email db =
    elim (Option-cases (find (has_email email) db.users)) [
      | inl e ↦ inr (rw (e, forgot_password) (refl, refl))
      | inr (u, e) ↦ elim (Bool-cases u.is_active) [
        | inr n ↦ inr (rw (e, forgot_password, n) (refl, refl))
        | inl y ↦ inl (
          u,
          e,
          y,
          ground (arith, e, y, find_holds (has_email email) db.users u e),
          rw (e, forgot_password, y) (count-supersede sha cfg now raw u db).0,
          rw (e, forgot_password, y) (count-supersede sha cfg now raw u db).1,
        )
      ]
    ]

-- What a login gives to a user: an access token of the user, with the user's role, that ends when the
-- configuration says, a refresh token, and the row with the time of the login.
abbrev pub IsIssued : Config → ℕ → Fresh → User → AuthResponse → Type 0
IsIssued cfg now fresh u a =
    (a.access_token.sub ≡ integer (pos u.id))
    × (a.access_token.role ≡ some u.role)
    × (a.access_token.is_access ≡ true)
    × (a.access_token.jti ≡ some fresh.jti)
    × (a.access_token.exp ≡ some (now / 1000 + cfg.access_minutes * 60))
    × (a.refresh_token ≡ fresh.raw)
    × (a.user ≡ record u { last_login_at = some now })

-- A row for a refresh token that the user can show: not revoked, and good for the days that the
-- configuration says, less the fraction of the second.
abbrev pub IsLiveFor : (ℕ → ℕ) → Config → ℕ → Fresh → User → RefreshToken → Type 0
IsLiveFor sha cfg now fresh u t =
    (t.user_id ≡ u.id)
    × (t.token_hash ≡ sha fresh.raw)
    × (t.revoked ≡ false)
    × (t.expires_at ≤ now + cfg.refresh_days * 86400000)
    × (now + cfg.refresh_days * 86400000 < t.expires_at + 1000)
