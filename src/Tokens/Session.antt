-- ===== src/Tokens/Session.antt =====
-- Registering, logging in, refreshing and logging out (api/auth.py). `checkpw` stands for
-- bcrypt.checkpw and `decode` for pyjwt.decode; the hash of a new password is an argument.
use empyrean_v2_backend.Base.{
  ℕ, ◌+◌, ◌==◌, Bool, true, ◌&&◌, ◌||◌, List, [], ◌∷◌, ◌++◌, Option, none, some, find, keep,
  update_where, if◌then◌else◌, Result, ok, err,
}
use empyrean_v2_backend.Access.Store.{
  Role, admin, user, User, Redis, has_user_id, invalidate_user_cache,
}
use empyrean_v2_backend.Access.Guard.{
  Decode, is_admin, bearer_token, decode_access_token, revoke_access_token,
}
use empyrean_v2_backend.Tokens.Store.{
  RefreshToken, Db, Config, Fresh, AuthResponse, Failure, unauthorized, conflict, server_error,
  auth_payload, new_refresh_token, add_refresh_token, issue_auth_tokens, scalar_one_or_none, revoke,
  claimable, is_reused, is_open, belongs_to,
}

-- The username and the email of a user are unique columns.
abbrev pub is_taken : ℕ → ℕ → User → Bool
is_taken username email u = (u.username == username) || (u.email == email)

abbrev pub has_username : ℕ → User → Bool
has_username username u = u.username == username

-- Writes a user's row back.
unfoldable pub save_user : User → Db → Db
save_user u db = record db { users = update_where (has_user_id u.id) (λ _. u) db.users }

unfoldable pub new_user : ℕ → ℕ → ℕ → ℕ → Role → User
new_user id username email pwd_hash role = record {
  id = id;
  username = username;
  email = email;
  password_hash = some pwd_hash;
  role = role;
  is_active = true;
  last_login_at = none;
}

unfoldable pub add_user : User → Db → Db
add_user u db = record db { users = db.users ++ (u ∷ []) }

-- `id` is the id that the database gives to the new row.
unfoldable pub register :
    (ℕ → ℕ) → Config → ℕ → Fresh → ℕ → ℕ → ℕ → ℕ → Db → Db × Result Failure AuthResponse
register sha cfg now fresh id username email pwd_hash db =
    elim (find (is_taken username email) db.users) [
      | some _ ↦ (db, err conflict)
      | none ↦
          let u = new_user id username email pwd_hash user in
          issue_auth_tokens sha cfg now fresh u (add_user u db)
    ]

unfoldable pub login :
    (ℕ → ℕ) → (ℕ → ℕ → Bool) → Config → ℕ → Fresh → ℕ → ℕ → Db → Db × Result Failure AuthResponse
login sha checkpw cfg now fresh username password db =
    elim (find (has_username username) db.users) [
      | none ↦ (db, err unauthorized)
      | some u ↦ elim u.password_hash [
        | none ↦ (db, err server_error)
        | some h ↦
            let seen = record u { last_login_at = some now } in
            let in_ = issue_auth_tokens sha cfg now fresh seen (save_user seen db) in
            if checkpw password h
            then (if u.is_active then in_ else (db, err unauthorized))
            else (db, err unauthorized)
      ]
    ]

-- UPDATE refresh_tokens SET revoked = true WHERE …
unfoldable pub revoke_where : (RefreshToken → Bool) → Db → Db
revoke_where p db = record db { refresh_tokens = update_where p revoke db.refresh_tokens }

-- `_record_token_reuse`
unfoldable pub record_token_reuse : Db → Db
record_token_reuse db = if db.redis.up then record db { reuse_total = db.reuse_total + 1 } else db

-- No row was claimed: a token that is revoked already is a theft signal.
unfoldable pub reject_refresh : ℕ → Db → Db × Result Failure AuthResponse
reject_refresh h db = elim (scalar_one_or_none (keep (is_reused h) db.refresh_tokens)) [
  | err e ↦ (db, err e)
  | ok none ↦ (db, err unauthorized)
  | ok (some t) ↦ (record_token_reuse (revoke_where (belongs_to t.user_id) db), err unauthorized)
]

-- A row was claimed, and stands revoked in the database that is passed.
unfoldable pub rotate :
    (ℕ → ℕ) → Config → ℕ → Fresh → RefreshToken → Db → Db × Result Failure AuthResponse
rotate sha cfg now fresh t db = elim (find (has_user_id t.user_id) db.users) [
  | none ↦ (db, err unauthorized)
  | some u ↦
      if u.is_active
      then (
        add_refresh_token (new_refresh_token sha cfg now fresh u) db,
        ok (auth_payload cfg now fresh u),
      )
      else (db, err unauthorized)
]

unfoldable pub refresh : (ℕ → ℕ) → Config → ℕ → Fresh → ℕ → Db → Db × Result Failure AuthResponse
refresh sha cfg now fresh raw db = elim (keep (claimable (sha raw) now) db.refresh_tokens) [
  | [] ↦ reject_refresh (sha raw) db
  | t ∷ _ ↦ rotate sha cfg now fresh t (revoke_where (claimable (sha raw) now) db)
]

-- The second half of `logout`: the access token of the header, as far as it decodes.
unfoldable pub logout_access : Decode → ℕ → List ℕ → Redis → Redis
logout_access decode now auth r = elim (bearer_token auth) [
  | none ↦ r
  | some token ↦ elim (decode_access_token decode now token) [
    | err _ ↦ r
    | ok (c, _) ↦ revoke_access_token now c r
  ]
]

-- The answer is 204, unless two rows share a hash.
unfoldable pub logout : (ℕ → ℕ) → Decode → ℕ → List ℕ → ℕ → Db → Db × Result Failure (Unit {0})
logout sha decode now auth raw db =
    elim (scalar_one_or_none (keep (is_open (sha raw)) db.refresh_tokens)) [
      | err e ↦ (db, err e)
      | ok none ↦ (record db { redis = logout_access decode now auth db.redis }, ok tt)
      | ok (some _) ↦
          let db' = revoke_where (is_open (sha raw)) db in
          (record db' { redis = logout_access decode now auth db.redis }, ok tt)
    ]

-- `ensure_hardcoded_admin` with the credentials of the configuration, if there are any. `lower`
-- stands for `str.lower` and the database's `lower` on names.
unfoldable pub ensure_hardcoded_admin :
    (ℕ → ℕ) → ℕ → Option (ℕ × ℕ × ℕ) → Db → Db × Result Failure (Option User)
ensure_hardcoded_admin lower id none db = (db, ok none)
ensure_hardcoded_admin lower id (some (username, pwd_hash, email)) db =
    elim (find (has_username username) db.users) [
      | none ↦ elim (scalar_one_or_none (keep (λ u. lower u.username == lower username) db.users)) [
        | err e ↦ (db, err e)
        | ok (some _) ↦ (db, ok none)
        | ok none ↦
            let u = new_user id username email pwd_hash admin in
            elim (find (λ v. v.email == email) db.users) [
              | some _ ↦ (db, err server_error)
              | none ↦ (add_user u db, ok (some u))
            ]
      ]
      | some u ↦
          let promoted = record u { role = admin; is_active = true } in
          let saved = save_user promoted db in
          let evicted = record saved { redis = invalidate_user_cache u.id db.redis } in
          let is_right = is_admin u.role && u.is_active in
          if is_right then (db, ok (some u)) else (evicted, ok (some promoted))
    ]
