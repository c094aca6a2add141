-- ===== src/Tokens/Store.antt =====
-- The tables that api/auth.py works on (models/refresh_token.py, models/password_reset_token.py), and
-- what Redis keeps for it. Times are milliseconds, texts that are only compared are numbers. `sha`
-- stands for hashlib.sha256.
use empyrean_v2_backend.Base.{
  ℕ, ◌+◌, ◌*◌, ◌/◌, ◌==◌, Bool, true, false, ◌&&◌, not, List, [], ◌∷◌, ◌++◌, Option, none, some,
  ltb, Result, ok, err,
}
use empyrean_v2_backend.Access.Store.{User, Redis}
use empyrean_v2_backend.Access.Guard.{Claims, access_claims}

pub record RefreshToken : Type 0 where
  pub user_id : ℕ
  pub token_hash : ℕ
  pub expires_at : ℕ
  pub revoked : Bool

pub record PasswordResetToken : Type 0 where
  pub user_id : ℕ
  pub token_hash : ℕ
  pub expires_at : ℕ
  pub used_at : Option ℕ

-- `reuse_total` is the counter `auth:refresh_token_reuse_total`.
pub record Db : Type 0 where
  pub users : List User
  pub refresh_tokens : List RefreshToken
  pub reset_tokens : List PasswordResetToken
  pub redis : Redis
  pub reuse_total : ℕ

pub record Config : Type 0 where
  pub access_minutes : ℕ
  pub refresh_days : ℕ
  pub reset_minutes : ℕ

-- What `secrets` gives a request: a raw token and the id of an access token.
pub record Fresh : Type 0 where
  pub raw : ℕ
  pub jti : ℕ

-- `AuthResponse`, with the claims of the access token in place of their signed text.
pub record AuthResponse : Type 0 where
  pub access_token : Claims
  pub refresh_token : ℕ
  pub expires_in : ℕ
  pub user : User

-- 401, 409, and an exception that no handler catches.
pub data Failure : Type 0 where
  unauthorized conflict server_error : Failure

-- `_refresh_expiry`: the fraction of the second is dropped.
unfoldable pub refresh_expiry : ℕ → Config → ℕ
refresh_expiry now cfg = (now / 1000) * 1000 + cfg.refresh_days * 86400000

unfoldable pub auth_payload : Config → ℕ → Fresh → User → AuthResponse
auth_payload cfg now fresh u = record {
  access_token = access_claims now cfg.access_minutes u.id u.role fresh.jti;
  refresh_token = fresh.raw;
  expires_in = cfg.access_minutes * 60;
  user = u;
}

-- The row that `_issue_auth_tokens` and `refresh` insert.
unfoldable pub new_refresh_token : (ℕ → ℕ) → Config → ℕ → Fresh → User → RefreshToken
new_refresh_token sha cfg now fresh u = record {
  user_id = u.id;
  token_hash = sha fresh.raw;
  expires_at = refresh_expiry now cfg;
  revoked = false;
}

unfoldable pub add_refresh_token : RefreshToken → Db → Db
add_refresh_token t db = record db { refresh_tokens = db.refresh_tokens ++ (t ∷ []) }

-- `_issue_auth_tokens`
unfoldable pub issue_auth_tokens :
    (ℕ → ℕ) → Config → ℕ → Fresh → User → Db → Db × Result Failure AuthResponse
issue_auth_tokens sha cfg now fresh u db = (
  add_refresh_token (new_refresh_token sha cfg now fresh u) db,
  ok (auth_payload cfg now fresh u),
)

-- SQLAlchemy's `scalar_one_or_none` raises MultipleResultsFound on two rows or more.
abbrev pub scalar_one_or_none : {A : Type 0} → List A → Result Failure (Option A)
scalar_one_or_none [] = ok none
scalar_one_or_none (x ∷ []) = ok (some x)
scalar_one_or_none (x ∷ y ∷ ys) = err server_error

abbrev pub revoke : RefreshToken → RefreshToken
revoke t = record t { revoked = true }

-- The conditions of the statements on refresh tokens.
abbrev pub has_hash : ℕ → RefreshToken → Bool
has_hash h t = t.token_hash == h

abbrev pub claimable : ℕ → ℕ → RefreshToken → Bool
claimable h now t = (t.token_hash == h) && (not t.revoked && ltb now t.expires_at)

abbrev pub is_reused : ℕ → RefreshToken → Bool
is_reused h t = (t.token_hash == h) && t.revoked

abbrev pub is_open : ℕ → RefreshToken → Bool
is_open h t = (t.token_hash == h) && not t.revoked

abbrev pub belongs_to : ℕ → RefreshToken → Bool
belongs_to id t = t.user_id == id

abbrev pub is_live_of : ℕ → RefreshToken → Bool
is_live_of id t = (t.user_id == id) && not t.revoked
