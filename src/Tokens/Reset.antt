-- ===== src/Tokens/Reset.antt =====
-- The forgotten password (api/auth.py: `forgot_password`, `reset_password`).
use empyrean_v2_backend.Base.{
  ℕ, ◌+◌, ◌*◌, ◌==◌, Bool, true, false, ◌&&◌, ◌||◌, not, [], ◌∷◌, ◌++◌, Option, none, some, find,
  keep, update_where, leb, if◌then◌else◌, Result, ok, err,
}
use empyrean_v2_backend.Access.Store.{User, has_user_id, invalidate_user_cache}
use empyrean_v2_backend.Tokens.Store.{
  PasswordResetToken, Db, Config, Failure, unauthorized, scalar_one_or_none, is_live_of,
}
use empyrean_v2_backend.Tokens.Session.{save_user, revoke_where}

abbrev pub is_unused : PasswordResetToken → Bool
is_unused t = elim t.used_at [ none ↦ true | some _ ↦ false ]

abbrev pub is_unused_of : ℕ → PasswordResetToken → Bool
is_unused_of id t = (t.user_id == id) && is_unused t

abbrev pub has_reset_hash : ℕ → PasswordResetToken → Bool
has_reset_hash h t = t.token_hash == h

abbrev pub use_at : ℕ → PasswordResetToken → PasswordResetToken
use_at now t = record t { used_at = some now }

abbrev pub has_email : ℕ → User → Bool
has_email email u = u.email == email

-- The user's open tokens are superseded by a new one.
unfoldable pub supersede : (ℕ → ℕ) → Config → ℕ → ℕ → User → Db → Db
supersede sha cfg now raw u db = record db {
  reset_tokens =
      update_where (is_unused_of u.id) (use_at now) db.reset_tokens
      ++ (record {
        user_id = u.id;
        token_hash = sha raw;
        expires_at = now + cfg.reset_minutes * 60000;
        used_at = none;
      }
          ∷ []);
}

-- The database after the request, and the email that is sent: the address and the raw token of the
-- link. The response is the same 202 in every case.
unfoldable pub forgot_password : (ℕ → ℕ) → Config → ℕ → ℕ → ℕ → Db → Db × Option (ℕ × ℕ)
forgot_password sha cfg now raw email db = elim (find (has_email email) db.users) [
  | none ↦ (db, none)
  | some u ↦
      if u.is_active then (supersede sha cfg now raw u db, some (u.email, raw)) else (db, none)
]

-- The writes of a redeemed token.
unfoldable pub redeem : ℕ → ℕ → PasswordResetToken → User → Db → Db
redeem now pwd_hash t u db =
    let saved = save_user (record u { password_hash = some pwd_hash }) db in
    let revoked = revoke_where (is_live_of u.id) saved in
    record revoked {
      reset_tokens = update_where (has_reset_hash t.token_hash) (use_at now) db.reset_tokens;
      redis = invalidate_user_cache u.id db.redis;
    }

unfoldable pub reset_password : (ℕ → ℕ) → ℕ → ℕ → ℕ → Db → Db × Result Failure (Unit {0})
reset_password sha now pwd_hash raw db =
    elim (scalar_one_or_none (keep (has_reset_hash (sha raw)) db.reset_tokens)) [
      | err e ↦ (db, err e)
      | ok none ↦ (db, err unauthorized)
      | ok (some t) ↦
          if not (is_unused t) || leb t.expires_at now
          then (db, err unauthorized)
          else elim (find (has_user_id t.user_id) db.users) [
            | none ↦ (db, err unauthorized)
            | some u ↦
                if u.is_active then (redeem now pwd_hash t u db, ok tt) else (db, err unauthorized)
          ]
    ]
