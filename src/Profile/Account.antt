-- ===== src/Profile/Account.antt =====
-- Changing the password and deactivating the account (api/profile.py, `change_password` and
-- `delete_profile`), behind `jwt_required`, which gives the id of the user. `checkpw` stands for
-- bcrypt.checkpw; the hash of the new password is an argument.
use empyrean_v2_backend.Base.{
  ℕ, Bool, false, List, none, some, find, if◌then◌else◌, Result, ok, err,
}
use empyrean_v2_backend.Access.Store.{User, has_user_id, invalidate_user_cache}
use empyrean_v2_backend.Access.Guard.{Decode}
use empyrean_v2_backend.Tokens.Store.{Db, is_live_of}
use empyrean_v2_backend.Tokens.Session.{save_user, revoke_where, logout_access}

-- 404 and 401.
pub data Problem : Type 0 where
  not_found wrong_password : Problem

-- The transaction of both routes: the row is written, and the user's refresh tokens are revoked;
-- after it the cached row is evicted.
unfoldable pub save_and_revoke : User → Db → Db
save_and_revoke u db =
    let revoked = revoke_where (is_live_of u.id) (save_user u db) in
    record revoked { redis = invalidate_user_cache u.id db.redis }

-- `change_password`; the access token of the header `auth` is revoked as far as it decodes.
unfoldable pub change_password :
    (ℕ → ℕ → Bool) → Decode → ℕ → List ℕ → ℕ → ℕ → ℕ → Db → Db × Result Problem (Unit {0})
change_password checkpw decode now auth user_id current pwd_hash db =
    elim (find (has_user_id user_id) db.users) [
      | none ↦ (db, err not_found)
      | some u ↦ elim u.password_hash [
        | none ↦ (db, err not_found)
        | some h ↦
            if checkpw current h
            then (let saved = save_and_revoke (record u { password_hash = some pwd_hash }) db in
                (record saved { redis = logout_access decode now auth saved.redis }, ok tt))
            else (db, err wrong_password)
      ]
    ]

-- `delete_profile`
unfoldable pub delete_profile : ℕ → Db → Db × Result Problem (Unit {0})
delete_profile user_id db = elim (find (has_user_id user_id) db.users) [
  | none ↦ (db, err not_found)
  | some u ↦ (save_and_revoke (record u { is_active = false }) db, ok tt)
]
