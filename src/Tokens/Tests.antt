-- ===== src/Tokens/Tests.antt =====
-- Tests of the account routes, and their theorems at a small database.
use empyrean_v2_backend.Base.{
  ℕ, ◌+◌, ◌≡◌, refl, arith, Bool, true, false, [], ◌∷◌, none, some, ok, err, count, find, ◌==◌,
}
use empyrean_v2_backend.Access.Store.{User, admin, user, live, has_user_id}
use empyrean_v2_backend.Access.Guard.{Decode, invalid}
use empyrean_v2_backend.Tokens.Store.{
  PasswordResetToken, Db, Config, Fresh, unauthorized, conflict, auth_payload, is_live_of, is_open,
  add_refresh_token, new_refresh_token, refresh_expiry,
}
use empyrean_v2_backend.Tokens.Session.{
  register, refresh, rotate, reject_refresh, revoke_where, logout, new_user, add_user,
  ensure_hardcoded_admin,
}
use empyrean_v2_backend.Tokens.Reset.{reset_password}
use empyrean_v2_backend.Tokens.Rotation.{refresh_replay}
use empyrean_v2_backend.Tokens.Distinct.{IsDistinct}
use empyrean_v2_backend.Tokens.Logout.{logout_ends}
use empyrean_v2_backend.Tokens.Password.{reset_password_once}

abbrev sha : ℕ → ℕ
sha raw = raw + 1000

abbrev checkpw : ℕ → ℕ → Bool
checkpw password h = h == password

abbrev decode : Decode
decode now token = err invalid

abbrev cfg : Config
cfg = record { access_minutes = 15; refresh_days = 30; reset_minutes = 60 }

abbrev ada : User
ada = record {
  id = 1;
  username = 21;
  email = 31;
  password_hash = some 77;
  role = user;
  is_active = true;
  last_login_at = none;
}

abbrev link : PasswordResetToken
link = record { user_id = 1; token_hash = 1008; expires_at = 9000; used_at = none }

abbrev db : Db
db = record {
  users = ada ∷ [];
  refresh_tokens =
      record { user_id = 1; token_hash = 1005; expires_at = 9000; revoked = false }
      ∷ record { user_id = 1; token_hash = 1006; expires_at = 9000; revoked = false }
      ∷ [];
  reset_tokens = link ∷ [];
  redis = record { up = true; blocklist = []; user_cache = [] };
  reuse_total = 0;
}

abbrev fresh : Fresh
fresh = record { raw = 50; jti = 51 }

abbrev fresh' : Fresh
fresh' = record { raw = 60; jti = 61 }

refresh_works : (refresh sha cfg 100 fresh 5 db).1 ≡ ok (auth_payload cfg 100 fresh ada)
unfolding refresh rotate revoke_where add_refresh_token new_refresh_token auth_payload
    refresh_expiry
refresh_works = refl

-- An expired token is refused, and nothing changes.
refresh_expired : refresh sha cfg 9000 fresh 5 db ≡ (db, err unauthorized)
unfolding refresh reject_refresh
refresh_expired = refl

register_conflict : register sha cfg 100 fresh 2 22 31 88 db ≡ (db, err conflict)
unfolding register
register_conflict = refl

admin_is_made :
    (ensure_hardcoded_admin (λ n. n) 2 (some (22, 88, 32)) db).1
    ≡ ok (some (new_user 2 22 32 88 admin))
unfolding ensure_hardcoded_admin add_user new_user
admin_is_made = refl

refresh_replay_example :
    let (db', r) = refresh sha cfg 200 fresh' 5 (refresh sha cfg 100 fresh 5 db).0 in
    (r ≡ err unauthorized) × (count (is_live_of 1) db'.refresh_tokens ≡ 0)
unfolding auth_payload
refresh_replay_example =
    refresh_replay sha cfg 100 200 fresh fresh' 5 db (auth_payload cfg 100 fresh ada) (omega arith)
      (omega arith) refresh_works

db-IsDistinct : IsDistinct db
db-IsDistinct h = ground arith

logout_ends_example :
    let db' = (logout sha decode 100 [] 5 db).0 in
    ((logout sha decode 100 [] 5 db).1 ≡ ok tt)
    × (count (is_open (sha 5)) db'.refresh_tokens ≡ 0)
    × ((refresh sha cfg 200 fresh 5 db').1 ≡ err unauthorized)
logout_ends_example = logout_ends sha decode cfg 100 200 [] fresh 5 db (omega arith)

reset_password_once_example :
    let (db', r) = reset_password sha 100 88 8 db in
    (r ≡ ok tt)
    × (find (has_user_id 1) db'.users ≡ some (record ada { password_hash = some 88 }))
    × (count (is_live_of 1) db'.refresh_tokens ≡ 0)
    × (live 300 1 db'.redis.user_cache ≡ none)
    × (reset_password sha 300 99 8 db' ≡ (db', err unauthorized))
reset_password_once_example =
    reset_password_once sha 100 300 88 99 8 db link ada refl refl (omega arith) refl refl refl
