-- ===== src/Profile/Tests.antt =====
-- Tests of the account routes, and their theorems at a small database.
use empyrean_v2_backend.Base.{
  ℕ, ◌==◌, ◌≡◌, ◌≢◌, refl, Bool, true, false, [], ◌∷◌, none, some, ok, err, count, find,
}
use empyrean_v2_backend.Base.Int.{pos}
use empyrean_v2_backend.Access.Store.{User, user, has_user_id}
use empyrean_v2_backend.Access.Guard.{Decode, Claims, integer, invalid, admit}
use empyrean_v2_backend.Tokens.Store.{Db, is_live_of}
use empyrean_v2_backend.Profile.Account.{wrong_password, not_found, change_password, delete_profile}
use empyrean_v2_backend.Profile.Ended.{delete_profile_ends}

abbrev checkpw : ℕ → ℕ → Bool
checkpw password h = h == password

abbrev decode : Decode
decode now token = err invalid

abbrev grace : User
grace = record {
  id = 4;
  username = 24;
  email = 34;
  password_hash = some 55;
  role = user;
  is_active = true;
  last_login_at = none;
}

abbrev claims : Claims
claims = record {
  sub = integer (pos 4);
  role = some user;
  is_access = true;
  jti = some 9;
  exp = some 900;
}

abbrev db : Db
db = record {
  users = grace ∷ [];
  refresh_tokens =
      (record { user_id = 4; token_hash = 70; expires_at = 5000; revoked = false })
      ∷ ((record { user_id = 6; token_hash = 71; expires_at = 5000; revoked = false }) ∷ []);
  reset_tokens = [];
  redis = record {
    up = true;
    blocklist = [];
    user_cache = (record { key = 4; value = grace; until = 30000 }) ∷ [];
  };
  reuse_total = 0;
}

nobody_is_deleted : delete_profile 5 db ≡ (db, err not_found)
unfolding delete_profile
nobody_is_deleted = refl

delete_profile_ends_example :
    let (db', r) = delete_profile 4 db in
    (r ≡ ok tt)
    × (find (has_user_id 4) db'.users ≡ some (record grace { is_active = false }))
    × (count (is_live_of 4) db'.refresh_tokens ≡ 0)
    × ((admit 200 (claims, pos 4) db'.users db'.redis).0 ≢ ok grace)
delete_profile_ends_example = delete_profile_ends 4 200 grace grace claims db refl refl

password_is_refused : change_password checkpw decode 100 [] 4 56 66 db ≡ (db, err wrong_password)
unfolding change_password
password_is_refused = refl
