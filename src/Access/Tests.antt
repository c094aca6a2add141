-- ===== src/Access/Tests.antt =====
-- Tests of the guards, and their theorems at concrete tokens.
use empyrean_v2_backend.Base.{
  ℕ, ◌-◌, ◌*◌, ◌≡◌, refl, arith, true, false, List, [], ◌∷◌, none, some, ok, err,
}
use empyrean_v2_backend.Base.Int.{pos}
use empyrean_v2_backend.Access.Store.{User, admin, Redis, live, get_user_cached}
use empyrean_v2_backend.Access.Guard.{
  Claims, Subject, token_invalid, is_token_revoked, revoke_access_token, is_valid_role, subject_id,
  admit, Decode, authenticate_user, bearer_token, lstrip, rstrip, after_prefix, decode_access_token,
  check_claims, user_for, admin_required,
}
use empyrean_v2_backend.Access.Revocation.{revoke_refuses, revocation_gap}
use empyrean_v2_backend.Access.Protection.{IsAdmitted, authenticate_user_sound}

abbrev root : User
root = record {
  id = 3;
  username = 11;
  email = 12;
  password_hash = some 99;
  role = admin;
  is_active = true;
  last_login_at = none;
}

abbrev redis : Redis
redis = record { up = true; blocklist = []; user_cache = [] }

abbrev claims : Claims
claims = record {
  sub = Subject.integer (pos 3);
  role = some admin;
  is_access = true;
  jti = some 40;
  exp = some 1000;
}

abbrev decode : Decode
decode now token = ok claims

-- " " and "x" around a "Bearer "
abbrev header : List ℕ
header = b'B' ∷ b'e' ∷ b'a' ∷ b'r' ∷ b'e' ∷ b'r' ∷ b' ' ∷ b' ' ∷ b'x' ∷ b' ' ∷ []

header-bearer_token : bearer_token header ≡ some (b'x' ∷ [])
unfolding bearer_token lstrip rstrip after_prefix
header-bearer_token = refl

root_is_let_in : (authenticate_user decode 500 header (root ∷ []) redis).0 ≡ ok root
unfolding authenticate_user bearer_token lstrip rstrip after_prefix decode_access_token check_claims
    is_valid_role subject_id admit is_token_revoked user_for get_user_cached live
root_is_let_in = refl

root_is_admin :
    (admin_required decode 500 header (root ∷ []) none some (λ p. none) redis).0 ≡ some root
unfolding admin_required authenticate_user bearer_token lstrip rstrip after_prefix
    decode_access_token check_claims is_valid_role subject_id admit is_token_revoked user_for
    get_user_cached live
root_is_admin = refl

revoke_refuses_example :
    let r' = revoke_access_token 500 claims redis in
    admit 990000 (claims, pos 3) (root ∷ []) r' ≡ (err token_invalid, r')
revoke_refuses_example =
    revoke_refuses 500 990000 40 1000 claims claims (pos 3) (root ∷ []) redis refl refl refl refl
      (omega arith)

revocation_gap_example :
    is_token_revoked (1000 * 1000 - 1) (some 40) (revoke_access_token 500 claims redis) ≡ false
revocation_gap_example =
    revocation_gap 500 40 1000 claims redis refl refl (omega arith) (omega arith) refl

authenticate_user_sound_example : IsAdmitted decode 500 header redis root
authenticate_user_sound_example =
    authenticate_user_sound decode 500 header (root ∷ []) redis root root_is_let_in

redis-live : (t : ℕ) → live t 3 redis.user_cache ≡ none
unfolding live
redis-live t = refl
