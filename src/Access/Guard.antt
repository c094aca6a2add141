-- ===== src/Access/Guard.antt =====
-- Tokens and decorators of api/jwt.py. `decode` stands for `pyjwt.decode` with the configured secret:
-- it gives the claims of a token that is signed, not expired at the time, and has `sub` and `exp`.
use empyrean_v2_backend.Base.{
  ℕ, ◌+◌, ◌-◌, ◌*◌, ◌/◌, ◌==◌, Bool, true, false, ◌&&◌, ◌||◌, List, [], ◌∷◌, Option, none, some,
  leb, max, if◌then◌else◌, Result, ok, err, ◌>>=◌,
}
use empyrean_v2_backend.Base.Int.{ℤ, pos, negsuc}
use empyrean_v2_backend.Access.Store.{
  Role, admin, user, other_role, User, Redis, live, set_entry, get_user_cached,
}

-- The JSON value of the claim `sub`.
pub data Subject : Type 0 where
  absent other : Subject
  integer : ℤ → Subject
  boolean : Bool → Subject

pub record Claims : Type 0 where
  pub sub : Subject
  -- none if absent
  pub role : Option Role
  -- whether `type` is "access"
  pub is_access : Bool
  -- none if absent or empty
  pub jti : Option ℕ
  -- seconds; none if absent or zero
  pub exp : Option ℕ

pub data JwtError : Type 0 where
  expired invalid : JwtError

-- The problem responses: 401 with the titles "Unauthorized", "Token expired" and "Invalid token", and
-- 403.
pub data Problem : Type 0 where
  missing_header token_expired token_invalid not_valid forbidden : Problem

abbrev pub Decode : Type 0
Decode = ℕ → List ℕ → Result JwtError Claims

-- `isinstance(sub, int)`, with the number that it stands for: True is 1.
unfoldable pub subject_id : Subject → Option ℤ
subject_id absent = none
subject_id other = none
subject_id (integer i) = some i
subject_id (boolean true) = some (pos 1)
subject_id (boolean false) = some (pos 0)

unfoldable pub is_valid_role : Option Role → Bool
is_valid_role none = false
is_valid_role (some admin) = true
is_valid_role (some user) = true
is_valid_role (some (other_role _)) = false

-- The checks after `pyjwt.decode`, with the subject.
unfoldable pub check_claims : Claims → Result JwtError (Claims × ℤ)
check_claims c =
    if c.is_access
    then elim (subject_id c.sub) [
      | none ↦ err invalid
      | some i ↦ if is_valid_role c.role then ok (c, i) else err invalid
    ]
    else err invalid

unfoldable pub decode_access_token : Decode → ℕ → List ℕ → Result JwtError (Claims × ℤ)
decode_access_token decode now token = do c ← decode now token; check_claims c

-- The claims of `create_access_token`, before they are signed.
unfoldable pub access_claims : ℕ → ℕ → ℕ → Role → ℕ → Claims
access_claims now expiry_minutes user_id role jti = record {
  sub = integer (pos user_id);
  role = some role;
  is_access = true;
  jti = some jti;
  exp = some (now / 1000 + expiry_minutes * 60);
}

-- The blocklist lifetime in seconds: what is left of the token's, cut to whole seconds, and at least
-- one; an hour for a token with no expiry.
unfoldable pub blocklist_ttl : ℕ → Option ℕ → ℕ
blocklist_ttl now none = 3600
blocklist_ttl now (some exp) = max ((exp * 1000 - now) / 1000) 1

unfoldable pub revoke_access_token : ℕ → Claims → Redis → Redis
revoke_access_token now c r = elim c.jti [
  | none ↦ r
  | some jti ↦
      if r.up
      then record r {
        blocklist = set_entry jti tt (now + 1000 * blocklist_ttl now c.exp) r.blocklist;
      }
      else r
]

unfoldable pub is_token_revoked : ℕ → Option ℕ → Redis → Bool
is_token_revoked now none r = false
is_token_revoked now (some jti) r =
    if r.up then elim (live now jti r.blocklist) [ none ↦ false | some _ ↦ true ] else false

-- `str.lower` on ASCII letters, and white space as `str.strip` removes it.
abbrev pub lower : ℕ → ℕ
lower c = if leb b'A' c && leb c b'Z' then c + 32 else c

abbrev pub is_space : ℕ → Bool
is_space c = (leb 9 c && leb c 13) || ((leb 28 c && leb c 32) || ((c == 133) || (c == 160)))

unfoldable pub lstrip : List ℕ → List ℕ
lstrip [] = []
lstrip (c ∷ cs) = let rest = lstrip cs in if is_space c then rest else c ∷ cs

unfoldable pub rstrip : List ℕ → List ℕ
rstrip [] = []
rstrip (c ∷ cs) =
    let rest = rstrip cs in
    elim rest [ [] ↦ if is_space c then [] else c ∷ [] | d ∷ ds ↦ c ∷ d ∷ ds ]

-- The rest of a text after a prefix, compared in lower case.
unfoldable pub after_prefix : List ℕ → List ℕ → Option (List ℕ)
after_prefix [] s = some s
after_prefix (p ∷ ps) [] = none
after_prefix (p ∷ ps) (c ∷ cs) =
    let rest = after_prefix ps cs in if lower c == p then rest else none

-- "bearer "
abbrev pub bearer : List ℕ
bearer = b'b' ∷ b'e' ∷ b'a' ∷ b'r' ∷ b'e' ∷ b'r' ∷ b' ' ∷ []

-- The token of an Authorization header; an absent header is empty.
unfoldable pub bearer_token : List ℕ → Option (List ℕ)
unfolding lstrip rstrip after_prefix
bearer_token auth = elim (after_prefix bearer auth) [
  | none ↦ none
  | some t ↦ some (lstrip (rstrip t))
]

-- The user row for a subject; no row has a negative id.
unfoldable pub user_for : ℕ → ℤ → List User → Redis → Option User × Redis
user_for now (pos i) users r = get_user_cached now i users r
user_for now (negsuc i) users r = (none, r)

-- `_authenticate_user` after the header has given a token that decodes.
unfoldable pub admit : ℕ → Claims × ℤ → List User → Redis → Result Problem User × Redis
admit now (c, sub) users r =
    if is_token_revoked now c.jti r
    then (err token_invalid, r)
    else let (found, r') = user_for now sub users r in
      elim found [
        | none ↦ (err not_valid, r')
        | some u ↦ if u.is_active then (ok u, r') else (err not_valid, r')
      ]

abbrev pub decode_problem : JwtError → Problem
decode_problem expired = token_expired
decode_problem invalid = token_invalid

unfoldable pub authenticate_user :
    Decode → ℕ → List ℕ → List User → Redis → Result Problem User × Redis
authenticate_user decode now auth users r = elim (bearer_token auth) [
  | none ↦ (err missing_header, r)
  | some token ↦ elim (decode_access_token decode now token) [
    | err e ↦ (err (decode_problem e), r)
    | ok claims ↦ admit now claims users r
  ]
]

-- The decorator `jwt_required` in front of a handler.
unfoldable pub jwt_required {ℓ} :
    {A : Type ℓ} → Decode → ℕ → List ℕ → List User → (User → A) → (Problem → A) → Redis → A × Redis
jwt_required decode now auth users handler refuse r =
    let (outcome, r') = authenticate_user decode now auth users r in
    elim outcome [ ok u ↦ (handler u, r') | err p ↦ (refuse p, r') ]

abbrev pub is_admin : Role → Bool
is_admin admin = true
is_admin user = false
is_admin (other_role _) = false

-- The decorator `admin_required`: `current` is what `g.current_user` holds.
unfoldable pub admin_required {ℓ} :
    {A : Type ℓ}
    → Decode
    → ℕ
    → List ℕ
    → List User
    → Option User
    → (User → A)
    → (Problem → A)
    → Redis
    → A × Redis
admin_required decode now auth users current handler refuse r =
    let known : Result Problem User × Redis = elim current [
      | some u ↦ (ok u, r)
      | none ↦ authenticate_user decode now auth users r
    ] in
    let (outcome, r') = known in
    elim outcome [
      | err p ↦ (refuse p, r')
      | ok u ↦ if is_admin u.role then (handler u, r') else (refuse forbidden, r')
    ]
