-- ===== src/Access/Protection.antt =====
-- Who gets past the decorators (api/jwt.py).
use empyrean_v2_backend.Base.{
  ℕ, ◌+◌, ◌≤◌, ◌≡◌, ◌≢◌, refl, ap, sym, subst, true, false, List, Option, none, some, arith, ok,
  inl, inr, ◌⊎◌, Option-cases, Result-cases, Bool-cases, find, find_holds,
}
use empyrean_v2_backend.Base.Int.{ℤ, pos, negsuc}
use empyrean_v2_backend.Access.Store.{
  User, Role, admin, Redis, live, get_user_cached, invalidate_user_cache, live-del_entry,
  live-set_entry_self, has_user_id, user_cache_ttl, cached,
}
use empyrean_v2_backend.Access.Guard.{
  Claims, is_token_revoked, is_valid_role, subject_id, user_for, admit, Decode, authenticate_user,
  bearer_token, decode_access_token, check_claims, admin_required, is_admin,
}

-- The blocklist has no live entry for the id of a token, if it has one.
abbrev pub IsUnlisted : ℕ → Option ℕ → Redis → Type 0
IsUnlisted now none r = Unit
IsUnlisted now (some jti) r = live now jti r.blocklist ≡ none

pub is_token_revoked-false :
    (now : ℕ) (jti : Option ℕ) (r : Redis)
    → is_token_revoked now jti r ≡ false
    → (r.up ≡ false) ⊎ IsUnlisted now jti r
unfolding is_token_revoked
is_token_revoked-false now none r h = inr tt
is_token_revoked-false now (some jti) r h = elim (Bool-cases r.up) [
  | inr down ↦ inl down
  | inl up ↦ elim (Option-cases (live now jti r.blocklist)) [
    | inl gone ↦ inr gone
    | inr (x, listed) ↦ absurd (ground (arith, up, listed, h))
  ]
]

pub is_token_revoked-unlisted :
    (now : ℕ) (jti : Option ℕ) (r : Redis)
    → (r.up ≡ false) ⊎ IsUnlisted now jti r
    → is_token_revoked now jti r ≡ false
unfolding is_token_revoked
is_token_revoked-unlisted now none r h = refl
is_token_revoked-unlisted now (some jti) r (inl down) = ground (arith, down)
is_token_revoked-unlisted now (some jti) r (inr gone) = ground (arith, gone)

-- A request that the guard lets through: its header holds a bearer token that decodes at that time to
-- the claims of an access token with a known role and the id of the user for its subject, Redis is
-- down or the token is not on the blocklist, and the user is active.
pub record IsAdmitted (decode : Decode) (now : ℕ) (auth : List ℕ) (r : Redis) (u : User)
    : Type 0 where
  pub token : List ℕ
  pub claims : Claims
  pub sub : ℤ
  pub header : bearer_token auth ≡ some token
  pub decodes : decode now token ≡ ok claims
  pub is_access : claims.is_access ≡ true
  pub subject : subject_id claims.sub ≡ some sub
  pub role : is_valid_role claims.role ≡ true
  pub owner : sub ≡ pos u.id
  pub not_revoked : (r.up ≡ false) ⊎ IsUnlisted now claims.jti r
  pub active : u.is_active ≡ true

check_claims_ok :
    (c d : Claims) (sub : ℤ)
    → check_claims c ≡ ok (d, sub)
    → (d ≡ c) × (c.is_access ≡ true) × (subject_id c.sub ≡ some sub) × (is_valid_role c.role ≡ true)
unfolding check_claims
check_claims_ok c d sub h = ground arith

get_user_cached_owner :
    (now id : ℕ) (users : List User) (r : Redis) (u : User)
    → (get_user_cached now id users r).0 ≡ some u
    → u.id ≡ id
unfolding get_user_cached
get_user_cached_owner now id users r u h = ground (arith, h, find_holds (has_user_id id) users u)

user_for_owner :
    (now : ℕ) (sub : ℤ) (users : List User) (r : Redis) (u : User)
    → (user_for now sub users r).0 ≡ some u
    → sub ≡ pos u.id
unfolding user_for
user_for_owner now (pos i) users r u h = ap pos (sym (get_user_cached_owner now i users r u h))
user_for_owner now (negsuc i) users r u h = absurd (ground (arith, h))

admit_ok :
    (now : ℕ) (c : Claims) (sub : ℤ) (users : List User) (r : Redis) (u : User)
    → (admit now (c, sub) users r).0 ≡ ok u
    → (is_token_revoked now c.jti r ≡ false)
      × (u.is_active ≡ true)
      × ((user_for now sub users r).0 ≡ some u)
unfolding admit
admit_ok now c sub users r u h = ground (arith, h)

-- Whoever is authenticated has shown a bearer token that decodes and is an access token with a known
-- role and, for its subject, the id of the very user who is let in; the user is active; and Redis is
-- down, or the token is not on the blocklist.
pub authenticate_user_sound :
    (decode : Decode) (now : ℕ) (auth : List ℕ) (users : List User) (r : Redis) (u : User)
    → (authenticate_user decode now auth users r).0 ≡ ok u
    → IsAdmitted decode now auth r u
unfolding authenticate_user decode_access_token
authenticate_user_sound decode now auth users r u h = elim (Option-cases (bearer_token auth)) [
  | inl e ↦ absurd (ground (arith, e))
  | inr (t, e) ↦ elim (Result-cases (decode now t)) [
    | inr (f, e') ↦ absurd (ground (arith, e, e'))
    | inl (c, e') ↦ elim (Result-cases (check_claims c)) [
      | inr (f, e'') ↦ absurd (ground (arith, e, e', e''))
      | inl ((d, sub), e'') ↦
          let valid = check_claims_ok c d sub e'' in
          let passed = admit_ok now d sub users r u (ground (arith, e, e', e'')) in
          record {
            token = t;
            claims = c;
            sub = sub;
            header = e;
            decodes = e';
            is_access = valid.1;
            subject = valid.2;
            role = valid.3;
            owner = user_for_owner now sub users r u passed.2;
            not_revoked =
                is_token_revoked-false now c.jti r
                  (subst (λ x. is_token_revoked now x.jti r ≡ false) valid.0 passed.0);
            active = passed.1;
          }
    ]
  ]
]

is_admin_eq : (role : Role) → is_admin role ≡ true → role ≡ admin
is_admin_eq role h = ground arith

-- A handler behind `admin_required` runs only for an administrator, who stands in `g.current_user`
-- already or is authenticated by this request; the handler here hands its user back.
pub admin_required_sound :
    (decode : Decode) (now : ℕ) (auth : List ℕ) (users : List User) (current : Option User)
    (r : Redis) (u : User)
    → (admin_required decode now auth users current some (λ p. none) r).0 ≡ some u
    → (u.role ≡ admin) × ((current ≡ some u) ⊎ IsAdmitted decode now auth r u)
unfolding admin_required
admin_required_sound decode now auth users (some c) r u h = ground (arith, is_admin_eq c.role)
admin_required_sound decode now auth users none r u h =
    elim (Result-cases (authenticate_user decode now auth users r).0) [
      | inr (p, e) ↦ absurd (ground (arith, e))
      | inl (v, e) ↦
          let same : v ≡ u = ground (arith, e) in
          (
            ground (arith, e, is_admin_eq v.role),
            inr (authenticate_user_sound decode now auth users r u (ground (arith, e, same))),
          )
    ]

-- With nothing live in the cache the user is the row of the table.
get_user_cached_miss :
    (now id : ℕ) (users : List User) (r : Redis)
    → live now id r.user_cache ≡ none
    → (get_user_cached now id users r).0 ≡ find (has_user_id id) users
unfolding get_user_cached
get_user_cached_miss now id users r h = ground arith

pub live-invalidate :
    (now id : ℕ) (r : Redis)
    → r.up ≡ true
    → live now id (invalidate_user_cache id r).user_cache ≡ none
unfolding invalidate_user_cache
live-invalidate now id r up = ground (arith, live-del_entry now id r.user_cache)

-- While Redis is up, and after the cached row of a user is evicted, a token of a user who is
-- inactive in the table, or who is not there any more, gets nobody in.
pub deactivated_refused :
    (now id : ℕ) (c : Claims) (users : List User) (r : Redis) (v : User)
    → r.up ≡ true
    → (find (has_user_id id) users ≡ none)
      ⊎ ((u : User) × (find (has_user_id id) users ≡ some u) × (u.is_active ≡ false))
    → (admit now (c, pos id) users (invalidate_user_cache id r)).0 ≢ ok v
unfolding admit user_for
deactivated_refused now id c users r v up (inl gone) h =
    let miss =
      get_user_cached_miss now id users (invalidate_user_cache id r)
        (live-invalidate now id r up) in
    ground (arith, miss)
deactivated_refused now id c users r v up (inr (u, row, off)) h =
    let miss =
      get_user_cached_miss now id users (invalidate_user_cache id r)
        (live-invalidate now id r up) in
    ground (arith, miss)

-- Where no row of a user is alive in the cache by itself, now and later, the row that a request
-- puts there is served for thirty seconds at most: from then on a request finds what the table
-- holds at that time, whatever became of the row.
pub user_cache_expires :
    (now later id : ℕ) (users users' : List User) (r : Redis)
    → live now id r.user_cache ≡ none
    → live later id r.user_cache ≡ none
    → now + user_cache_ttl ≤ later
    → (get_user_cached later id users' (get_user_cached now id users r).1).0
      ≡ find (has_user_id id) users'
unfolding get_user_cached
user_cache_expires now later id users users' r gone gone' le =
    elim (Option-cases (find (has_user_id id) users)) [
      | inl e ↦ ground (arith, e)
      | inr (u, e) ↦
          ground
            (arith, e, live-set_entry_self later id (cached u) (now + user_cache_ttl) r.user_cache)
    ]
