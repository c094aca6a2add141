-- ===== src/Profile/Ended.antt =====
-- What a changed password and a deactivated account end (api/profile.py).
use empyrean_v2_backend.Base.{
  ℕ, ◌≡◌, ◌≢◌, refl, sym, ap, subst, ◌∙◌, arith, Bool, true, false, List, none, some, find,
  find_holds, count, ok, err, Option-cases, Result-cases, Bool-cases, inl, inr, ◌⊎◌,
}
use empyrean_v2_backend.Base.Int.{pos}
use empyrean_v2_backend.Access.Store.{User, Redis, live, has_user_id, invalidate_user_cache}
use empyrean_v2_backend.Access.Guard.{
  Decode, Claims, admit, bearer_token, decode_access_token, revoke_access_token,
}
use empyrean_v2_backend.Access.Protection.{live-invalidate, deactivated_refused}
use empyrean_v2_backend.Tokens.Store.{Db, is_live_of}
use empyrean_v2_backend.Tokens.Session.{save_user, revoke_where, logout_access}
use empyrean_v2_backend.Tokens.Password.{find-save, count-revoke_live}
use empyrean_v2_backend.Profile.Account.{
  wrong_password, save_and_revoke, change_password, delete_profile,
}

user_cache-revoke_access_token :
    (now : ℕ) (c : Claims) (r : Redis) → (revoke_access_token now c r).user_cache ≡ r.user_cache
unfolding revoke_access_token
user_cache-revoke_access_token now c r = ground arith

user_cache-logout_access :
    (decode : Decode) (now : ℕ) (auth : List ℕ) (r : Redis)
    → (logout_access decode now auth r).user_cache ≡ r.user_cache
unfolding logout_access
user_cache-logout_access decode now auth r = elim (Option-cases (bearer_token auth)) [
  | inl e ↦ rw (logout_access, e) refl
  | inr (token, e) ↦ elim (Result-cases (decode_access_token decode now token)) [
    | inl (c, f) ↦ rw (logout_access, e, f) (user_cache-revoke_access_token now c.0 r)
    | inr (_, f) ↦ rw (logout_access, e, f) refl
  ]
]

-- After the transaction the row is the new one, the user has no live refresh token, and no cached row.
save_and_revoke_lem :
    (id later : ℕ) (u v : User) (db : Db)
    → find (has_user_id id) db.users ≡ some v
    → u.id ≡ v.id
    → db.redis.up ≡ true
    → let db' = save_and_revoke u db in
      (find (has_user_id id) db'.users ≡ some u)
      × (count (is_live_of id) db'.refresh_tokens ≡ 0)
      × (db'.redis ≡ invalidate_user_cache id db.redis)
      × (live later id db'.redis.user_cache ≡ none)
unfolding save_and_revoke save_user revoke_where
save_and_revoke_lem id later u v db row same up =
    let there = find_holds (has_user_id id) db.users v row in
    let u≡id : u.id ≡ id = ground (arith, there, same) in
    subst
      (λ i.
        let db' = save_and_revoke u db in
        (find (has_user_id i) db'.users ≡ some u)
        × (count (is_live_of i) db'.refresh_tokens ≡ 0)
        × (db'.redis ≡ invalidate_user_cache i db.redis)
        × (live later i db'.redis.user_cache ≡ none))
      u≡id
      (
        find-save u db.users v (subst (λ i. find (has_user_id i) db.users ≡ some v) (sym u≡id) row),
        count-revoke_live u.id db.refresh_tokens,
        refl,
        live-invalidate later u.id db.redis up,
      )

-- While Redis is up, deactivating an account that is there succeeds: the row stays, inactive, no
-- refresh token of the user is live any more, and no access token of the user, whatever its claims,
-- gets anybody in at any time after, on the tables as they are then.
pub delete_profile_ends :
    (id later : ℕ) (u v : User) (c : Claims) (db : Db)
    → find (has_user_id id) db.users ≡ some u
    → db.redis.up ≡ true
    → let (db', r) = delete_profile id db in
      (r ≡ ok tt)
      × (find (has_user_id id) db'.users ≡ some (record u { is_active = false }))
      × (count (is_live_of id) db'.refresh_tokens ≡ 0)
      × ((admit later (c, pos id) db'.users db'.redis).0 ≢ ok v)
unfolding delete_profile
delete_profile_ends id later u v c db row up =
    let off = record u { is_active = false } in
    let db' = save_and_revoke off db in
    let (saved, closed, evicted, _) = save_and_revoke_lem id later off u db row refl up in
    rw (delete_profile, row)
      (
        refl,
        saved,
        closed,
        subst (λ r. (admit later (c, pos id) db'.users r).0 ≢ ok v) (sym evicted)
            (deactivated_refused later id c db'.users db.redis v up (inr (off, saved, refl))),
      )

-- While Redis is up, whoever gives the current password of an account sets the new one: the row has
-- its hash, no refresh token of the user is live any more, and no row of the user is cached. With any
-- other password the answer is 401 and nothing is changed.
pub change_password_ends :
    (checkpw : ℕ → ℕ → Bool) (decode : Decode) (now later : ℕ) (auth : List ℕ)
    (id current pwd_hash h : ℕ) (u : User) (db : Db)
    → find (has_user_id id) db.users ≡ some u
    → u.password_hash ≡ some h
    → db.redis.up ≡ true
    → let (db', r) = change_password checkpw decode now auth id current pwd_hash db in
      ((checkpw current h ≡ true)
        × (r ≡ ok tt)
        × (find (has_user_id id) db'.users ≡ some (record u { password_hash = some pwd_hash }))
        × (count (is_live_of id) db'.refresh_tokens ≡ 0)
        × (live later id db'.redis.user_cache ≡ none))
      ⊎ ((checkpw current h ≡ false) × (r ≡ err wrong_password) × (db' ≡ db))
unfolding change_password
change_password_ends checkpw decode now later auth id current pwd_hash h u db row hash up =
    let new = record u { password_hash = some pwd_hash } in
    let db' = save_and_revoke new db in
    let (saved, closed, _, cold) = save_and_revoke_lem id later new u db row refl up in
    let still : live later id (logout_access decode now auth db'.redis).user_cache ≡ none =
      ap (live later id) (user_cache-logout_access decode now auth db'.redis) ∙ cold in
    elim (Bool-cases (checkpw current h)) [
      | inl e ↦ rw (change_password, row, hash, e) (inl (refl, refl, saved, closed, still))
      | inr e ↦ rw (change_password, row, hash, e) (inr (refl, refl, refl))
    ]
