-- ===== src/Access/Store.antt =====
-- The users (models/user.py), and what api/jwt.py keeps in Redis: the blocklist and the user cache.
-- Times are milliseconds; ids, names and digests that are only compared are numbers. `up` says that
-- the Redis client is there and its commands succeed: every use degrades in one way if it is not.
use empyrean_v2_backend.Base.{
  ℕ, ◌+◌, ◌==◌, ◌≡◌, ◌≢◌, refl, arith, Bool, List, [], ◌∷◌, Option, none, some, find, ltb,
  if◌then◌else◌,
}

pub data Role : Type 0 where
  admin user : Role
  other_role : ℕ → Role

pub record User : Type 0 where
  pub id : ℕ
  pub username : ℕ
  pub email : ℕ
  pub password_hash : Option ℕ
  pub role : Role
  pub is_active : Bool
  pub last_login_at : Option ℕ

-- A key with its value and the time at which it expires.
pub record Entry {ℓ} (V : Type ℓ) : Type ℓ where
  pub key : ℕ
  pub value : V
  pub until : ℕ

pub record Redis : Type 0 where
  pub up : Bool
  pub blocklist : List (Entry (Unit {0}))
  pub user_cache : List (Entry User)

module _ {ℓ} {V : Type ℓ} where
  -- GET, at a time
  unfoldable pub live : ℕ → ℕ → List (Entry V) → Option V
  live now k [] = none
  live now k (e ∷ es) =
      if e.key == k then (if ltb now e.until then some e.value else none) else live now k es

  -- SET … EX, and SETEX
  unfoldable pub set_entry : ℕ → V → ℕ → List (Entry V) → List (Entry V)
  set_entry k v until [] = record { key = k; value = v; until = until } ∷ []
  set_entry k v until (e ∷ es) =
      if e.key == k
      then record { key = k; value = v; until = until } ∷ es
      else e ∷ set_entry k v until es

  -- DEL
  unfoldable pub del_entry : ℕ → List (Entry V) → List (Entry V)
  del_entry k [] = []
  del_entry k (e ∷ es) = if e.key == k then del_entry k es else e ∷ del_entry k es

  pub live-set_entry_self :
      (now k : ℕ) (v : V) (until : ℕ) (es : List (Entry V))
      → live now k (set_entry k v until es) ≡ (if ltb now until then some v else none)
  unfolding live set_entry
  live-set_entry_self now k v until [] = ground arith
  live-set_entry_self now k v until (e ∷ es) = ground (arith, live-set_entry_self now k v until es)

  pub live-set_entry_ne :
      (now j k : ℕ) (v : V) (until : ℕ) (es : List (Entry V))
      → j ≢ k
      → live now j (set_entry k v until es) ≡ live now j es
  unfolding live set_entry
  live-set_entry_ne now j k v until [] h = ground arith
  live-set_entry_ne now j k v until (e ∷ es) h =
      ground (arith, live-set_entry_ne now j k v until es h)

  pub live-del_entry : (now k : ℕ) (es : List (Entry V)) → live now k (del_entry k es) ≡ none
  unfolding live del_entry
  live-del_entry now k [] = refl
  live-del_entry now k (e ∷ es) = ground (arith, live-del_entry now k es)

abbrev pub user_cache_ttl : ℕ
user_cache_ttl = 30000

-- `_serialise_user_for_cache` and back: the password hash is never cached.
abbrev pub cached : User → User
cached u = record u { password_hash = none }

unfoldable pub invalidate_user_cache : ℕ → Redis → Redis
invalidate_user_cache user_id r =
    if r.up then record r { user_cache = del_entry user_id r.user_cache } else r

abbrev pub has_user_id : ℕ → User → Bool
has_user_id user_id u = u.id == user_id

-- `_get_user_cached`
unfoldable pub get_user_cached : ℕ → ℕ → List User → Redis → Option User × Redis
get_user_cached now user_id users r =
    let hit : Option User = if r.up then live now user_id r.user_cache else none in
    let usable : Option User = elim hit [
      | none ↦ none
      | some u ↦ if u.id == user_id then some u else none
    ] in
    elim usable [
      | some u ↦ (some u, r)
      | none ↦ elim (find (has_user_id user_id) users) [
        | none ↦ (none, r)
        | some u ↦ (
          some u,
          if r.up
              then record r {
                user_cache = set_entry user_id (cached u) (now + user_cache_ttl) r.user_cache;
              }
              else r,
        )
      ]
    ]
