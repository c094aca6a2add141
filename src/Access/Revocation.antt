-- ===== src/Access/Revocation.antt =====
-- How long a revoked access token stays refused (api/jwt.py, `revoke_access_token`).
use empyrean_v2_backend.Base.{
  ℕ, ◌+◌, ◌-◌, ◌*◌, ◌/◌, ◌%◌, ◌≤◌, ◌<◌, ◌≡◌, true, false, List, some, max, arith, err,
}
use empyrean_v2_backend.Base.Int.{ℤ}
use empyrean_v2_backend.Access.Store.{User, Redis, live-set_entry_self}
use empyrean_v2_backend.Access.Guard.{
  Claims, token_invalid, blocklist_ttl, revoke_access_token, is_token_revoked, admit,
}

-- The blocklist outlives the token but for the last second, at most.
is_token_revoked-revoke :
    (now later jti exp : ℕ) (c : Claims) (r : Redis)
    → r.up ≡ true
    → c.jti ≡ some jti
    → c.exp ≡ some exp
    → later + 1000 ≤ exp * 1000
    → is_token_revoked later (some jti) (revoke_access_token now c r) ≡ true
unfolding is_token_revoked revoke_access_token blocklist_ttl
is_token_revoked-revoke now later jti exp c r up ej ee h = ground (
  arith,
  live-set_entry_self later jti tt (now + 1000 * max ((exp * 1000 - now) / 1000) 1) r.blocklist,
)

-- Once a token is revoked while Redis is up, every request that presents a token of the same id is
-- refused, with no user looked up, until one second before the token expires.
pub revoke_refuses :
    (now later jti exp : ℕ) (c d : Claims) (sub : ℤ) (users : List User) (r : Redis)
    → r.up ≡ true
    → c.jti ≡ some jti
    → c.exp ≡ some exp
    → d.jti ≡ some jti
    → later + 1000 ≤ exp * 1000
    → let r' = revoke_access_token now c r in
      admit later (d, sub) users r' ≡ (err token_invalid, r')
unfolding admit
revoke_refuses now later jti exp c d sub users r up ej ee ed h =
    rw (ed, is_token_revoked-revoke now later jti exp c r up ej ee h)

-- A token that is revoked while Redis is up, at a time that is no whole second and with a second or
-- more to live, is off the blocklist again in the millisecond before it expires.
pub revocation_gap :
    (now jti exp : ℕ) (c : Claims) (r : Redis)
    → c.jti ≡ some jti
    → c.exp ≡ some exp
    → now + 1000 ≤ exp * 1000
    → 0 < now % 1000
    → r.up ≡ true
    → is_token_revoked (exp * 1000 - 1) (some jti) (revoke_access_token now c r) ≡ false
unfolding is_token_revoked revoke_access_token blocklist_ttl
revocation_gap now jti exp c r ej ee lives part up = ground (
  arith,
  live-set_entry_self (exp * 1000 - 1) jti tt (now + 1000 * max ((exp * 1000 - now) / 1000) 1)
      r.blocklist,
)
