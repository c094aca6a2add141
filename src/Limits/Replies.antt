-- ===== src/Limits/Replies.antt =====
-- What the limiter answers, with and without Redis (api/rate_limit.py).
use empyrean_v2_backend.Base.{
  ℕ, ◌+◌, ◌/◌, ◌≤◌, ◌<◌, ◌≡◌, refl, Bool, true, false, ◌&&◌, ltb, arith, Bool-cases, inl, inr, ◌⊎◌,
}
use empyrean_v2_backend.Limits.Window.{
  Limiter, Response, served, too_many, Request, rate_limit_key, reset_epoch, rate_headers, incr,
  rate_limit,
}

-- The headers of a response: the limit, an allowance within it, a reset within the next minute, and
-- the mark of a bypass, which no refusal carries.
abbrev pub HasHeaders {ℓ} : {A : Type ℓ} → ℕ → ℕ → Bool → Response A → Type 0
HasHeaders limit now bypass (served a h) =
    (h.limit ≡ limit)
    × (h.remaining ≤ limit)
    × (now / 1000 < h.reset)
    × (h.reset ≤ now / 1000 + 60)
    × (h.bypass ≡ bypass)
HasHeaders limit now bypass (too_many h) =
    (h.limit ≡ limit)
    × (h.remaining ≡ 0)
    × (now / 1000 < h.reset)
    × (h.reset ≤ now / 1000 + 60)
    × (h.bypass ≡ bypass)
    × (bypass ≡ false)

reset_epoch_bounds :
    (now : ℕ) → (now / 1000 < reset_epoch now) × (reset_epoch now ≤ now / 1000 + 60)
unfolding reset_epoch
reset_epoch_bounds now = omega arith

-- With no Redis client, or one that fails, every request is served, its headers say so and the bypass
-- counter goes up by one; no other counter moves. Otherwise no response says bypass. In every case
-- the remaining allowance is within the limit, and the window resets within a minute.
pub rate_limit_headers {ℓ} :
    {A : Type ℓ} (trust_proxy : Bool) (limit window : ℕ) (handler : A) (r : Request) (l : Limiter)
    → let (x, l') = rate_limit trust_proxy limit window handler r l in
      ((l.client && l.works ≡ true)
        × HasHeaders limit r.time false x
        × (l'.bypass_events ≡ l.bypass_events))
      ⊎ ((l.client && l.works ≡ false)
          × HasHeaders limit r.time true x
          × (l'.bypass_events ≡ l.bypass_events + 1)
          × (l'.counters ≡ l.counters))
unfolding rate_limit rate_headers
rate_limit_headers trust_proxy limit window handler r l =
    let (after, within) = reset_epoch_bounds r.time in
    let n = (incr r.time window (rate_limit_key trust_proxy r) l.counters).0 in
    elim (Bool-cases (l.client && l.works)) [
      | inr e ↦ inr (
        e,
        rw (rate_limit, e) (refl, omega arith, after, within, refl),
        rw (rate_limit, e) refl,
        rw (rate_limit, e) refl,
      )
      | inl e ↦ elim (Bool-cases (ltb limit n)) [
        | inl e' ↦ inl (
          e,
          rw (rate_limit, e, e') (refl, ground (arith, e'), after, within, refl, refl),
          rw (rate_limit, e, e') refl,
        )
        | inr e' ↦ inl (
          e,
          rw (rate_limit, e, e') (refl, omega arith, after, within, refl),
          rw (rate_limit, e, e') refl,
        )
      ]
    ]
