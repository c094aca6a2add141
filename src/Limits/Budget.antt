-- ===== src/Limits/Budget.antt =====
-- How many requests the limiter lets through (api/rate_limit.py).
use empyrean_v2_backend.Base.{
  ℕ, ◌+◌, ◌-◌, ◌*◌, ◌/◌, ◌≤◌, ◌<◌, ◌≡◌, refl, sym, subst, Bool, true, false, List, [], ◌∷◌, none,
  some, ltb, if◌then◌else◌, arith, min, Bool-cases, inl, inr, ◌⊎◌, count,
}
use empyrean_v2_backend.Limits.Window.{
  Key, Counter, Limiter, Response, served, too_many, Request, same_key, same_key_refl, same_key_eq,
  rate_limit_key, incr, rate_limit, stored, serve_all,
}

-- The count of a key within its minute: no counter, or one that lives on to the end of the minute.
data Stands (k : Key) (cs : List Counter) : ℕ → Type 0 where
  fresh : stored k cs ≡ none → Stands k cs 0
  counted :
      (c : Counter) → stored k cs ≡ some c → 60000 * (k.minute + 1) ≤ c.until → Stands k cs c.count

module _ (now window : ℕ) where
  stored-incr_ne :
      (j k : Key) (cs : List Counter)
      → same_key j k ≡ false
      → stored k (incr now window j cs).1 ≡ stored k cs
  unfolding stored incr
  stored-incr_ne j k [] ne = ground (arith, ne)
  stored-incr_ne j k (c ∷ cs) ne = elim (Bool-cases (same_key c.key j)) [
    | inr e ↦ rw (e, stored-incr_ne j k cs ne) refl
    | inl e ↦
        let other : same_key c.key k ≡ false =
          subst (λ x. same_key x k ≡ false) (sym (same_key_eq c.key j e)) ne in
        ground (arith, e, other, ne)
  ]

  incr_fresh :
      (k : Key) (cs : List Counter)
      → stored k cs ≡ none
      → ((incr now window k cs).0 ≡ 1)
        × (stored k (incr now window k cs).1
            ≡ some (record { key = k; count = 1; until = now + window * 1000 }))
  unfolding stored incr
  incr_fresh k [] h = rw (same_key_refl k) (refl, refl)
  incr_fresh k (c ∷ cs) h = elim (Bool-cases (same_key c.key k)) [
    | inl e ↦ absurd (ground (arith, e))
    | inr e ↦ rw (e, e) (incr_fresh k cs (ground (arith, e)))
  ]

  incr_counted :
      (k : Key) (d : Counter) (cs : List Counter)
      → stored k cs ≡ some d
      → now < d.until
      → ((incr now window k cs).0 ≡ d.count + 1)
        × (stored k (incr now window k cs).1 ≡ some (record d { count = d.count + 1 }))
  unfolding stored incr
  incr_counted k d [] h lt = absurd (ground arith)
  incr_counted k d (c ∷ cs) h lt = elim (Bool-cases (same_key c.key k)) [
    | inl e ↦ ground (arith, e)
    | inr e ↦ rw (e, e) (incr_counted k d cs (ground (arith, e)) lt)
  ]

  -- In its minute a key goes up by one, and stays on to the end of it.
  incr-Stands :
      (k : Key) (n : ℕ) (cs : List Counter)
      → now / 60000 ≡ k.minute
      → 60 ≤ window
      → Stands k cs n
      → ((incr now window k cs).0 ≡ n + 1) × Stands k (incr now window k cs).1 (n + 1)
  incr-Stands k _ cs at wide (fresh h) =
      let (one, there) = incr_fresh k cs h in
      (
        one,
        counted (record { key = k; count = 1; until = now + window * 1000 }) there
            (omega (arith, at, wide)),
      )
  incr-Stands k n cs at wide (counted d h live) =
      let (one, there) = incr_counted k d cs h (omega (arith, at, live)) in
      (one, counted (record d { count = d.count + 1 }) there live)

Stands-incr_ne :
    (now window : ℕ) (j k : Key) (n : ℕ) (cs : List Counter)
    → same_key j k ≡ false
    → Stands k cs n
    → Stands k (incr now window j cs).1 n
Stands-incr_ne now window j k _ cs ne (fresh h) = fresh (rw (stored-incr_ne now window j k cs ne) h)
Stands-incr_ne now window j k _ cs ne (counted d h live) =
    counted d (rw (stored-incr_ne now window j k cs ne) h) live

-- Whether a request counts for a key, and whether a response is one that was let through for it.
abbrev pub is_for : Bool → Key → Request → Bool
is_for trust_proxy k r = same_key (rate_limit_key trust_proxy r) k

abbrev pub is_served_for : Bool → Key → Response Request → Bool
is_served_for trust_proxy k (served r h) = is_for trust_proxy k r
is_served_for trust_proxy k (too_many h) = false

module _ (trust_proxy : Bool) (limit window : ℕ) (k : Key) where
  -- With Redis up, a request counts, and passes if its count is within the limit.
  rate_limit_up :
      (r : Request) (l : Limiter)
      → l.client ≡ true
      → l.works ≡ true
      → let (x, l') = rate_limit trust_proxy limit window r r l in
        let (n, cs) = incr r.time window (rate_limit_key trust_proxy r) l.counters in
        (l'.client ≡ true)
        × (l'.works ≡ true)
        × (l'.counters ≡ cs)
        × (is_served_for trust_proxy k x ≡ (if ltb limit n then false else is_for trust_proxy k r))
  unfolding rate_limit
  rate_limit_up r l up ok =
      elim (Bool-cases
        (ltb limit (incr r.time window (rate_limit_key trust_proxy r) l.counters).0)) [
          | inl e ↦ rw (up, ok, e, rate_limit) (refl, refl, refl, refl)
          | inr e ↦ rw (up, ok, e, rate_limit) (refl, refl, refl, refl)
        ]

  Stands-rate_limit :
      (r : Request) (n : ℕ) (l : Limiter)
      → l.client ≡ true
      → l.works ≡ true
      → 60 ≤ window
      → Stands k l.counters n
      → let (x, l') = rate_limit trust_proxy limit window r r l in
        (l'.client ≡ true)
        × (l'.works ≡ true)
        × (((is_for trust_proxy k r ≡ false)
              × Stands k l'.counters n
              × (is_served_for trust_proxy k x ≡ false))
            ⊎ ((is_for trust_proxy k r ≡ true)
                × Stands k l'.counters (n + 1)
                × (is_served_for trust_proxy k x ≡ ltb n limit)))
  unfolding rate_limit_key
  Stands-rate_limit r n l up ok wide st =
      let j = rate_limit_key trust_proxy r in
      let (client, works, counters, out) = rate_limit_up r l up ok in
      elim (Bool-cases (same_key j k)) [
        | inr e ↦ (
          client,
          works,
          inl (
            e,
            rw counters (Stands-incr_ne r.time window j k n l.counters e st),
            ground (arith, out, e),
          ),
        )
        | inl e ↦
            let same = same_key_eq j k e in
            let (more, st') = incr-Stands r.time window k n l.counters (rw⁻¹ same refl) wide st in
            let stands : Stands k (incr r.time window j l.counters).1 (n + 1) =
              subst (λ i. Stands k (incr r.time window i l.counters).1 (n + 1)) (sym same) st' in
            let next : (incr r.time window j l.counters).0 ≡ n + 1 =
              subst (λ i. (incr r.time window i l.counters).0 ≡ n + 1) (sym same) more in
            (client, works, inr (e, rw counters stands, ground (arith, out, next, e)))
      ]

  served-eq-min :
      (rs : List Request) (n : ℕ) (l : Limiter)
      → l.client ≡ true
      → l.works ≡ true
      → 60 ≤ window
      → Stands k l.counters n
      → count (is_served_for trust_proxy k) (serve_all trust_proxy limit window rs l).0
        ≡ min (count (is_for trust_proxy k) rs) (limit - n)
  unfolding serve_all
  served-eq-min [] n l up ok wide st = omega arith
  served-eq-min (r ∷ rs) n l up ok wide st =
      let l' = (rate_limit trust_proxy limit window r r l).1 in
      let (up', ok', step) = Stands-rate_limit r n l up ok wide st in
      elim step [
        | inl (miss, st', out) ↦ ground (arith, miss, out, served-eq-min rs n l' up' ok' wide st')
        | inr (hit, st', out) ↦
            ground (arith, hit, out, served-eq-min rs (n + 1) l' up' ok' wide st')
      ]

  -- While Redis answers and the window is a minute at least, a key with no counter yet, which is
  -- one endpoint and address in one minute, gets exactly as many of its requests through as there
  -- are, up to the limit, whatever their order and whoever else asks in between.
  pub rate_limit_budget :
      (rs : List Request) (l : Limiter)
      → l.client ≡ true
      → l.works ≡ true
      → 60 ≤ window
      → stored k l.counters ≡ none
      → count (is_served_for trust_proxy k) (serve_all trust_proxy limit window rs l).0
        ≡ min (count (is_for trust_proxy k) rs) limit
  rate_limit_budget rs l up ok wide clear =
      ground (arith, served-eq-min rs 0 l up ok wide (fresh clear))
