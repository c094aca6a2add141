-- ===== src/Mqtt/Pending.antt =====
-- What the subscribe loop of mqtt/client.py leaves in `_pending_subs`.
use empyrean_v2_backend.Base.{
  ℕ, ◌==◌, ◌≡◌, refl, sym, subst, arith, Bool, true, List, [], ◌∷◌, none, some, if◌then◌else◌, ◌⊎◌,
  inl, inr, Bool-cases, Option-cases,
}
use empyrean_v2_backend.Mqtt.Subscriptions.{
  Topic, reading_topic, status_topic, alerts_topic, find_sub, del_sub, put_sub, Answer,
  subscribe_each, topics,
}

-- A SUBACK of the topic is awaited.
abbrev pub IsPending : Topic → List (ℕ × Topic) → Type 0
IsPending t ps = (mid : ℕ) × (find_sub mid ps ≡ some t)

pub find_sub-del_sub :
    (j mid : ℕ) (ps : List (ℕ × Topic))
    → find_sub j (del_sub mid ps) ≡ (if j == mid then none else find_sub j ps)
unfolding find_sub del_sub
find_sub-del_sub j mid [] = ground arith
find_sub-del_sub j mid ((m, t) ∷ ps) = ground (arith, find_sub-del_sub j mid ps)

find_sub-put_sub :
    (j mid : ℕ) (t : Topic) (ps : List (ℕ × Topic))
    → find_sub j (put_sub mid t ps) ≡ (if j == mid then some t else find_sub j ps)
unfolding find_sub put_sub
find_sub-put_sub j mid t ps = ground (arith, find_sub-del_sub j mid ps)

-- The message ids that paho hands out are not those of subscriptions that are awaited.
abbrev pub IsFresh : Answer → (Topic → Bool) → List Topic → List (ℕ × Topic) → Type 0
IsFresh answer skip [] ps = Unit
IsFresh answer skip (t ∷ ts) ps =
    ((mid : ℕ) → answer t ≡ some mid → find_sub mid ps ≡ none)
    × ((mid : ℕ) → answer t ≡ some mid → IsFresh answer skip ts (put_sub mid t ps))
    × IsFresh answer skip ts ps

IsPending-put_sub :
    (u t : Topic) (mid : ℕ) (ps : List (ℕ × Topic))
    → find_sub mid ps ≡ none
    → IsPending u ps
    → IsPending u (put_sub mid t ps)
IsPending-put_sub u t mid ps fresh (j, h) = elim (Bool-cases (j == mid)) [
  | inr e ↦ (j, ground (arith, find_sub-put_sub j mid t ps, h, e))
  | inl e ↦
      let same : j ≡ mid = ground (arith, e) in
      let gone : find_sub j ps ≡ none = subst (λ m. find_sub m ps ≡ none) (sym same) fresh in
      absurd (ground (arith, gone, h))
]

IsPending-put_self : (t : Topic) (mid : ℕ) (ps : List (ℕ × Topic)) → IsPending t (put_sub mid t ps)
IsPending-put_self t mid ps = (mid, ground (arith, find_sub-put_sub mid mid t ps))

-- After the loop what was awaited is awaited still, and every topic of it that was not skipped is
-- awaited, unless the loop reports a failure.
abbrev pub Tried : (Topic → Bool) → List (ℕ × Topic) × Bool → Topic → Type 0
Tried skip r t = (skip t ≡ true) ⊎ (IsPending t r.0 ⊎ (r.1 ≡ true))

pub subscribe_each-IsPending :
    (answer : Answer) (skip : Topic → Bool) (ts : List Topic) (ps : List (ℕ × Topic)) (u : Topic)
    → IsFresh answer skip ts ps
    → IsPending u ps
    → IsPending u (subscribe_each answer skip ts ps).0
unfolding subscribe_each
subscribe_each-IsPending answer skip [] ps u fresh h = h
subscribe_each-IsPending answer skip (t ∷ ts) ps u fresh h = elim (Bool-cases (skip t)) [
  | inl e ↦ rw e (subscribe_each-IsPending answer skip ts ps u fresh.2 h)
  | inr e ↦ elim (Option-cases (answer t)) [
    | inl f ↦ rw (e, f) (subscribe_each-IsPending answer skip ts ps u fresh.2 h)
    | inr (mid, f) ↦
        rw (e, f)
          (subscribe_each-IsPending answer skip ts (put_sub mid t ps) u (fresh.1 mid f)
            (IsPending-put_sub u t mid ps (fresh.0 mid f) h))
  ]
]

abbrev pub IsIn : Topic → List Topic → Type 0
IsIn u [] = ⊥
IsIn u (t ∷ ts) = (u ≡ t) ⊎ IsIn u ts

pub subscribe_each-Tried :
    (answer : Answer) (skip : Topic → Bool) (ts : List Topic) (ps : List (ℕ × Topic)) (u : Topic)
    → IsFresh answer skip ts ps
    → IsIn u ts
    → Tried skip (subscribe_each answer skip ts ps) u
unfolding subscribe_each
subscribe_each-Tried answer skip [] ps u fresh m = absurd m
subscribe_each-Tried answer skip (t ∷ ts) ps u fresh m = elim (Bool-cases (skip t)) [
  | inl e ↦ elim m [
    | inl same ↦ inl (rw same e)
    | inr m' ↦ rw e (subscribe_each-Tried answer skip ts ps u fresh.2 m')
  ]
  | inr e ↦ elim (Option-cases (answer t)) [
    | inl f ↦ inr (inr (rw (e, f) refl))
    | inr (mid, f) ↦ elim m [
      | inl same ↦ inr (
          inl (
            rw (e, f, same)
              (subscribe_each-IsPending answer skip ts (put_sub mid t ps) t (fresh.1 mid f)
                (IsPending-put_self t mid ps))))
      | inr m' ↦
          rw (e, f) (subscribe_each-Tried answer skip ts (put_sub mid t ps) u (fresh.1 mid f) m')
    ]
  ]
]

pub is_topic : (u : Topic) → IsIn u topics
is_topic reading_topic = inl refl
is_topic status_topic = inr (inl refl)
is_topic alerts_topic = inr (inr (inl refl))
