-- ===== src/Mqtt/Spacing.antt =====
-- The per-node limiter of mqtt/client.py (`_node_rate_limited`).
use empyrean_v2_backend.Base.{
  ℕ, zero, suc, ◌+◌, ◌-◌, ◌≤◌, ◌<◌, ◌≡◌, refl, arith, Bool, true, false, List, [], ◌∷◌, some, ltb,
  length, take, count, if◌then◌else◌, Bool-cases, inl, inr, length-take,
}
use empyrean_v2_backend.Limits.Window.{same_text, same_text_refl, same_text_eq}
use empyrean_v2_backend.Mqtt.Inbound.{
  node_msg_min_interval, node_last_seen_max, node_last_seen_prune_to, last_of, set_last,
  insert_seen, sort_seen, del_seen, del_each, prune, is_limited, node_rate_limited,
}

last_of-set_last :
    (id : List ℕ) (now : ℕ) (seen : List (List ℕ × ℕ))
    → last_of id (set_last id now seen) ≡ some now
unfolding last_of set_last
last_of-set_last id now [] = rw (same_text_refl id) refl
last_of-set_last id now ((k, t) ∷ seen) = elim (Bool-cases (same_text k id)) [
  | inl e ↦ rw (e, e) refl
  | inr e ↦ rw (e, e) (last_of-set_last id now seen)
]

length-set_last :
    (id : List ℕ) (now : ℕ) (seen : List (List ℕ × ℕ))
    → (length seen ≤ length (set_last id now seen))
      × (length (set_last id now seen) ≤ length seen + 1)
unfolding set_last
length-set_last id now [] = omega arith
length-set_last id now ((k, t) ∷ seen) = ground (arith, length-set_last id now seen)

prune_small : (seen : List (List ℕ × ℕ)) → length seen ≤ node_last_seen_max → prune seen ≡ seen
unfolding prune
prune_small seen h = ground (arith, h)

is_limited-set_last :
    (now later : ℕ) (id : List ℕ) (seen : List (List ℕ × ℕ))
    → later < now + node_msg_min_interval
    → is_limited later id (set_last id now seen) ≡ true
unfolding is_limited
is_limited-set_last now later id seen soon =
    rw (is_limited, last_of-set_last id now seen) ground arith

-- While the table is not full, a node that was let through is held back for half a second, and its
-- time stays the one of the message that was let through.
pub node_rate_limited_spacing :
    (now later : ℕ) (id : List ℕ) (seen : List (List ℕ × ℕ))
    → length seen < node_last_seen_max
    → (node_rate_limited now id seen).0 ≡ false
    → later < now + node_msg_min_interval
    → let seen' = (node_rate_limited now id seen).1 in
      node_rate_limited later id seen' ≡ (true, seen')
unfolding node_rate_limited
node_rate_limited_spacing now later id seen room passed soon =
    elim (Bool-cases (is_limited now id seen)) [
      | inl e ↦ absurd (ground (arith, e))
      | inr e ↦
          let small =
            prune_small (set_last id now seen) (omega (arith, room, length-set_last id now seen)) in
          rw (node_rate_limited, e, small, is_limited-set_last now later id seen soon) refl
    ]

-- How many entries have a key.
abbrev has_key : List ℕ → List ℕ × ℕ → Bool
has_key k e = same_text e.0 k

count-insert_seen :
    (p : List ℕ × ℕ → Bool) (e : List ℕ × ℕ) (seen : List (List ℕ × ℕ))
    → count p (insert_seen e seen) ≡ count p (e ∷ seen)
unfolding insert_seen
count-insert_seen p e [] = refl
count-insert_seen p e (d ∷ seen) = ground (arith, count-insert_seen p e seen)

count-sort_seen :
    (p : List ℕ × ℕ → Bool) (seen : List (List ℕ × ℕ)) → count p (sort_seen seen) ≡ count p seen
unfolding sort_seen
count-sort_seen p [] = refl
count-sort_seen p (e ∷ seen) =
    ground (arith, count-insert_seen p e (sort_seen seen), count-sort_seen p seen)

length-insert_seen :
    (e : List ℕ × ℕ) (seen : List (List ℕ × ℕ)) → length (insert_seen e seen) ≡ length seen + 1
unfolding insert_seen
length-insert_seen e [] = omega arith
length-insert_seen e (d ∷ seen) = ground (arith, length-insert_seen e seen)

length-sort_seen : (seen : List (List ℕ × ℕ)) → length (sort_seen seen) ≡ length seen
unfolding sort_seen
length-sort_seen [] = refl
length-sort_seen (e ∷ seen) =
    omega (arith, length-insert_seen e (sort_seen seen), length-sort_seen seen)

count-take_le :
    (p : List ℕ × ℕ → Bool) (n : ℕ) (seen : List (List ℕ × ℕ))
    → count p (take n seen) ≤ count p seen
count-take_le p zero seen = omega arith
count-take_le p (suc n) [] = omega arith
count-take_le p (suc n) (e ∷ seen) = ground (arith, count-take_le p n seen)

del_seen_lem :
    (k j : List ℕ) (seen : List (List ℕ × ℕ))
    → 1 ≤ count (has_key k) seen
    → (length (del_seen k seen) + 1 ≡ length seen)
      × (count (has_key j) (del_seen k seen) + (if same_text k j then 1 else 0)
          ≡ count (has_key j) seen)
unfolding del_seen
del_seen_lem k j [] h = absurd (ground arith)
del_seen_lem k j ((i, t) ∷ seen) h = elim (Bool-cases (same_text i k)) [
  | inl e ↦
      let same : same_text i j ≡ same_text k j = rw (same_text_eq i k e) refl in
      ground (arith, e, same)
  | inr e ↦ ground (arith, e, del_seen_lem k j seen (ground (arith, e)))
]

length-del_each :
    (es seen : List (List ℕ × ℕ))
    → ((k : List ℕ) → count (has_key k) es ≤ count (has_key k) seen)
    → length (del_each es seen) + length es ≡ length seen
unfolding del_each
length-del_each [] seen h = omega arith
length-del_each (e ∷ es) seen h =
    let there : 1 ≤ count (has_key e.0) seen = ground (arith, h e.0, same_text_refl e.0) in
    let rest : (k : List ℕ) → count (has_key k) es ≤ count (has_key k) (del_seen e.0 seen) =
      λ k. ground (arith, h k, del_seen_lem e.0 k seen there) in
    omega (arith, length-del_each es (del_seen e.0 seen) rest, del_seen_lem e.0 e.0 seen there)

length-prune :
    (seen : List (List ℕ × ℕ))
    → length seen ≤ node_last_seen_max + 1
    → length (prune seen) ≤ node_last_seen_max
unfolding prune
length-prune seen h =
    let n = length seen - node_last_seen_prune_to in
    let oldest = take n (sort_seen seen) in
    let enough : (k : List ℕ) → count (has_key k) oldest ≤ count (has_key k) seen = λ k.
      omega
        (arith, count-take_le (has_key k) n (sort_seen seen), count-sort_seen (has_key k) seen) in
    elim (Bool-cases (ltb node_last_seen_max (length seen))) [
      | inl e ↦ rw e ground (
        arith,
        e,
        length-del_each oldest seen enough,
        length-take n (sort_seen seen),
        length-sort_seen seen,
      )
      | inr e ↦ rw e ground (arith, e)
    ]

-- The table of node ids never outgrows its cap, whoever publishes.
pub node_rate_limited_cap :
    (now : ℕ) (id : List ℕ) (seen : List (List ℕ × ℕ))
    → length seen ≤ node_last_seen_max
    → length (node_rate_limited now id seen).1 ≤ node_last_seen_max
unfolding node_rate_limited
node_rate_limited_cap now id seen h = elim (Bool-cases (is_limited now id seen)) [
  | inl e ↦ rw (node_rate_limited, e) h
  | inr e ↦
      rw (node_rate_limited, e)
        (length-prune (set_last id now seen) (omega (arith, h, length-set_last id now seen)))
]
