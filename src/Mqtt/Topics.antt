-- ===== src/Mqtt/Topics.antt =====
-- The topics of nodes, written and read (mqtt/client.py, `_TOPIC_RE`; mqtt/config.py, `_NODE_ID_RE`).
use empyrean_v2_backend.Base.{
  ℕ, ◌≡◌, ◌==◌, refl, ap, arith, true, false, List, [], ◌∷◌, ◌++◌, none, some, if◌then◌else◌,
}
use empyrean_v2_backend.Limits.Window.{same_text}
use empyrean_v2_backend.Mqtt.Inbound.{
  reading, status, node_prefix, reading_suffix, status_suffix, without_prefix, split_slash,
  match_topic, all_id_chars, is_valid_node_id,
}

without_prefix-append : (ps s : List ℕ) → without_prefix ps (ps ++ s) ≡ some s
unfolding without_prefix
without_prefix-append [] s = refl
without_prefix-append (p ∷ ps) s = ground (arith, without_prefix-append ps s)

-- The characters of a node id are no slashes.
split_slash-append :
    (id rest : List ℕ)
    → all_id_chars id ≡ true
    → split_slash (id ++ (b'/' ∷ rest)) ≡ (id, b'/' ∷ rest)
unfolding split_slash all_id_chars
split_slash-append [] rest h = refl
split_slash-append (c ∷ cs) rest h =
    let other : c == b'/' ≡ false = ground arith in
    rw (other, split_slash-append cs rest (ground arith)) refl

match_topic-split :
    (topic tail suffix cs : List ℕ) (c : ℕ)
    → without_prefix node_prefix topic ≡ some tail
    → split_slash tail ≡ (c ∷ cs, suffix)
    → match_topic topic ≡ (
        if same_text suffix reading_suffix
        then some (c ∷ cs, reading)
        else if same_text suffix status_suffix
        then some (c ∷ cs, status)
        else none)
unfolding match_topic
match_topic-split topic tail suffix cs c p q =
    let q0 : (split_slash tail).0 ≡ c ∷ cs = ap (λ x. x.0) q in
    let q1 : (split_slash tail).1 ≡ suffix = ap (λ x. x.1) q in rw (match_topic, p, q0, q1) refl

-- The two topics that a node with a valid id publishes on are read back as that id and their kind.
pub match_topic-append :
    (id : List ℕ)
    → is_valid_node_id id ≡ true
    → (match_topic (node_prefix ++ (id ++ reading_suffix)) ≡ some (id, reading))
      × (match_topic (node_prefix ++ (id ++ status_suffix)) ≡ some (id, status))
unfolding match_topic is_valid_node_id same_text
match_topic-append [] h = absurd (ground arith)
match_topic-append (c ∷ cs) h =
    let chars : all_id_chars (c ∷ cs) ≡ true = ground arith in
    let read : List ℕ → List ℕ = λ rest. (c ∷ cs) ++ (b'/' ∷ rest) in
    let r : List ℕ = b'r' ∷ b'e' ∷ b'a' ∷ b'd' ∷ b'i' ∷ b'n' ∷ b'g' ∷ [] in
    let t : List ℕ = b's' ∷ b't' ∷ b'a' ∷ b't' ∷ b'u' ∷ b's' ∷ [] in
    (
      match_topic-split (node_prefix ++ read r) (read r) reading_suffix cs c
          (without_prefix-append node_prefix (read r)) (split_slash-append (c ∷ cs) r chars),
      match_topic-split (node_prefix ++ read t) (read t) status_suffix cs c
          (without_prefix-append node_prefix (read t)) (split_slash-append (c ∷ cs) t chars),
    )
