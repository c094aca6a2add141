-- ===== src/Mqtt/Accepted.antt =====
-- What reaches the worker's queue (mqtt/client.py, `_on_message` and `_enqueue`).
use empyrean_v2_backend.Base.{
  ℕ, zero, suc, ◌+◌, ◌≤◌, ◌≡◌, refl, sym, ap, ◌∙◌, arith, true, ◌&&◌, not, List, [], ◌∷◌, ◌++◌,
  Option, some, ltb, length, take, drop, ◌⊎◌, inl, inr, Bool-cases, Option-cases, length-append,
  length-drop,
}
use empyrean_v2_backend.Limits.Window.{same_text, same_text_eq}
use empyrean_v2_backend.Mqtt.Inbound.{
  alert, Item, Message, Intake, Settings, max_payload_bytes, alerts_text, match_topic,
  is_valid_node_id, worker_takes, enqueue, node_rate_limited, device_time_is_stale, on_message,
}

-- The items that were ever accepted: those that the worker has taken, and those that wait.
abbrev pub accepted : Intake → List Item
accepted s = s.taken ++ s.queue

-- An item stands for a message of at most 64 KiB of UTF-8, on the alerts topic or on a topic of a node
-- whose id is valid; the id is the topic's.
pub record IsFrom (m : Message) (i : Item) : Type 0 where
  pub size : m.size ≤ max_payload_bytes
  pub text : m.text ≡ some i.raw
  pub origin :
      ((m.topic ≡ alerts_text) × (i.kind ≡ alert))
      ⊎ ((match_topic m.topic ≡ some (i.node_id, i.kind)) × (is_valid_node_id i.node_id ≡ true))

append_assoc : (xs ys zs : List Item) → (xs ++ ys) ++ zs ≡ xs ++ (ys ++ zs)
append_assoc [] ys zs = refl
append_assoc (x ∷ xs) ys zs = rw (append_assoc xs ys zs) refl

take-drop : (n : ℕ) (xs : List Item) → take n xs ++ drop n xs ≡ xs
take-drop zero xs = refl
take-drop (suc n) [] = refl
take-drop (suc n) (x ∷ xs) = rw (take-drop n xs) refl

accepted-worker_takes : (n : ℕ) (s : Intake) → accepted (worker_takes n s) ≡ accepted s
unfolding worker_takes
accepted-worker_takes n s =
    rw (append_assoc s.taken (take n s.queue) (drop n s.queue), take-drop n s.queue) refl

-- An item is put at the end, or it is counted as an overflow; nothing that was accepted is lost.
abbrev pub Puts : Item → Intake → Intake → Type 0
Puts item s s' =
    ((accepted s' ≡ accepted s ++ (item ∷ [])) × (s'.overflow ≡ s.overflow))
    ⊎ ((accepted s' ≡ accepted s) × (s'.overflow ≡ s.overflow + 1))

enqueue-Puts :
    (queue_max attempts : ℕ) (takes : ℕ → ℕ) (item : Item) (s : Intake)
    → Puts item s (enqueue queue_max attempts takes item s)
unfolding enqueue worker_takes
enqueue-Puts queue_max zero takes item s = inr (refl, refl)
enqueue-Puts queue_max (suc attempts) takes item s =
    let s' = worker_takes (takes attempts) s in
    let same = accepted-worker_takes (takes attempts) s in
    elim (Bool-cases (ltb (length s'.queue) queue_max)) [
      | inl e ↦ rw e (
          inl (
            sym (append_assoc s'.taken s'.queue (item ∷ [])) ∙ ap (λ xs. xs ++ (item ∷ [])) same,
            refl,
          ))
      | inr e ↦ elim (enqueue-Puts queue_max attempts takes item s') [
        | inl (more, o) ↦ rw e (inl (more ∙ ap (λ xs. xs ++ (item ∷ [])) same, o))
        | inr (kept, o) ↦ rw e (inr (kept ∙ same, o))
      ]
    ]

enqueue_bound :
    (queue_max attempts : ℕ) (takes : ℕ → ℕ) (item : Item) (s : Intake)
    → length s.queue ≤ queue_max
    → length (enqueue queue_max attempts takes item s).queue ≤ queue_max
unfolding enqueue worker_takes
enqueue_bound queue_max zero takes item s h = h
enqueue_bound queue_max (suc attempts) takes item s h =
    let s' = worker_takes (takes attempts) s in
    let shorter : length s'.queue ≤ queue_max =
      omega (arith, h, length-drop (takes attempts) s.queue) in
    elim (Bool-cases (ltb (length s'.queue) queue_max)) [
      | inl e ↦ rw e ground (arith, e, length-append s'.queue (item ∷ []))
      | inr e ↦ rw e (enqueue_bound queue_max attempts takes item s' shorter)
    ]

-- A message leaves the intake with what it had accepted, or adds one item that stands for it, which
-- takes the last place of the queue or is counted as an overflow. The queue never outgrows its bound.
pub on_message_accepts :
    (cfg : Settings) (device_time : List ℕ → Option ℕ) (now utc : ℕ) (takes : ℕ → ℕ) (m : Message)
    (s : Intake)
    → length s.queue ≤ cfg.queue_max
    → let s' = on_message cfg device_time now utc takes m s in
      (((accepted s' ≡ accepted s) × (s'.overflow ≡ s.overflow))
        ⊎ ((i : Item) × IsFrom m i × Puts i s s'))
      × (length s'.queue ≤ cfg.queue_max)
unfolding on_message
on_message_accepts cfg device_time now utc takes m s h =
    let put : Item → Intake → Intake = enqueue cfg.queue_max cfg.enqueue_max_attempts takes in
    elim (Bool-cases (ltb max_payload_bytes m.size)) [
      | inl e ↦ rw (on_message, e) (inl (refl, refl), h)
      | inr e ↦ elim (Option-cases m.text) [
        | inl f ↦ rw (on_message, e, f) (inl (refl, refl), h)
        | inr (raw, f) ↦ elim (Bool-cases (same_text m.topic alerts_text)) [
          | inl a ↦
              let i : Item = record { node_id = alerts_text; kind = alert; raw = raw } in
              rw (on_message, e, f, a)
                (
                  inr (
                    i,
                    record {
                      size = ground (arith, e);
                      text = refl;
                      origin = inl (same_text_eq m.topic alerts_text a, refl);
                    },
                    enqueue-Puts cfg.queue_max cfg.enqueue_max_attempts takes i s,
                  ),
                  enqueue_bound cfg.queue_max cfg.enqueue_max_attempts takes i s h,
                )
          | inr a ↦ elim (Option-cases (match_topic m.topic)) [
            | inl g ↦ rw (on_message, e, f, a, g) (inl (refl, refl), h)
            | inr ((node_id, kind), g) ↦ elim (Bool-cases (is_valid_node_id node_id)) [
              | inr v ↦ rw (on_message, e, f, a, g, v) (inl (refl, refl), h)
              | inl v ↦
                  let (limited, seen) = node_rate_limited now node_id s.last_seen in
                  let i : Item = record { node_id = node_id; kind = kind; raw = raw } in
                  let s' : Intake = record s { last_seen = seen } in
                  elim (Bool-cases (limited && not (device_time_is_stale device_time utc raw))) [
                    | inl l ↦ rw (on_message, e, f, a, g, v, l) (inl (refl, refl), h)
                    | inr l ↦
                        rw (on_message, e, f, a, g, v, l)
                          (
                            inr (
                              i,
                              record { size = ground (arith, e); text = refl; origin = inr (g, v) },
                              enqueue-Puts cfg.queue_max cfg.enqueue_max_attempts takes i s',
                            ),
                            enqueue_bound cfg.queue_max cfg.enqueue_max_attempts takes i s' h,
                          )
                  ]
            ]
          ]
        ]
      ]
    ]
