-- ===== src/Mqtt/Subscriptions.antt =====
-- The subscriptions of `MQTTClient` (mqtt/client.py): its callbacks on connecting, on a SUBACK and on
-- disconnecting, and the retry of the worker's tick. Times are milliseconds.
use empyrean_v2_backend.Base.{
  ℕ, ◌+◌, ◌==◌, Bool, true, false, ◌&&◌, ◌||◌, List, [], ◌∷◌, Option, none, some, ltb, leb,
  if◌then◌else◌,
}

-- _READING_TOPIC, _STATUS_TOPIC and _ALERTS_TOPIC.
pub data Topic : Type 0 where
  reading_topic status_topic alerts_topic : Topic

-- `_granted_topics`, a set.
pub record Granted : Type 0 where
  pub reading : Bool
  pub status : Bool
  pub alerts : Bool

-- `connected` is what `is_connected` of the paho client says.
pub record Session : Type 0 where
  pub connected : Bool
  pub pending : List (ℕ × Topic)
  pub granted : Granted
  pub ready : Bool
  pub subscribe_failed : Bool
  pub next_subscribe_retry : ℕ

abbrev pub no_topics : Granted
no_topics = record { reading = false; status = false; alerts = false }

-- The state after `__init__`.
abbrev pub new_session : Session
new_session = record {
  connected = false;
  pending = [];
  granted = no_topics;
  ready = false;
  subscribe_failed = false;
  next_subscribe_retry = 0;
}

abbrev pub has : Topic → Granted → Bool
has reading_topic g = g.reading
has status_topic g = g.status
has alerts_topic g = g.alerts

abbrev pub add : Topic → Granted → Granted
add reading_topic g = record g { reading = true }
add status_topic g = record g { status = true }
add alerts_topic g = record g { alerts = true }

-- The dictionary `_pending_subs`: `get`, `pop` and assignment.
unfoldable pub find_sub : ℕ → List (ℕ × Topic) → Option Topic
find_sub mid [] = none
find_sub mid ((m, t) ∷ ps) = if m == mid then some t else find_sub mid ps

unfoldable pub del_sub : ℕ → List (ℕ × Topic) → List (ℕ × Topic)
del_sub mid [] = []
del_sub mid ((m, t) ∷ ps) = if m == mid then del_sub mid ps else (m, t) ∷ del_sub mid ps

unfoldable pub put_sub : ℕ → Topic → List (ℕ × Topic) → List (ℕ × Topic)
put_sub mid t ps = (mid, t) ∷ del_sub mid ps

-- What `client.subscribe` answers for a topic: a message id, or none if the packet was not sent.
abbrev pub Answer : Type 0
Answer = Topic → Option ℕ

-- The loop over the topics: those that are skipped, the dictionary, and whether one failed.
unfoldable pub subscribe_each :
    Answer → (Topic → Bool) → List Topic → List (ℕ × Topic) → List (ℕ × Topic) × Bool
subscribe_each answer skip [] ps = (ps, false)
subscribe_each answer skip (t ∷ ts) ps =
    if skip t then subscribe_each answer skip ts ps else elim (answer t) [
      | none ↦ ((subscribe_each answer skip ts ps).0, true)
      | some mid ↦ subscribe_each answer skip ts (put_sub mid t ps)
    ]

abbrev pub topics : List Topic
topics = reading_topic ∷ status_topic ∷ alerts_topic ∷ []

-- `_on_connect`; a return code other than zero is a refusal.
unfoldable pub on_connect : Answer → ℕ → Session → Session
on_connect answer rc s =
    let (ps, failed) = subscribe_each answer (λ t. false) topics s.pending in
    if rc == 0 then record s { connected = true; pending = ps; subscribe_failed = failed } else s

-- The granted QoS of a SUBACK: none if the list is empty. From 128 on it is a denial.
abbrev pub is_denied : List ℕ → Bool
is_denied [] = true
is_denied (q ∷ qs) = leb 128 q

-- `_on_subscribe`
unfoldable pub on_subscribe : ℕ → List ℕ → Session → Session
on_subscribe mid granted_qos s = elim (find_sub mid s.pending) [
  | none ↦ s
  | some t ↦
      let ps = del_sub mid s.pending in
      let g = add t s.granted in
      if is_denied granted_qos
      then record s { pending = ps; subscribe_failed = true }
      else record s {
        pending = ps;
        granted = g;
        subscribe_failed =
            if g.reading && (g.status && g.alerts) then false else s.subscribe_failed;
        ready = (g.reading && g.status) || s.ready;
      }
]

-- `_on_disconnect`
unfoldable pub on_disconnect : Session → Session
on_disconnect s = record s {
  connected = false;
  pending = [];
  granted = no_topics;
  ready = false;
  subscribe_failed = false;
}

-- Five seconds.
abbrev pub subscribe_retry_interval : ℕ
subscribe_retry_interval = 5000

-- `_maybe_retry_subscribes`
unfoldable pub maybe_retry_subscribes : ℕ → Answer → Session → Session
maybe_retry_subscribes now answer s =
    let later : Session = record s { next_subscribe_retry = now + subscribe_retry_interval } in
    let ps = (subscribe_each answer (λ t. has t s.granted) topics s.pending).0 in
    if s.subscribe_failed
    then (if ltb now s.next_subscribe_retry
        then s
        else if s.connected
        then record later { pending = ps }
        else later)
    else s
