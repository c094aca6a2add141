-- ===== src/Mqtt/Tests.antt =====
-- Tests of the MQTT client, and its theorems at concrete messages.
use empyrean_v2_backend.Base.{
  ℕ, All, ◌==◌, ◌+◌, ◌≤◌, ◌≡◌, refl, arith, true, false, List, [], ◌∷◌, ◌++◌, Option, none, some,
  ◌⊎◌, length, count, if◌then◌else◌,
}
use empyrean_v2_backend.Limits.Window.{same_text}
use empyrean_v2_backend.Mqtt.Subscriptions.{
  reading_topic, status_topic, alerts_topic, new_session, Answer, on_connect, on_subscribe, topics,
  find_sub, del_sub, put_sub, subscribe_each,
}
use empyrean_v2_backend.Mqtt.Pending.{IsFresh}
use empyrean_v2_backend.Mqtt.Ready.{starts, connects, acks, IsSound, Run-IsSound}
use empyrean_v2_backend.Mqtt.Inbound.{
  reading, status, Item, Message, Intake, Settings, node_prefix, reading_suffix, match_topic,
  is_valid_node_id, all_id_chars, is_limited, node_rate_limited, on_message, last_of, set_last,
  prune, enqueue, worker_takes, without_prefix, split_slash,
}
use empyrean_v2_backend.Mqtt.Accepted.{accepted, IsFrom, Puts, on_message_accepts}
use empyrean_v2_backend.Mqtt.Worker.{
  Object, Plant, Parsers, queued, refused, handle, Turn, run_worker, dispatch_reading,
  handle_reading, reading_of,
}
use empyrean_v2_backend.Mqtt.Delivery.{
  sent_by, gives_up, IsAccounted, repeat, AnyRaisedLate, attempts_of, run_worker_accounts,
  handle_authentic,
}

-- Message ids one, two and three.
abbrev answer : Answer
answer reading_topic = some 1
answer status_topic = some 2
answer alerts_topic = some 3

answer-IsFresh : IsFresh answer (λ t. false) topics []
unfolding find_sub put_sub del_sub
answer-IsFresh = (
  λ m h. refl,
  λ m h. (
    λ m' h'. ground arith,
    λ m' h'. (λ m'' h''. ground arith, λ m'' h''. tt, tt),
    (λ m'' h''. ground arith, λ m'' h''. tt, tt),
  ),
  (
    λ m' h'. refl,
    λ m' h'. (λ m'' h''. ground arith, λ m'' h''. tt, tt),
    (λ m'' h''. refl, λ m'' h''. tt, tt),
  ),
)

-- Two SUBACKs make the client ready.
granted_twice :
    (on_subscribe 2 (1 ∷ []) (on_subscribe 1 (1 ∷ []) (on_connect answer 0 new_session))).ready
    ≡ true
unfolding on_subscribe on_connect subscribe_each find_sub put_sub del_sub
granted_twice = refl

Run-IsSound_example : IsSound (on_subscribe 1 (128 ∷ []) (on_connect answer 0 new_session))
Run-IsSound_example = Run-IsSound (acks 1 (128 ∷ []) (connects answer 0 starts answer-IsFresh))

abbrev settings : Settings
settings = record { queue_max = 2; enqueue_max_attempts = 5 }

abbrev idle : Intake
idle = record { last_seen = []; queue = []; taken = []; overflow = 0 }

-- "n7"
abbrev n7 : List ℕ
n7 = b'n' ∷ b'7' ∷ []

abbrev message : Message
message = record {
  topic = node_prefix ++ (n7 ++ reading_suffix);
  size = 2;
  text = some (b'{' ∷ b'}' ∷ []);
}

abbrev never : List ℕ → Option ℕ
never raw = none

message_is_queued :
    (on_message settings never 1000 1000 (λ i. 0) message idle).queue
    ≡ record { node_id = n7; kind = reading; raw = b'{' ∷ b'}' ∷ [] } ∷ []
unfolding on_message match_topic without_prefix split_slash same_text is_valid_node_id all_id_chars
    node_rate_limited is_limited last_of set_last prune enqueue worker_takes
message_is_queued = refl

on_message_accepts_example :
    let s' = on_message settings never 1000 1000 (λ i. 0) message idle in
    (((accepted s' ≡ []) × (s'.overflow ≡ 0)) ⊎ ((i : Item) × IsFrom message i × Puts i idle s'))
    × (length s'.queue ≤ 2)
on_message_accepts_example =
    on_message_accepts settings never 1000 1000 (λ i. 0) message idle (omega arith)

n7_passes : (node_rate_limited 1000 n7 []).0 ≡ false
unfolding node_rate_limited is_limited last_of
n7_passes = refl

abbrev body : Object
body = record { node_id = some (b'x' ∷ []); rest = 5 }

abbrev parsers : Parsers
parsers = record {
  json_loads = λ raw. some body;
  validate_reading = some;
  validate_status = λ o. some true;
}

-- Celery takes the task at the second attempt.
abbrev turn : Turn
turn = record {
  item = record { node_id = n7; kind = reading; raw = [] };
  now = 1000;
  prepared = true;
  delay = λ left. if left == 1 then queued else refused;
}

abbrev beat : Turn
beat = record turn { item = record { node_id = n7; kind = status; raw = [] } }

abbrev plant : Plant
plant = record { delivered = []; dropped = 0; nodes = []; broadcasts = [] }

second_attempt :
    (run_worker parsers (turn ∷ []) plant).delivered ≡ record body { node_id = some n7 } ∷ []
unfolding run_worker handle handle_reading reading_of dispatch_reading
second_attempt = refl

run_worker_accounts_example :
    let p' = run_worker parsers (turn ∷ beat ∷ []) plant in
    (p'.delivered ≡ [] ++ sent_by parsers (turn ∷ beat ∷ []))
    × (p'.dropped ≡ 0 + count (gives_up parsers) (turn ∷ beat ∷ []))
    × All (IsAccounted parsers) (turn ∷ beat ∷ [])
run_worker_accounts_example = run_worker_accounts parsers (turn ∷ beat ∷ []) plant

handle_authentic_example :
    let p' = handle parsers turn plant in
    (p'.delivered ≡ [])
    ⊎ ((o : Object) × (n : ℕ) × (p'.delivered ≡ [] ++ repeat n o)
        × (n ≤ 3)
        × ((n ≡ 1) ⊎ AnyRaisedLate (attempts_of turn))
        × (o.node_id ≡ some n7)
        × (reading ≡ reading))
handle_authentic_example = handle_authentic parsers turn plant (λ o o' h. ground arith)
