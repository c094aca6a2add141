-- ===== src/Mqtt/Inbound.antt =====
-- What `_on_message` of mqtt/client.py lets into the worker's queue, and `_enqueue`. A text is the list
-- of its characters, times are milliseconds. `device_time` reads the JSON member `time` of a payload:
-- it gives none unless that is an ISO timestamp.
use empyrean_v2_backend.Base.{
  ℕ, zero, suc, ◌+◌, ◌-◌, ◌*◌, drop, ◌==◌, Bool, true, false, ◌&&◌, ◌||◌, not, List, [], ◌∷◌, ◌++◌,
  Option, none, some, ltb, leb, length, take, if◌then◌else◌,
}
use empyrean_v2_backend.Limits.Window.{same_text}

pub data Kind : Type 0 where
  reading status alert : Kind

-- An entry of the worker's queue; `raw` is the text of the payload.
pub record Item : Type 0 where
  pub node_id : List ℕ
  pub kind : Kind
  pub raw : List ℕ

-- A message from the broker: the size of its payload in bytes, and its text, none if it is not UTF-8.
pub record Message : Type 0 where
  pub topic : List ℕ
  pub size : ℕ
  pub text : Option (List ℕ)

-- `_node_last_seen` as a list in the order of insertion, the queue, what the worker has taken from it
-- so far, and `_queue_overflow_count`.
pub record Intake : Type 0 where
  pub last_seen : List (List ℕ × ℕ)
  pub queue : List Item
  pub taken : List Item
  pub overflow : ℕ

abbrev pub max_payload_bytes : ℕ
max_payload_bytes = 64 * 1024

abbrev pub node_msg_min_interval : ℕ
node_msg_min_interval = 500

abbrev pub backlog_freshness : ℕ
backlog_freshness = 60000

abbrev pub node_last_seen_max : ℕ
node_last_seen_max = 10000

abbrev pub node_last_seen_prune_to : ℕ
node_last_seen_prune_to = 9000

-- "air/alerts" and "air/node/"
abbrev pub alerts_text : List ℕ
alerts_text = b'a' ∷ b'i' ∷ b'r' ∷ b'/' ∷ b'a' ∷ b'l' ∷ b'e' ∷ b'r' ∷ b't' ∷ b's' ∷ []

abbrev pub node_prefix : List ℕ
node_prefix = b'a' ∷ b'i' ∷ b'r' ∷ b'/' ∷ b'n' ∷ b'o' ∷ b'd' ∷ b'e' ∷ b'/' ∷ []

abbrev pub reading_suffix : List ℕ
reading_suffix = b'/' ∷ b'r' ∷ b'e' ∷ b'a' ∷ b'd' ∷ b'i' ∷ b'n' ∷ b'g' ∷ []

abbrev pub status_suffix : List ℕ
status_suffix = b'/' ∷ b's' ∷ b't' ∷ b'a' ∷ b't' ∷ b'u' ∷ b's' ∷ []

unfoldable pub without_prefix : List ℕ → List ℕ → Option (List ℕ)
without_prefix [] s = some s
without_prefix (p ∷ ps) [] = none
without_prefix (p ∷ ps) (c ∷ cs) = let rest = without_prefix ps cs in if c == p then rest else none

-- A text up to its first slash, and the rest of it from there.
unfoldable pub split_slash : List ℕ → List ℕ × List ℕ
split_slash [] = ([], [])
split_slash (c ∷ cs) =
    let (before, rest) = split_slash cs in if c == b'/' then ([], c ∷ cs) else (c ∷ before, rest)

-- `_TOPIC_RE.fullmatch`: the node id, which is not empty, and the kind.
unfoldable pub match_topic : List ℕ → Option (List ℕ × Kind)
match_topic topic = elim (without_prefix node_prefix topic) [
  | none ↦ none
  | some tail ↦
      let (node_id, suffix) = split_slash tail in
      elim node_id [
        | [] ↦ none
        | c ∷ cs ↦
            if same_text suffix reading_suffix
            then some (c ∷ cs, reading)
            else if same_text suffix status_suffix
            then some (c ∷ cs, status)
            else none
      ]
]

abbrev pub is_id_char : ℕ → Bool
is_id_char c =
    (leb b'A' c && leb c b'Z')
    || ((leb b'a' c && leb c b'z') || ((leb b'0' c && leb c b'9') || ((c == b'_') || (c == b'-'))))

unfoldable pub all_id_chars : List ℕ → Bool
all_id_chars [] = true
all_id_chars (c ∷ cs) = is_id_char c && all_id_chars cs

-- `_NODE_ID_RE.fullmatch` of mqtt/config.py.
unfoldable pub is_valid_node_id : List ℕ → Bool
is_valid_node_id id = all_id_chars id && (leb 1 (length id) && leb (length id) 50)

unfoldable pub last_of : List ℕ → List (List ℕ × ℕ) → Option ℕ
last_of id [] = none
last_of id ((k, t) ∷ seen) = let rest = last_of id seen in if same_text k id then some t else rest

unfoldable pub set_last : List ℕ → ℕ → List (List ℕ × ℕ) → List (List ℕ × ℕ)
set_last id now [] = (id, now) ∷ []
set_last id now ((k, t) ∷ seen) =
    let rest = set_last id now seen in if same_text k id then (k, now) ∷ seen else (k, t) ∷ rest

-- `sorted(_node_last_seen, key=…)`, which is stable.
unfoldable pub insert_seen : List ℕ × ℕ → List (List ℕ × ℕ) → List (List ℕ × ℕ)
insert_seen e [] = e ∷ []
insert_seen e (d ∷ seen) =
    let rest = insert_seen e seen in if leb e.1 d.1 then e ∷ d ∷ seen else d ∷ rest

unfoldable pub sort_seen : List (List ℕ × ℕ) → List (List ℕ × ℕ)
sort_seen [] = []
sort_seen (e ∷ seen) = insert_seen e (sort_seen seen)

-- `del _node_last_seen[key]`
unfoldable pub del_seen : List ℕ → List (List ℕ × ℕ) → List (List ℕ × ℕ)
del_seen id [] = []
del_seen id ((k, t) ∷ seen) =
    let rest = del_seen id seen in if same_text k id then seen else (k, t) ∷ rest

unfoldable pub del_each : List (List ℕ × ℕ) → List (List ℕ × ℕ) → List (List ℕ × ℕ)
del_each [] seen = seen
del_each (e ∷ es) seen = del_each es (del_seen e.0 seen)

-- The eviction of the oldest entries.
unfoldable pub prune : List (List ℕ × ℕ) → List (List ℕ × ℕ)
prune seen =
    if ltb node_last_seen_max (length seen)
    then del_each (take (length seen - node_last_seen_prune_to) (sort_seen seen)) seen
    else seen

-- Whether a node sent a message less than the interval ago.
unfoldable pub is_limited : ℕ → List ℕ → List (List ℕ × ℕ) → Bool
is_limited now id seen = elim (last_of id seen) [
  | none ↦ false
  | some last ↦ ltb (now - last) node_msg_min_interval
]

-- `_node_rate_limited`
unfoldable pub node_rate_limited : ℕ → List ℕ → List (List ℕ × ℕ) → Bool × List (List ℕ × ℕ)
node_rate_limited now id seen =
    if is_limited now id seen then (true, seen) else (false, prune (set_last id now seen))

-- `_device_time_is_stale`
unfoldable pub device_time_is_stale : (List ℕ → Option ℕ) → ℕ → List ℕ → Bool
device_time_is_stale device_time utc raw = elim (device_time raw) [
  | none ↦ false
  | some t ↦ leb (t + backlog_freshness) utc
]

-- The worker takes the first items of the queue.
unfoldable pub worker_takes : ℕ → Intake → Intake
worker_takes n s = record s { queue = drop n s.queue; taken = s.taken ++ take n s.queue }

-- `_enqueue`: `takes` says, for each attempt from the first on, counted down, how many items the
-- worker takes before it times out. The queue has `MQTT_QUEUE_MAX` places.
unfoldable pub enqueue : ℕ → ℕ → (ℕ → ℕ) → Item → Intake → Intake
enqueue queue_max zero takes item s = record s { overflow = s.overflow + 1 }
enqueue queue_max (suc attempts) takes item s =
    let s' = worker_takes (takes attempts) s in
    let later = enqueue queue_max attempts takes item s' in
    if ltb (length s'.queue) queue_max then record s' { queue = s'.queue ++ (item ∷ []) } else later

pub record Settings : Type 0 where
  pub queue_max : ℕ
  pub enqueue_max_attempts : ℕ

-- `_on_message`, at a monotonic and a UTC time.
unfoldable pub on_message :
    Settings → (List ℕ → Option ℕ) → ℕ → ℕ → (ℕ → ℕ) → Message → Intake → Intake
on_message cfg device_time now utc takes m s =
    let put : Item → Intake → Intake = enqueue cfg.queue_max cfg.enqueue_max_attempts takes in
    if ltb max_payload_bytes m.size then s else elim m.text [
      | none ↦ s
      | some raw ↦
          if same_text m.topic alerts_text
          then put (record { node_id = alerts_text; kind = alert; raw = raw }) s
          else elim (match_topic m.topic) [
            | none ↦ s
            | some (node_id, kind) ↦
                let (limited, seen) = node_rate_limited now node_id s.last_seen in
                let s' : Intake = record s { last_seen = seen } in
                if is_valid_node_id node_id
                then (if limited && not (device_time_is_stale device_time utc raw)
                    then s'
                    else put (record { node_id = node_id; kind = kind; raw = raw }) s')
                else s
          ]
    ]
