-- ===== src/Publisher/Queue.antt =====
-- The alert publisher of mqtt/publisher.py: the lazy client, the bounded queue of failed messages
-- and their retry. `json.dumps` and the answers of the broker are parameters: the n-th call of
-- `client.publish` in the life of the process gets the n-th answer.
use empyrean_v2_backend.Base.{
  ℕ, ◌+◌, ◌==◌, Bool, true, false, ◌&&◌, ◌||◌, not, List, [], ◌∷◌, ◌++◌, Option, none, some, leb,
  length, take, drop, if◌then◌else◌,
}

-- The members of an alert's payload; texts that are only passed on are numbers.
pub record Payload : Type 0 where
  pub node_id : ℕ
  pub aqi : ℕ
  pub category : Option ℕ
  pub severity : ℕ
  pub timestamp : ℕ

-- A failed message with its attempts.
pub record Failed : Type 0 where
  pub payload : Payload
  pub attempt : ℕ

-- What `client.publish` does: `info.rc`, or an exception.
pub data Answer : Type 0 where
  rc : ℕ → Answer
  raised : Answer

pub record Config : Type 0 where
  pub use_tls : Bool
  pub has_ca_certs : Bool
  pub has_tls_cert : Bool
  pub has_tls_key : Bool
  pub broker_port : ℕ

-- A paho client: whether `tls_set` was called on it, and the port that it connects to.
pub record Client : Type 0 where
  pub tls : Bool
  pub port : ℕ

-- The module's globals `_client` and `_failed_queue`, and what the broker has: the calls of
-- `publish` so far, and the texts that it took.
pub record Publisher : Type 0 where
  pub client : Option Client
  pub failed_queue : List Failed
  pub calls : ℕ
  pub taken : List ℕ

-- What lies outside the module: the settings, whether paho builds a client, whether the client is
-- connected, `json.dumps`, and the answers to `publish`.
pub record World : Type 0 where
  pub config : Config
  pub constructs : Bool
  pub is_connected : Bool
  pub dumps : Payload → Option ℕ
  pub answer : ℕ → Answer

abbrev pub max_retry_attempts : ℕ
max_retry_attempts = 5

abbrev pub retry_batch_size : ℕ
retry_batch_size = 10

abbrev pub max_failed_queue_size : ℕ
max_failed_queue_size = 100

-- `_broker_requires_tls`
unfoldable pub broker_requires_tls : Config → Bool
broker_requires_tls cfg = (cfg.broker_port == 8883) || (cfg.broker_port == 8884)

-- The client that `_get_client` builds, or none where it refuses or fails.
unfoldable pub build_client : World → Option Client
build_client w =
    let cfg = w.config in
    if not w.constructs
    then none
    else if cfg.use_tls
    then (if cfg.has_ca_certs && (cfg.has_tls_cert && cfg.has_tls_key)
        then some (record { tls = true; port = cfg.broker_port })
        else none)
    else if broker_requires_tls cfg
    then none
    else some (record { tls = false; port = cfg.broker_port })

-- `_get_client`
unfoldable pub get_client : World → Publisher → Option Client × Publisher
get_client w s = elim s.client [
  | some c ↦ (some c, s)
  | none ↦ elim (build_client w) [
    | none ↦ (none, s)
    | some c ↦ (some c, record s { client = some c })
  ]
]

-- `deque.append` and `deque.appendleft` on a deque with that `maxlen`: the other end gives way.
unfoldable pub append : Failed → List Failed → List Failed
append x q = if leb max_failed_queue_size (length q) then drop 1 (q ++ (x ∷ [])) else q ++ (x ∷ [])

unfoldable pub append_left : Failed → List Failed → List Failed
append_left x q = take max_failed_queue_size (x ∷ q)

-- `extendleft(reversed(batch))`
unfoldable pub extend_left_reversed : List Failed → List Failed → List Failed
extend_left_reversed [] q = q
extend_left_reversed (x ∷ xs) q = append_left x (extend_left_reversed xs q)

-- What a call of `client.publish` leaves behind.
unfoldable pub answered : Answer → ℕ → Publisher → Publisher
answered raised text s = record s { calls = s.calls + 1 }
answered (rc n) text s =
    if n == 0
    then record s { calls = s.calls + 1; taken = s.taken ++ (text ∷ []) }
    else record s { calls = s.calls + 1 }

-- A call of `client.publish` with a text.
unfoldable pub publish : World → ℕ → Publisher → Answer × Publisher
publish w text s = (w.answer s.calls, answered (w.answer s.calls) text s)

-- The message goes to the end of the queue with one attempt more.
unfoldable pub requeue : Failed → Publisher → Publisher
requeue m s = record s {
  failed_queue = append (record m { attempt = m.attempt + 1 }) s.failed_queue;
}

-- What the loop does with an answer, and whether it raises.
unfoldable pub after_retry : Failed → Answer → Publisher → Publisher × Bool
after_retry m raised s = (requeue m s, true)
after_retry m (rc n) s = if n == 0 then (s, false) else (requeue m s, false)

-- A turn of the loop of `_retry_failed_messages`, and whether it raises.
unfoldable pub retry_one : World → Failed → Publisher → Publisher × Bool
retry_one w m s =
    if leb max_retry_attempts m.attempt then (s, false) else elim (w.dumps m.payload) [
      | none ↦ (s, false)
      | some text ↦ let (a, s') = publish w text s in after_retry m a s'
    ]

-- The loop, with its `finally`: what is left of the batch goes back to the front.
unfoldable pub retry_batch : World → List Failed → Publisher → Publisher × Bool
retry_batch w [] s = (s, false)
retry_batch w (m ∷ batch) s =
    let turn = retry_one w m s in
    let rest = retry_batch w batch turn.0 in
    if turn.1
    then (record turn.0 { failed_queue = extend_left_reversed batch turn.0.failed_queue }, true)
    else rest

-- The batch is popped and retried, if there is a client.
unfoldable pub retry_with : World → Option Client → Publisher → Publisher × Bool
retry_with w none s = (s, false)
retry_with w (some _) s =
    retry_batch w (take retry_batch_size s.failed_queue)
      (record s { failed_queue = drop retry_batch_size s.failed_queue })

-- `_retry_failed_messages`, and whether it raises.
unfoldable pub retry_failed_messages : World → Publisher → Publisher × Bool
retry_failed_messages w s = elim s.failed_queue [
  | [] ↦ (s, false)
  | _ ∷ _ ↦ retry_with w (get_client w s).0 (get_client w s).1
]

-- `_queue_failed_message`
unfoldable pub queue_failed_message : Payload → Publisher → Publisher
queue_failed_message p s =
    let q =
      if leb max_failed_queue_size (length s.failed_queue)
      then drop 1 s.failed_queue
      else s.failed_queue in
    record s { failed_queue = append (record { payload = p; attempt = 0 }) q }

-- What `publish_alert` does with an answer: the exception of `publish` is not caught, that of the
-- retry is.
unfoldable pub after_publish : World → Payload → Answer → Publisher → Publisher × Bool
after_publish w p raised s = (s, true)
after_publish w p (rc n) s =
    if n == 0 then ((retry_failed_messages w s).0, false) else (queue_failed_message p s, false)

-- `publish_alert` once the client is known.
unfoldable pub publish_with : World → Payload → Option Client → Publisher → Publisher × Bool
publish_with w p none s = (queue_failed_message p s, false)
publish_with w p (some _) s =
    if w.is_connected
    then elim (w.dumps p) [
      | none ↦ (s, false)
      | some text ↦ let (a, s') = publish w text s in after_publish w p a s'
    ]
    else (queue_failed_message p s, false)

-- `publish_alert`, and whether it raises.
unfoldable pub publish_alert : World → Payload → Publisher → Publisher × Bool
publish_alert w p s = publish_with w p (get_client w s).0 (get_client w s).1

-- `get_publisher_stats`
pub record Stats : Type 0 where
  pub client_connected : Bool
  pub failed_queue_size : ℕ

unfoldable pub get_publisher_stats : World → Publisher → Stats
get_publisher_stats w s = record {
  client_connected = elim s.client [ none ↦ false | some _ ↦ w.is_connected ];
  failed_queue_size = length s.failed_queue;
}
