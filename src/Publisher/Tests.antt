-- ===== src/Publisher/Tests.antt =====
-- Tests of the publisher, and its theorems at a queue that waits.
use empyrean_v2_backend.Base.{
  ℕ, zero, suc, ◌+◌, ◌≤◌, ◌≡◌, refl, arith, Bool, true, false, [], ◌∷◌, none, some, length, All,
  ◌⊎◌, ◌↔◌,
}
use empyrean_v2_backend.Publisher.Queue.{
  Payload, rc, raised, Client, Publisher, World, build_client, get_client, append, append_left,
  extend_left_reversed, answered, publish, requeue, after_retry, retry_one, retry_batch, retry_with,
  retry_failed_messages, publish_alert, broker_requires_tls,
}
use empyrean_v2_backend.Publisher.Kept.{IsSettled}
use empyrean_v2_backend.Publisher.Retry.{retry_failed_messages_keeps}
use empyrean_v2_backend.Publisher.Alert.{
  IsHandled, trimmed, publish_alert_keeps, publish_alert_raises,
}

abbrev alert : ℕ → Payload
alert n = record { node_id = n; aqi = 160; category = some 4; severity = 1; timestamp = 7 }

abbrev world : World
world = record {
  config = record {
    use_tls = false;
    has_ca_certs = false;
    has_tls_cert = false;
    has_tls_key = false;
    broker_port = 1883;
  };
  constructs = true;
  is_connected = true;
  dumps = λ p. some (p.node_id + 100);
  answer = λ n. elim n [ zero ↦ rc 0 | suc zero ↦ rc 4 | _ ↦ raised ];
}

abbrev waiting : Publisher
waiting = record {
  client = none;
  failed_queue =
      (record { payload = alert 1; attempt = 4 })
      ∷ (record { payload = alert 2; attempt = 0 })
      ∷ (record { payload = alert 3; attempt = 0 })
      ∷ [];
  calls = 0;
  taken = [];
}

-- The first message is taken, the second fails, the third raises.
abbrev retried : Publisher × Bool
retried = retry_failed_messages world waiting

retried_queue :
    retried.0.failed_queue
    ≡ (record { payload = alert 2; attempt = 1 }) ∷ (record { payload = alert 3; attempt = 1 }) ∷ []
unfolding retry_failed_messages get_client build_client retry_with retry_batch retry_one publish
    answered after_retry requeue append extend_left_reversed append_left broker_requires_tls
retried_queue = refl

-- No plain text to a port for TLS.
tls_port :
    build_client (record world { config = record (world.config) { broker_port = 8883 } }) ≡ none
unfolding build_client broker_requires_tls
tls_port = refl

retry_failed_messages_keeps_example :
    let s' = (retry_failed_messages world waiting).0 in
    All (IsSettled world s') waiting.failed_queue × (length s'.failed_queue ≤ 3) × (s'.calls ≤ 10)
retry_failed_messages_keeps_example = retry_failed_messages_keeps world waiting (omega arith)

publish_alert_keeps_example :
    let (s', raises) = publish_alert world (alert 9) waiting in
    (length s'.failed_queue ≤ 100)
    × All (IsSettled world s') (trimmed waiting.failed_queue)
    × (IsHandled world s' (alert 9) ⊎ (raises ≡ true))
publish_alert_keeps_example = publish_alert_keeps world (alert 9) waiting (omega arith)

-- A broker whose every call raises.
abbrev broken : World
broken = record world { answer = λ n. raised }

publish_alert_raises_example : ((publish_alert broken (alert 9) waiting).1 ≡ true) ↔ (
    ((c : Client) × ((get_client broken waiting).0 ≡ some c))
    × (broken.is_connected ≡ true)
    × ((text : ℕ) × (broken.dumps (alert 9) ≡ some text))
    × (broken.answer 0 ≡ raised))
publish_alert_raises_example = publish_alert_raises broken (alert 9) waiting
