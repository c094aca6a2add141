-- ===== src/Mqtt/Ready.antt =====
-- When the client is ready, and that no subscription is lost (mqtt/client.py).
use empyrean_v2_backend.Base.{
  ℕ, ◌==◌, ◌≡◌, refl, subst, arith, Bool, true, false, ◌&&◌, ◌||◌, List, some, ltb, if◌then◌else◌,
  ◌⊎◌, inl, inr, Bool-cases, Option-cases,
}
use empyrean_v2_backend.Mqtt.Subscriptions.{
  Topic, reading_topic, status_topic, alerts_topic, Granted, Session, new_session, has, add,
  find_sub, del_sub, Answer, topics, on_connect, is_denied, on_subscribe, on_disconnect,
  maybe_retry_subscribes,
}
use empyrean_v2_backend.Mqtt.Pending.{
  IsPending, IsFresh, find_sub-del_sub, subscribe_each-Tried, is_topic,
}

-- The callbacks and the worker's tick, in the order in which they run.
pub data Run : Session → Type 0 where
  starts : Run new_session
  connects :
      (answer : Answer) (rc : ℕ) {s : Session}
      → Run s
      → IsFresh answer (λ t. false) topics s.pending
      → Run (on_connect answer rc s)
  acks :
      (mid : ℕ) (granted_qos : List ℕ) {s : Session} → Run s → Run (on_subscribe mid granted_qos s)
  disconnects : {s : Session} → Run s → Run (on_disconnect s)
  ticks :
      (now : ℕ) (answer : Answer) {s : Session}
      → Run s
      → IsFresh answer (λ t. has t s.granted) topics s.pending
      → Run (maybe_retry_subscribes now answer s)

-- While connected every topic is granted, awaited, or due for a retry.
abbrev pub IsCared : Session → Topic → Type 0
IsCared s t = (has t s.granted ≡ true) ⊎ (IsPending t s.pending ⊎ (s.subscribe_failed ≡ true))

pub record IsSound (s : Session) : Type 0 where
  pub readiness : s.ready ≡ s.granted.reading && s.granted.status
  pub cared : s.connected ≡ true → (t : Topic) → IsCared s t

IsSound-on_connect :
    (answer : Answer) (rc : ℕ) (s : Session)
    → IsFresh answer (λ t. false) topics s.pending
    → IsSound s
    → IsSound (on_connect answer rc s)
unfolding on_connect
IsSound-on_connect answer rc s fresh h = elim (Bool-cases (rc == 0)) [
  | inr e ↦ rw (e, on_connect) h
  | inl e ↦
      rw (e, on_connect)
        (record {
          readiness = h.readiness;
          cared = λ up t.
              elim (subscribe_each-Tried answer (λ t. false) topics s.pending t fresh
                (is_topic t)) [ inl skipped ↦ absurd (ground arith) | inr tried ↦ inr tried ];
        })
]

IsSound-maybe_retry :
    (now : ℕ) (answer : Answer) (s : Session)
    → IsFresh answer (λ t. has t s.granted) topics s.pending
    → IsSound s
    → IsSound (maybe_retry_subscribes now answer s)
unfolding maybe_retry_subscribes
IsSound-maybe_retry now answer s fresh h = elim (Bool-cases s.subscribe_failed) [
  | inr e ↦
      rw (e, maybe_retry_subscribes)
        (record { readiness = h.readiness; cared = λ up t. rw e at (h.cared up t) })
  | inl e ↦ elim (Bool-cases (ltb now s.next_subscribe_retry)) [
    | inl f ↦
        rw (maybe_retry_subscribes, e, f)
          (record { readiness = h.readiness; cared = λ up t. inr (inr refl) })
    | inr f ↦ elim (Bool-cases s.connected) [
      | inr g ↦
          rw (maybe_retry_subscribes, e, f, g)
            (record { readiness = h.readiness; cared = λ up t. inr (inr refl) })
      | inl g ↦
          rw (maybe_retry_subscribes, e, f, g)
            (record { readiness = h.readiness; cared = λ up t. inr (inr refl) })
    ]
  ]
]

has-add : (u t : Topic) (g : Granted) → has u g ≡ true → has u (add t g) ≡ true
has-add reading_topic reading_topic g h = refl
has-add reading_topic status_topic g h = h
has-add reading_topic alerts_topic g h = h
has-add status_topic reading_topic g h = h
has-add status_topic status_topic g h = refl
has-add status_topic alerts_topic g h = h
has-add alerts_topic reading_topic g h = h
has-add alerts_topic status_topic g h = h
has-add alerts_topic alerts_topic g h = refl

has-add_self : (t : Topic) (g : Granted) → has t (add t g) ≡ true
has-add_self reading_topic g = refl
has-add_self status_topic g = refl
has-add_self alerts_topic g = refl

has_all : (t : Topic) (g : Granted) → g.reading && (g.status && g.alerts) ≡ true → has t g ≡ true
has_all reading_topic g h = ground (arith, h)
has_all status_topic g h = ground (arith, h)
has_all alerts_topic g h = ground (arith, h)

ready_add :
    (t : Topic) (g : Granted) (ready : Bool)
    → ready ≡ g.reading && g.status
    → ((add t g).reading && (add t g).status) || ready ≡ (add t g).reading && (add t g).status
ready_add reading_topic g ready h = ground (arith, h)
ready_add status_topic g ready h = ground (arith, h)
ready_add alerts_topic g ready h = ground (arith, h)

-- A SUBACK that grants its topic leaves every other one cared for.
IsCared-grant :
    (mid : ℕ) (t u : Topic) (s : Session)
    → find_sub mid s.pending ≡ some t
    → IsCared s u
    → (has u (add t s.granted) ≡ true)
      ⊎ (IsPending u (del_sub mid s.pending)
          ⊎ ((if (add t s.granted).reading && ((add t s.granted).status && (add t s.granted).alerts)
                then false
                else s.subscribe_failed)
              ≡ true))
IsCared-grant mid t u s e (inl granted) = inl (has-add u t s.granted granted)
IsCared-grant mid t u s e (inr (inl (j, p))) = elim (Bool-cases (j == mid)) [
  | inr n ↦ inr (inl (j, ground (arith, find_sub-del_sub j mid s.pending, n, p)))
  | inl y ↦
      let same : j ≡ mid = ground (arith, y) in
      let here : find_sub mid s.pending ≡ some u =
        subst (λ i. find_sub i s.pending ≡ some u) same p in
      let topic : u ≡ t = ground (arith, here, e) in inl (rw topic (has-add_self t s.granted))
]
IsCared-grant mid t u s e (inr (inr failed)) =
    let g = add t s.granted in
    elim (Bool-cases (g.reading && (g.status && g.alerts))) [
      | inl all ↦ inl (has_all u g all)
      | inr some_left ↦ inr (inr (rw some_left failed))
    ]

IsSound-on_subscribe :
    (mid : ℕ) (granted_qos : List ℕ) (s : Session)
    → IsSound s
    → IsSound (on_subscribe mid granted_qos s)
unfolding on_subscribe
IsSound-on_subscribe mid granted_qos s h = elim (Option-cases (find_sub mid s.pending)) [
  | inl e ↦ rw (e, on_subscribe) h
  | inr (t, e) ↦ elim (Bool-cases (is_denied granted_qos)) [
    | inl f ↦
        rw (on_subscribe, e, f) (record { readiness = h.readiness; cared = λ up u. inr (inr refl) })
    | inr f ↦
        rw (on_subscribe, e, f)
          (record {
            readiness = ready_add t s.granted s.ready h.readiness;
            cared = λ up u. IsCared-grant mid t u s e (h.cared up u);
          })
  ]
]

IsSound-on_disconnect : (s : Session) → IsSound (on_disconnect s)
unfolding on_disconnect
IsSound-on_disconnect s = record { readiness = refl; cared = λ up t. absurd (ground arith) }

-- Whatever the order of connections, SUBACKs, denials, disconnections and ticks, as long as paho
-- gives a subscription no message id that is still awaited, the client is ready exactly when the
-- reading and the status topic are granted, and while it is connected no topic is forgotten: each
-- is granted, has a SUBACK outstanding, or is flagged for the retry.
pub Run-IsSound : {s : Session} → Run s → IsSound s
Run-IsSound starts = record { readiness = refl; cared = λ up t. absurd (ground arith) }
Run-IsSound (connects answer rc {s} r f) = IsSound-on_connect answer rc s f (Run-IsSound r)
Run-IsSound (acks mid granted_qos {s} r) = IsSound-on_subscribe mid granted_qos s (Run-IsSound r)
Run-IsSound (disconnects {s} r) = IsSound-on_disconnect s
Run-IsSound (ticks now answer {s} r f) = IsSound-maybe_retry now answer s f (Run-IsSound r)
