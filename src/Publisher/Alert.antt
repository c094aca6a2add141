-- ===== src/Publisher/Alert.antt =====
-- What becomes of a new alert (mqtt/publisher.py, `publish_alert`).
use empyrean_v2_backend.Base.{
  ℕ, suc, ◌≤◌, ◌==◌, ◌≡◌, refl, arith, Bool, true, false, List, [], ◌∷◌, ◌++◌, Option, none, some,
  leb, length, drop, All, All-drop, subst, sym, ap, ◌∙◌, if◌then◌else◌, ◌⊎◌, inl, inr, ◌↔◌,
  Bool-cases, Option-cases, length-append, length-drop,
}
use empyrean_v2_backend.Publisher.Queue.{
  Payload, Failed, Answer, rc, raised, Publisher, World, Client, max_failed_queue_size, get_client,
  answered, publish, retry_failed_messages, queue_failed_message, after_publish, publish_with,
  publish_alert,
}
use empyrean_v2_backend.Publisher.Kept.{
  IsQueued, IsTaken, IsSettled, IsQueued-append, IsQueued-append_right, append-room, All-IsSettled,
  Keeps,
}
use empyrean_v2_backend.Publisher.Batch.{
  answered-IsTaken, answered_queue, answered_lem, All-IsSettled_queued,
}
use empyrean_v2_backend.Publisher.Retry.{retry_lem, get_client_lem}

-- The new alert is at the end of the queue with no attempt, or taken, or not to be encoded.
abbrev pub IsHandled : World → Publisher → Payload → Type 0
IsHandled w s p =
    IsQueued (record { payload = p; attempt = 0 }) s.failed_queue
    ⊎ (((text : ℕ) × (w.dumps p ≡ some text) × IsTaken text s.taken) ⊎ (w.dumps p ≡ none))

-- The messages that a full queue keeps when one more comes: all but the oldest.
abbrev pub trimmed : List Failed → List Failed
trimmed q = if leb max_failed_queue_size (length q) then drop 1 q else q

-- What `publish_alert` leaves of a queue, and of the new alert unless it raises.
record Published (w : World) (p : Payload) (q : List Failed) (r : Publisher × Bool) : Type 0 where
  size : length r.0.failed_queue ≤ max_failed_queue_size
  settled : All (IsSettled w r.0) (trimmed q)
  handled : IsHandled w r.0 p ⊎ (r.1 ≡ true)

trimmed_size :
    (q : List Failed)
    → length q ≤ max_failed_queue_size
    → suc (length (trimmed q)) ≤ max_failed_queue_size
trimmed_size q h = ground (arith, length-drop {0} 1 q)

All-trimmed : (P : Failed → Type 0) (q : List Failed) → All P q → All P (trimmed q)
All-trimmed P q h = elim (Bool-cases (leb max_failed_queue_size (length q))) [
  | inl e ↦ rw e (All-drop P 1 q h)
  | inr e ↦ rw e h
]

queue_failed_message_lem :
    (w : World) (p : Payload) (s : Publisher)
    → length s.failed_queue ≤ max_failed_queue_size
    → Published w p s.failed_queue (queue_failed_message p s, false)
unfolding queue_failed_message
queue_failed_message_lem w p s h =
    let q = trimmed s.failed_queue in
    let m : Failed = record { payload = p; attempt = 0 } in
    let room = append-room m q (trimmed_size s.failed_queue h) in
    rw room record {
      size = omega (arith, length-append {0} q (m ∷ []), trimmed_size s.failed_queue h);
      settled =
          All-IsSettled_queued w (record s { failed_queue = q ++ (m ∷ []) }) q
            (λ x. IsQueued-append x q (m ∷ []));
      handled =
          inl (inl (IsQueued-append_right m q (m ∷ []) (inl (refl, omega arith, omega arith))));
    }

IsSettled-trimmed :
    (w : World) (s s' : Publisher) → Keeps s s' → All (IsSettled w s') (trimmed s.failed_queue)
IsSettled-trimmed w s s' k =
    All-trimmed (IsSettled w s') s.failed_queue
      (All-IsSettled w s.failed_queue k (All-IsSettled_queued w s s.failed_queue (λ m q. q)))

after_publish_lem :
    (w : World) (p : Payload) (t : ℕ) (a : Answer) (s : Publisher)
    → length s.failed_queue ≤ max_failed_queue_size
    → w.dumps p ≡ some t
    → Published w p s.failed_queue (after_publish w p a (answered a t s))
unfolding after_publish
after_publish_lem w p t raised s h e =
    let called = answered_lem raised t s in
    record {
      size = omega (arith, called.1);
      settled = IsSettled-trimmed w s (answered raised t s) called.0;
      handled = inr refl;
    }
after_publish_lem w p t (rc n) s h e =
    let same = answered_queue (rc n) t s in
    let s' = answered (rc n) t s in
    elim (Bool-cases (n == 0)) [
      | inr no_ ↦ rw no_ (
          subst (λ q. Published w p q (queue_failed_message p s', false)) same
            (queue_failed_message_lem w p s' (omega (arith, ap length same))))
      | inl zero_ ↦
          let r = retry_lem w s' (omega (arith, ap length same)) in
          let s'' = (retry_failed_messages w s').0 in
          rw zero_ record {
            size = omega (arith, r.size, ap length same);
            settled =
                All-trimmed (IsSettled w s'') s.failed_queue
                  (subst (All (IsSettled w s'')) same r.settled);
            handled = inl (inr (inl (t, e, r.taken t (answered-IsTaken n t s zero_))));
          }
    ]

module _ (w : World) (p : Payload) (c : Client) (s : Publisher) where
  publish_with-off :
      w.is_connected ≡ false → publish_with w p (some c) s ≡ (queue_failed_message p s, false)
  unfolding publish_with
  publish_with-off off = ground (arith, off)

  publish_with-unencoded :
      w.is_connected ≡ true → w.dumps p ≡ none → publish_with w p (some c) s ≡ (s, false)
  unfolding publish_with
  publish_with-unencoded on e = ground (arith, on, e)

  publish_with-sent :
      (t : ℕ)
      → w.is_connected ≡ true
      → w.dumps p ≡ some t
      → publish_with w p (some c) s
        ≡ after_publish w p (w.answer s.calls) (answered (w.answer s.calls) t s)
  unfolding publish_with publish
  publish_with-sent t on e = ground (arith, on, e)

publish_with_lem :
    (w : World) (p : Payload) (c : Option Client) (s : Publisher)
    → length s.failed_queue ≤ max_failed_queue_size
    → Published w p s.failed_queue (publish_with w p c s)
unfolding publish_with
publish_with_lem w p none s h = queue_failed_message_lem w p s h
publish_with_lem w p (some c) s h =
    let back = λ (r : Publisher × Bool) (e : publish_with w p (some c) s ≡ r).
      subst (Published w p s.failed_queue) (sym e) in
    elim (Bool-cases w.is_connected) [
      | inr off ↦ back _ (publish_with-off w p c s off) (queue_failed_message_lem w p s h)
      | inl on ↦ elim (Option-cases (w.dumps p)) [
        | inr (t, e) ↦
            back _ (publish_with-sent w p c s t on e)
              (after_publish_lem w p t (w.answer s.calls) s h e)
        | inl e ↦ back _ (publish_with-unencoded w p c s on e) record {
          size = h;
          settled = IsSettled-trimmed w s s (record { queued = λ m q. q; taken = λ t q. q });
          handled = inl (inr (inr e));
        }
      ]
    ]

-- The queue never holds more than its hundred messages. Unless `publish_alert` raises, the new alert
-- has been taken by the broker, or waits in the queue, or cannot be encoded. Every message that
-- waited before is still there with one attempt more at most, or was taken, or cannot be encoded, or
-- has had its five attempts, save that a full queue may give up its oldest.
pub publish_alert_keeps :
    (w : World) (p : Payload) (s : Publisher)
    → length s.failed_queue ≤ max_failed_queue_size
    → let (s', raises) = publish_alert w p s in
      (length s'.failed_queue ≤ max_failed_queue_size)
      × All (IsSettled w s') (trimmed s.failed_queue)
      × (IsHandled w s' p ⊎ (raises ≡ true))
unfolding publish_alert
publish_alert_keeps w p s h =
    let c = get_client_lem w s in
    let r =
      publish_with_lem w p (get_client w s).0 (get_client w s).1 (omega (arith, ap length c.0)) in
    let settled =
      subst (λ q. All (IsSettled w (publish_alert w p s).0) (trimmed q)) c.0 r.settled in
    (r.size, settled, r.handled)

after_publish_raises :
    (w : World) (p : Payload) (a : Answer) (s : Publisher)
    → ((after_publish w p a s).1 ≡ true) ↔ (a ≡ raised)
unfolding after_publish
after_publish_raises w p raised s = (λ h. refl, λ h. refl)
after_publish_raises w p (rc n) s = (λ h. absurd (ground arith), λ h. absurd (ground arith))

publish_with_raises :
    (w : World) (p : Payload) (c : Option Client) (s : Publisher)
    → ((publish_with w p c s).1 ≡ true) ↔ (
        ((c' : Client) × (c ≡ some c'))
        × (w.is_connected ≡ true)
        × ((text : ℕ) × (w.dumps p ≡ some text))
        × (w.answer s.calls ≡ raised))
unfolding publish_with
publish_with_raises w p none s = (λ h. absurd (ground arith), λ h. absurd (ground (arith, h.0.1)))
publish_with_raises w p (some c) s = elim (Bool-cases w.is_connected) [
  | inr off ↦
      let e = publish_with-off w p c s off in
      (λ h. absurd (ground (arith, e)), λ h. absurd (ground (arith, off)))
  | inl on ↦ elim (Option-cases (w.dumps p)) [
    | inl d ↦
        let e = publish_with-unencoded w p c s on d in
        (λ h. absurd (ground (arith, e)), λ h. absurd (ground (arith, h.2.1, d)))
    | inr (t, d) ↦
        let e = publish_with-sent w p c s t on d in
        let a = after_publish_raises w p (w.answer s.calls) (answered (w.answer s.calls) t s) in
        (
          λ h. ((c, refl), on, (t, d), a.0 (ap (λ r. r.1) (sym e) ∙ h)),
          λ h. ap (λ r. r.1) e ∙ a.1 h.3,
        )
  ]
]

-- `publish_alert` raises in exactly one case: there is a client, it is connected, the alert can be
-- encoded, and the call of `publish` raises. An exception within the retry does not escape.
pub publish_alert_raises :
    (w : World) (p : Payload) (s : Publisher)
    → ((publish_alert w p s).1 ≡ true) ↔ (
        ((c : Client) × ((get_client w s).0 ≡ some c))
        × (w.is_connected ≡ true)
        × ((text : ℕ) × (w.dumps p ≡ some text))
        × (w.answer s.calls ≡ raised))
unfolding publish_alert
publish_alert_raises w p s =
    let c = get_client_lem w s in
    let h = publish_with_raises w p (get_client w s).0 (get_client w s).1 in
    rw (ap w.answer c.1) at h
