-- ===== src/Publisher/Batch.antt =====
-- The loop of `_retry_failed_messages` (mqtt/publisher.py) on its batch.
use empyrean_v2_backend.Base.{
  ℕ, suc, ◌+◌, ◌≤◌, ◌==◌, ◌≡◌, refl, arith, true, List, [], ◌∷◌, ◌++◌, some, leb, length, All, inl,
  inr, Bool-cases, Option-cases, length-append,
}
use empyrean_v2_backend.Publisher.Queue.{
  Failed, Answer, rc, raised, Publisher, World, max_retry_attempts, max_failed_queue_size,
  extend_left_reversed, answered, publish, requeue, after_retry, retry_one, retry_batch,
}
use empyrean_v2_backend.Publisher.Kept.{
  IsQueued, IsTaken, IsSettled, Keeps, Keeps-trans, IsSettled-Keeps, IsQueued-append,
  IsQueued-append_right, IsTaken-append, IsTaken-last, append-room, extend_left-room,
}

-- A turn of the loop, on a queue with room for the message.
pub record Turned (w : World) (m : Failed) (s s' : Publisher) : Type 0 where
  pub size : length s'.failed_queue ≤ suc (length s.failed_queue)
  pub settled : IsSettled w s' m
  pub keeps : Keeps s s'
  pub calls : s'.calls ≤ suc s.calls

pub answered_lem :
    (a : Answer) (t : ℕ) (s : Publisher)
    → let s' = answered a t s in
      Keeps s s' × (length s'.failed_queue ≡ length s.failed_queue) × (s'.calls ≡ suc s.calls)
unfolding answered
answered_lem raised t s = (record { queued = λ m q. q; taken = λ t q. q }, refl, omega arith)
answered_lem (rc n) t s = elim (Bool-cases (n == 0)) [
  | inl e ↦ rw e (
    record { queued = λ m q. q; taken = λ u q. IsTaken-append u s.taken (t ∷ []) q },
    refl,
    omega arith,
  )
  | inr e ↦ rw e (record { queued = λ m q. q; taken = λ t q. q }, refl, omega arith)
]

-- A message that goes back to a queue with room is there, behind the others.
pub requeue_lem :
    (m : Failed) (s : Publisher)
    → suc (length s.failed_queue) ≤ max_failed_queue_size
    → let s' = requeue m s in
      Keeps s s'
      × IsQueued m s'.failed_queue
      × (length s'.failed_queue ≡ suc (length s.failed_queue))
      × (s'.calls ≡ s.calls)
unfolding requeue
requeue_lem m s h =
    let m' = record m { attempt = m.attempt + 1 } in
    rw (append-room m' s.failed_queue h) (
      record { queued = λ x q. IsQueued-append x s.failed_queue (m' ∷ []) q; taken = λ t q. q },
      IsQueued-append_right m s.failed_queue (m' ∷ []) (inl (refl, omega arith, omega arith)),
      omega (arith, length-append {0} s.failed_queue (m' ∷ [])),
      refl,
    )

pub answered_queue :
    (a : Answer) (t : ℕ) (s : Publisher) → (answered a t s).failed_queue ≡ s.failed_queue
unfolding answered
answered_queue raised t s = refl
answered_queue (rc n) t s = ground arith

pub answered-IsTaken :
    (n t : ℕ) (s : Publisher) → (n == 0) ≡ true → IsTaken t (answered (rc n) t s).taken
unfolding answered
answered-IsTaken n t s e = rw e (IsTaken-last t s.taken)

pub Turned-requeue :
    (w : World) (m : Failed) (t : ℕ) (a : Answer) (s : Publisher)
    → suc (length s.failed_queue) ≤ max_failed_queue_size
    → Turned w m s (requeue m (answered a t s))
Turned-requeue w m t a s h =
    let called = answered_lem a t s in
    let back = requeue_lem m (answered a t s) (omega (arith, called.1)) in
    record {
      size = omega (arith, called.1, back.2);
      settled = inl back.1;
      keeps = Keeps-trans called.0 back.0;
      calls = omega (arith, called.2, back.3);
    }

pub after_retry_lem :
    (w : World) (m : Failed) (t : ℕ) (a : Answer) (s : Publisher)
    → suc (length s.failed_queue) ≤ max_failed_queue_size
    → w.dumps m.payload ≡ some t
    → Turned w m s (after_retry m a (answered a t s)).0
unfolding after_retry
after_retry_lem w m t raised s h e = Turned-requeue w m t raised s h
after_retry_lem w m t (rc n) s h e = elim (Bool-cases (n == 0)) [
  | inr no_ ↦ rw no_ (Turned-requeue w m t (rc n) s h)
  | inl zero_ ↦
      let called = answered_lem (rc n) t s in
      rw zero_ record {
        size = omega (arith, called.1);
        settled = inr (inl (t, e, answered-IsTaken n t s zero_));
        keeps = called.0;
        calls = omega (arith, called.2);
      }
]

pub Turned-stay : (w : World) (m : Failed) (s : Publisher) → IsSettled w s m → Turned w m s s
Turned-stay w m s h = record {
  size = omega arith;
  settled = h;
  keeps = record { queued = λ x q. q; taken = λ t q. q };
  calls = omega arith;
}

pub retry_one_lem :
    (w : World) (m : Failed) (s : Publisher)
    → suc (length s.failed_queue) ≤ max_failed_queue_size
    → Turned w m s (retry_one w m s).0
unfolding retry_one publish
retry_one_lem w m s h = elim (Bool-cases (leb max_retry_attempts m.attempt)) [
  | inl e ↦ rw e (Turned-stay w m s (inr (inr (inr (ground (arith, e))))))
  | inr e ↦ rw e (elim (Option-cases (w.dumps m.payload)) [
    | inl e' ↦ rw e' (Turned-stay w m s (inr (inr (inl e'))))
    | inr (t, e') ↦ rw e' (after_retry_lem w m t (w.answer s.calls) s h e')
  ])
]

-- A whole batch.
pub record Ran (w : World) (batch : List Failed) (s s' : Publisher) : Type 0 where
  pub size : length s'.failed_queue ≤ length batch + length s.failed_queue
  pub settled : All (IsSettled w s') batch
  pub keeps : Keeps s s'
  pub calls : s'.calls ≤ length batch + s.calls

pub All-IsSettled_queued :
    (w : World) (s : Publisher) (batch : List Failed)
    → ((m : Failed) → IsQueued m batch → IsQueued m s.failed_queue)
    → All (IsSettled w s) batch
All-IsSettled_queued w s [] sub = tt
All-IsSettled_queued w s (m ∷ batch) sub = (
  inl (sub m (inl (refl, omega arith, omega arith))),
  All-IsSettled_queued w s batch (λ x q. sub x (inr q)),
)

-- What the `finally` puts back is queued.
pub put_back_lem :
    (w : World) (batch : List Failed) (s : Publisher)
    → length batch + length s.failed_queue ≤ max_failed_queue_size
    → Ran w batch s (record s { failed_queue = extend_left_reversed batch s.failed_queue })
put_back_lem w batch s h = rw (extend_left-room batch s.failed_queue h) (
    let s' = record s { failed_queue = batch ++ s.failed_queue } in
    record {
      size = omega (arith, length-append {0} batch s.failed_queue);
      settled = All-IsSettled_queued w s' batch (λ m q. IsQueued-append m batch s.failed_queue q);
      keeps = record {
        queued = λ m q. IsQueued-append_right m batch s.failed_queue q;
        taken = λ t q. q;
      };
      calls = omega arith;
    })

pub Ran-cons :
    (w : World) (m : Failed) (batch : List Failed) {s t u : Publisher}
    → Turned w m s t
    → Ran w batch t u
    → Ran w (m ∷ batch) s u
Ran-cons w m batch h k = record {
  size = omega (arith, h.size, k.size);
  settled = (IsSettled-Keeps w m k.keeps h.settled, k.settled);
  keeps = Keeps-trans h.keeps k.keeps;
  calls = omega (arith, h.calls, k.calls);
}

pub retry_batch-Ran :
    (w : World) (batch : List Failed) (s : Publisher)
    → length batch + length s.failed_queue ≤ max_failed_queue_size
    → Ran w batch s (retry_batch w batch s).0
unfolding retry_batch
retry_batch-Ran w [] s h = record {
  size = omega arith;
  settled = tt;
  keeps = record { queued = λ m q. q; taken = λ t q. q };
  calls = omega arith;
}
retry_batch-Ran w (m ∷ batch) s h =
    let turn = retry_one_lem w m s (omega arith) in
    let s' = (retry_one w m s).0 in
    elim (Bool-cases (retry_one w m s).1) [
      | inl e ↦ rw e (Ran-cons w m batch turn (put_back_lem w batch s' (omega (arith, turn.size))))
      | inr e ↦
          rw e (Ran-cons w m batch turn (retry_batch-Ran w batch s' (omega (arith, turn.size))))
    ]
