-- ===== src/Publisher/Retry.antt =====
-- No failed message is lost by a retry (mqtt/publisher.py, `_retry_failed_messages`).
use empyrean_v2_backend.Base.{
  ℕ, zero, suc, ◌+◌, ◌≤◌, ◌≡◌, refl, arith, List, [], ◌∷◌, ◌++◌, Option, none, some, length, take,
  drop, All, All-append, subst, sym, ap, ◌⊎◌, inl, inr, Option-cases, List-cases, length-take,
  length-drop,
}
use empyrean_v2_backend.Publisher.Queue.{
  Failed, Publisher, World, Client, retry_batch_size, max_failed_queue_size, get_client,
  build_client, retry_batch, retry_with, retry_failed_messages,
}
use empyrean_v2_backend.Publisher.Kept.{IsTaken, IsSettled, All-IsSettled}
use empyrean_v2_backend.Publisher.Batch.{All-IsSettled_queued, retry_batch-Ran}

pub get_client_lem :
    (w : World) (s : Publisher)
    → let s' = (get_client w s).1 in
      (s'.failed_queue ≡ s.failed_queue) × (s'.calls ≡ s.calls) × (s'.taken ≡ s.taken)
unfolding get_client
get_client_lem w s = elim (Option-cases s.client) [
  | inr (c, e) ↦ rw (get_client, e) (refl, refl, refl)
  | inl e ↦ elim (Option-cases (build_client w)) [
    | inl e' ↦ rw (get_client, e, e') (refl, refl, refl)
    | inr (c, e') ↦ rw (get_client, e, e') (refl, refl, refl)
  ]
]

append-take : {A : Type 0} (n : ℕ) (xs : List A) → take n xs ++ drop n xs ≡ xs
append-take zero xs = refl
append-take (suc n) [] = refl
append-take (suc n) (x ∷ xs) = rw (append-take n xs) refl

All-join :
    {A : Type 0} (P : A → Type 0) (n : ℕ) (xs : List A)
    → All P (take n xs)
    → All P (drop n xs)
    → All P xs
All-join P n xs h k = subst (All P) (append-take n xs) (All-append P (take n xs) (drop n xs) h k)

-- What a retry keeps of a queue, from a state that has it.
pub record Retried (w : World) (queue : List Failed) (s s' : Publisher) : Type 0 where
  pub settled : All (IsSettled w s') queue
  pub size : length s'.failed_queue ≤ length queue
  pub calls : s'.calls ≤ s.calls + retry_batch_size
  pub taken : (t : ℕ) → IsTaken t s.taken → IsTaken t s'.taken

Retried-refl : (w : World) (s : Publisher) → Retried w s.failed_queue s s
Retried-refl w s = record {
  settled = All-IsSettled_queued w s s.failed_queue (λ m q. q);
  size = omega arith;
  calls = omega arith;
  taken = λ t q. q;
}

retry_with_lem :
    (w : World) (c : Option Client) (s : Publisher)
    → length s.failed_queue ≤ max_failed_queue_size
    → Retried w s.failed_queue s (retry_with w c s).0
unfolding retry_with
retry_with_lem w none s h = Retried-refl w s
retry_with_lem w (some _) s h =
    let q = s.failed_queue in
    let left = drop retry_batch_size q in
    let s₀ = record s { failed_queue = left } in
    let taken = length-take {0} retry_batch_size q in
    let dropped = length-drop {0} retry_batch_size q in
    let ran = retry_batch-Ran w (take retry_batch_size q) s₀ (omega (arith, taken, dropped)) in
    let s' = (retry_batch w (take retry_batch_size q) s₀).0 in
    record {
      settled =
          All-join (IsSettled w s') retry_batch_size q ran.settled
            (All-IsSettled w left ran.keeps (All-IsSettled_queued w s₀ left (λ m q. q)));
      size = omega (arith, taken, dropped, ran.size);
      calls = omega (arith, taken, ran.calls);
      taken = ran.keeps.taken;
    }

retry_cases :
    (w : World) (s : Publisher)
    → ((retry_failed_messages w s).0 ≡ s)
      ⊎ ((retry_failed_messages w s).0 ≡ (retry_with w (get_client w s).0 (get_client w s).1).0)
unfolding retry_failed_messages
retry_cases w s = elim (List-cases s.failed_queue) [
  | inl e ↦ inl (ground (arith, e))
  | inr (m, q, e) ↦ inr (ground (arith, e))
]

pub retry_lem :
    (w : World) (s : Publisher)
    → length s.failed_queue ≤ max_failed_queue_size
    → Retried w s.failed_queue s (retry_failed_messages w s).0
retry_lem w s h = elim (retry_cases w s) [
  | inl e ↦ subst (Retried w s.failed_queue s) (sym e) (Retried-refl w s)
  | inr e ↦
      let c = get_client_lem w s in
      let r =
        retry_with_lem w (get_client w s).0 (get_client w s).1 (omega (arith, ap length c.0)) in
      subst (Retried w s.failed_queue s) (sym e) record {
        settled =
            subst (All (IsSettled w (retry_with w (get_client w s).0 (get_client w s).1).0)) c.0
              r.settled;
        size = omega (arith, r.size, ap length c.0);
        calls = omega (arith, r.calls, c.1);
        taken = λ t q. r.taken t (subst (IsTaken t) (sym c.2) q);
      }
]

-- A retry loses no message: each message of the queue is still there with one attempt more at most,
-- or the broker has taken its text, or it is not to be encoded, or it has had its five attempts;
-- this holds too where a `publish` raises and cuts the batch short. The queue does not grow, and ten
-- messages are sent at most. The queue may hold up to its hundred messages.
pub retry_failed_messages_keeps :
    (w : World) (s : Publisher)
    → length s.failed_queue ≤ max_failed_queue_size
    → let s' = (retry_failed_messages w s).0 in
      All (IsSettled w s') s.failed_queue
      × (length s'.failed_queue ≤ length s.failed_queue)
      × (s'.calls ≤ s.calls + retry_batch_size)
retry_failed_messages_keeps w s h = let r = retry_lem w s h in (r.settled, r.size, r.calls)
