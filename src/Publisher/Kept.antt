-- ===== src/Publisher/Kept.antt =====
-- What becomes of the messages in the publisher's queue, and when the deque drops nothing.
use empyrean_v2_backend.Base.{
  ℕ, zero, suc, ◌+◌, ◌≤◌, ◌≡◌, refl, arith, List, [], ◌∷◌, ◌++◌, none, some, length, take, All, ◌⊎◌,
  inl, inr, length-append,
}
use empyrean_v2_backend.Publisher.Queue.{
  Failed, Publisher, World, max_retry_attempts, max_failed_queue_size, append, append_left,
  extend_left_reversed,
}

-- The message is in the queue, with one attempt more at most.
abbrev pub IsQueued : Failed → List Failed → Type 0
IsQueued m [] = ⊥
IsQueued m (x ∷ q) =
    ((x.payload ≡ m.payload) × (m.attempt ≤ x.attempt) × (x.attempt ≤ m.attempt + 1)) ⊎ IsQueued m q

abbrev pub IsTaken : ℕ → List ℕ → Type 0
IsTaken t [] = ⊥
IsTaken t (x ∷ xs) = (x ≡ t) ⊎ IsTaken t xs

-- The fate of a message: still in the queue, taken by the broker, not to be encoded, or out of
-- attempts.
abbrev pub IsSettled : World → Publisher → Failed → Type 0
IsSettled w s m =
    IsQueued m s.failed_queue
    ⊎ (((text : ℕ) × (w.dumps m.payload ≡ some text) × IsTaken text s.taken)
        ⊎ ((w.dumps m.payload ≡ none) ⊎ (max_retry_attempts ≤ m.attempt)))

-- What is in the queue stays there, and what the broker has taken it keeps.
pub record Keeps (s s' : Publisher) : Type 0 where
  pub queued : (m : Failed) → IsQueued m s.failed_queue → IsQueued m s'.failed_queue
  pub taken : (t : ℕ) → IsTaken t s.taken → IsTaken t s'.taken

pub Keeps-trans : {s t u : Publisher} → Keeps s t → Keeps t u → Keeps s u
Keeps-trans h k = record {
  queued = λ m q. k.queued m (h.queued m q);
  taken = λ t q. k.taken t (h.taken t q);
}

pub IsSettled-Keeps :
    (w : World) {s s' : Publisher} (m : Failed) → Keeps s s' → IsSettled w s m → IsSettled w s' m
IsSettled-Keeps w m k (inl q) = inl (k.queued m q)
IsSettled-Keeps w m k (inr (inl (t, e, q))) = inr (inl (t, e, k.taken t q))
IsSettled-Keeps w m k (inr (inr h)) = inr (inr h)

pub All-IsSettled :
    (w : World) {s s' : Publisher} (q : List Failed)
    → Keeps s s'
    → All (IsSettled w s) q
    → All (IsSettled w s') q
All-IsSettled w [] k h = tt
All-IsSettled w (m ∷ q) k h = (IsSettled-Keeps w m k h.0, All-IsSettled w q k h.1)

pub IsQueued-append : (m : Failed) (p q : List Failed) → IsQueued m p → IsQueued m (p ++ q)
IsQueued-append m [] q h = absurd h
IsQueued-append m (x ∷ p) q (inl h) = inl h
IsQueued-append m (x ∷ p) q (inr h) = inr (IsQueued-append m p q h)

pub IsQueued-append_right : (m : Failed) (p q : List Failed) → IsQueued m q → IsQueued m (p ++ q)
IsQueued-append_right m [] q h = h
IsQueued-append_right m (x ∷ p) q h = inr (IsQueued-append_right m p q h)

pub IsTaken-append : (t : ℕ) (p q : List ℕ) → IsTaken t p → IsTaken t (p ++ q)
IsTaken-append t [] q h = absurd h
IsTaken-append t (x ∷ p) q (inl h) = inl h
IsTaken-append t (x ∷ p) q (inr h) = inr (IsTaken-append t p q h)

pub IsTaken-last : (t : ℕ) (p : List ℕ) → IsTaken t (p ++ (t ∷ []))
IsTaken-last t [] = inl refl
IsTaken-last t (x ∷ p) = inr (IsTaken-last t p)

-- With room in the deque, `append` and `extendleft` drop nothing.
pub append-room :
    (x : Failed) (q : List Failed)
    → suc (length q) ≤ max_failed_queue_size
    → append x q ≡ q ++ (x ∷ [])
unfolding append
append-room x q h = ground arith

pub take_all : {A : Type 0} (n : ℕ) (xs : List A) → length xs ≤ n → take n xs ≡ xs
take_all zero [] h = refl
take_all (suc n) [] h = refl
take_all zero (x ∷ xs) h = absurd (omega arith)
take_all (suc n) (x ∷ xs) h = rw (take_all n xs (omega arith)) refl

pub append_left-room :
    (x : Failed) (q : List Failed)
    → suc (length q) ≤ max_failed_queue_size
    → append_left x q ≡ x ∷ q
unfolding append_left
append_left-room x q h = take_all max_failed_queue_size (x ∷ q) h

pub extend_left-room :
    (xs q : List Failed)
    → length xs + length q ≤ max_failed_queue_size
    → extend_left_reversed xs q ≡ xs ++ q
unfolding extend_left_reversed
extend_left-room [] q h = refl
extend_left-room (x ∷ xs) q h =
    rw (extend_left-room xs q (omega arith))
      (append_left-room x (xs ++ q) (omega (arith, length-append {0} xs q)))
