-- ===== src/Mqtt/Delivery.antt =====
-- What becomes of the items that the worker takes (mqtt/client.py).
use mathlib.Core.List.{append_assoc}
use empyrean_v2_backend.Base.{
  sym, ap, subst, ◌∙◌, Option, append_nil, ℕ, zero, suc, ◌+◌, ◌≤◌, ◌≡◌, refl, arith, Bool, true,
  false, not, List, [], ◌∷◌, ◌++◌, none, some, ltb, length, keep, count, if◌then◌else◌, ◌⊎◌, inl,
  inr, Bool-cases, Option-cases, All,
}
use empyrean_v2_backend.Mqtt.Inbound.{Kind, reading, status, alert, Item}
use empyrean_v2_backend.Mqtt.Worker.{
  Object, Plant, Parsers, Attempt, queued, refused, queued_then_raised, Turn, deliver,
  dispatch_reading, with_node_id, reading_of, handle_reading, handle_status, handle_alert, handle,
  is_online, run_worker, is_status, drain,
}

-- The attempts that a dispatch may make, in their order.
abbrev pub attempts : ℕ → (ℕ → Attempt) → List Attempt
attempts zero delay = delay 0 ∷ []
attempts (suc left) delay = delay (suc left) ∷ attempts left delay

-- The attempts that it makes: up to the first that returns.
abbrev pub made : List Attempt → List Attempt
made [] = []
made (queued ∷ as_) = queued ∷ []
made (refused ∷ as_) = refused ∷ made as_
made (queued_then_raised ∷ as_) = queued_then_raised ∷ made as_

abbrev pub reaches_queue : Attempt → Bool
reaches_queue queued = true
reaches_queue refused = false
reaches_queue queued_then_raised = true

abbrev pub repeat : ℕ → Object → List Object
repeat zero o = []
repeat (suc n) o = o ∷ repeat n o

-- How often the queue gets the task, and whether no attempt returns.
abbrev pub copies : List Attempt → ℕ
copies as_ = count reaches_queue (made as_)

abbrev pub fails : List Attempt → Bool
fails [] = true
fails (queued ∷ as_) = false
fails (refused ∷ as_) = fails as_
fails (queued_then_raised ∷ as_) = fails as_

abbrev pub attempts_of : Turn → List Attempt
attempts_of t = attempts 2 t.delay

abbrev is_some : Option Object → Bool
is_some none = false
is_some (some o) = true

-- The payload of a turn that comes to a dispatch: the item is a reading that parses and validates,
-- and nothing is raised before the first attempt.
abbrev pub ready_payload : Parsers → Turn → Option Object
ready_payload parsers t = elim t.item.kind [
  | reading ↦ if t.prepared then reading_of parsers t.item else none
  | status ↦ none
  | alert ↦ none
]

abbrev pub is_ready : Parsers → Turn → Bool
is_ready parsers t = is_some (ready_payload parsers t)

abbrev pub sent_of : Option Object → List Attempt → List Object
sent_of none as_ = []
sent_of (some o) as_ = repeat (copies as_) o

abbrev pub is_lost : Option Object → List Attempt → Bool
is_lost none as_ = false
is_lost (some o) as_ = fails as_

-- What the queue gets in a turn, and whether the turn counts a dropped reading.
abbrev pub sent_in : Parsers → Turn → List Object
sent_in parsers t = sent_of (ready_payload parsers t) (attempts_of t)

abbrev pub gives_up : Parsers → Turn → Bool
gives_up parsers t = is_lost (ready_payload parsers t) (attempts_of t)

abbrev pub sent_by : Parsers → List Turn → List Object
sent_by parsers [] = []
sent_by parsers (t ∷ ts) = sent_in parsers t ++ sent_by parsers ts

Attempt-cases : (a : Attempt) → (a ≡ queued) ⊎ ((a ≡ refused) ⊎ (a ≡ queued_then_raised))
Attempt-cases queued = inl refl
Attempt-cases refused = inr (inl refl)
Attempt-cases queued_then_raised = inr (inr refl)

dispatch_reading_lem :
    (left : ℕ) (delay : ℕ → Attempt) (o : Object) (p : Plant)
    → let p' = dispatch_reading left delay o p in
      (p'.delivered ≡ p.delivered ++ repeat (copies (attempts left delay)) o)
      × (p'.dropped ≡ p.dropped + (if fails (attempts left delay) then 1 else 0))
unfolding dispatch_reading
dispatch_reading_lem zero delay o p = elim (Attempt-cases (delay 0)) [
  | inl e ↦ rw (dispatch_reading, e) (refl, omega arith)
  | inr (inl e) ↦ rw (dispatch_reading, e) (sym (append_nil p.delivered), refl)
  | inr (inr e) ↦ rw (dispatch_reading, e) (refl, refl)
]
dispatch_reading_lem (suc left) delay o p = elim (Attempt-cases (delay (suc left))) [
  | inl e ↦ rw (dispatch_reading, e) (refl, omega arith)
  | inr (inl e) ↦ rw (dispatch_reading, e) (dispatch_reading_lem left delay o p)
  | inr (inr e) ↦
      let (sent, lost) = dispatch_reading_lem left delay o (deliver o p) in
      rw (dispatch_reading, e)
        (sent ∙ append_assoc p.delivered (o ∷ []) (repeat (copies (attempts left delay)) o), lost)
]

Kind-cases : (k : Kind) → (k ≡ reading) ⊎ ((k ≡ status) ⊎ (k ≡ alert))
Kind-cases reading = inl refl
Kind-cases status = inr (inl refl)
Kind-cases alert = inr (inr refl)

accounted-handle_status :
    (parsers : Parsers) (now : ℕ) (i : Item) (p : Plant)
    → ((handle_status parsers now i p).delivered ≡ p.delivered)
      × ((handle_status parsers now i p).dropped ≡ p.dropped)
unfolding handle_status
accounted-handle_status parsers now i p = elim (Bool-cases (is_online parsers i)) [
  | inl e ↦ rw (handle_status, e) (refl, refl)
  | inr e ↦ rw (handle_status, e) (refl, refl)
]

accounted-handle_alert :
    (parsers : Parsers) (i : Item) (p : Plant)
    → ((handle_alert parsers i p).delivered ≡ p.delivered)
      × ((handle_alert parsers i p).dropped ≡ p.dropped)
unfolding handle_alert
accounted-handle_alert parsers i p = elim (Option-cases (parsers.json_loads i.raw)) [
  | inl e ↦ rw (handle_alert, e) (refl, refl)
  | inr (o, e) ↦ rw (handle_alert, e) (refl, refl)
]

-- A turn comes to no dispatch, or to that of a payload.
turn_cases :
    (parsers : Parsers) (t : Turn) (p : Plant)
    → let p' = handle parsers t p in
      ((ready_payload parsers t ≡ none) × (p'.delivered ≡ p.delivered) × (p'.dropped ≡ p.dropped))
      ⊎ ((o : Object) × (ready_payload parsers t ≡ some o)
          × (p' ≡ dispatch_reading 2 t.delay o p)
          × (t.item.kind ≡ reading)
          × (reading_of parsers t.item ≡ some o))
unfolding handle handle_reading
turn_cases parsers t p = elim (Kind-cases t.item.kind) [
  | inr (inl k) ↦
      let (sent, lost) = accounted-handle_status parsers t.now t.item p in
      inl (ground (arith, k), ground (arith, k, sent), ground (arith, k, lost))
  | inr (inr k) ↦
      let (sent, lost) = accounted-handle_alert parsers t.item p in
      inl (ground (arith, k), ground (arith, k, sent), ground (arith, k, lost))
  | inl k ↦ elim (Option-cases (reading_of parsers t.item)) [
    | inl e ↦ inl (ground (arith, k, e), ground (arith, k, e), ground (arith, k, e))
    | inr (o, e) ↦ elim (Bool-cases t.prepared) [
      | inl y ↦ inr (o, ground (arith, k, y, e), ground (arith, k, y, e), k, e)
      | inr n ↦ inl (ground (arith, k, n, e), ground (arith, k, n, e), ground (arith, k, n, e))
    ]
  ]
]

handle_lem :
    (parsers : Parsers) (t : Turn) (p : Plant)
    → let p' = handle parsers t p in
      (p'.delivered ≡ p.delivered ++ sent_in parsers t)
      × (p'.dropped ≡ p.dropped + (if gives_up parsers t then 1 else 0))
handle_lem parsers t p = elim (turn_cases parsers t p) [
  | inl (e, sent, lost) ↦
      subst
        (λ (x : Option Object).
          ((handle parsers t p).delivered ≡ p.delivered ++ sent_of x (attempts_of t))
          × ((handle parsers t p).dropped
              ≡ p.dropped + (if is_lost x (attempts_of t) then 1 else 0)))
        (sym e) (sent ∙ sym (append_nil p.delivered), omega (arith, lost))
  | inr (o, e, same, k, r) ↦
      let (sent, lost) = dispatch_reading_lem 2 t.delay o p in
      subst
        (λ (x : Option Object).
          ((handle parsers t p).delivered ≡ p.delivered ++ sent_of x (attempts_of t))
          × ((handle parsers t p).dropped
              ≡ p.dropped + (if is_lost x (attempts_of t) then 1 else 0)))
        (sym e) (ap (λ x. x.delivered) same ∙ sent, ap (λ x. x.dropped) same ∙ lost)
]

length-repeat : (n : ℕ) (o : Object) → length (repeat n o) ≡ n
length-repeat zero o = refl
length-repeat (suc n) o = ap suc (length-repeat n o)

-- If an attempt returns, the queue has got the task.
copies-fails : (as_ : List Attempt) → (fails as_ ≡ true) ⊎ (1 ≤ copies as_)
copies-fails [] = inl refl
copies-fails (queued ∷ as_) = inr (omega arith)
copies-fails (refused ∷ as_) = copies-fails as_
copies-fails (queued_then_raised ∷ as_) = inr (omega arith)

-- One of the attempts raised after the queue had the task.
abbrev pub AnyRaisedLate : List Attempt → Type 0
AnyRaisedLate [] = ⊥
AnyRaisedLate (a ∷ as_) = (a ≡ queued_then_raised) ⊎ AnyRaisedLate as_

copies_cases :
    (as_ : List Attempt)
    → (copies as_ ≤ length as_) × ((copies as_ ≡ 0) ⊎ ((copies as_ ≡ 1) ⊎ AnyRaisedLate as_))
copies_cases [] = (omega arith, inl refl)
copies_cases (queued ∷ as_) = (omega arith, inr (inl refl))
copies_cases (refused ∷ as_) =
    let (few, how) = copies_cases as_ in
    (
      omega (arith, few),
      elim how [ inl e ↦ inl e | inr (inl e) ↦ inr (inl e) | inr (inr e) ↦ inr (inr (inr e)) ],
    )
copies_cases (queued_then_raised ∷ as_) =
    (omega (arith, (copies_cases as_).0), inr (inr (inl refl)))

-- A valid reading whose turn comes to a dispatch reaches the queue or is counted as dropped; and it
-- reaches the queue at most once unless an attempt raised with the task queued.
pub record IsAccounted (parsers : Parsers) (t : Turn) : Type 0 where
  pub not_lost :
      (is_ready parsers t ≡ false)
      ⊎ ((1 ≤ length (sent_in parsers t)) ⊎ (gives_up parsers t ≡ true))
  pub once : (length (sent_in parsers t) ≤ 1) ⊎ AnyRaisedLate (attempts_of t)

not_lost_lem :
    (x : Option Object) (as_ : List Attempt)
    → (is_some x ≡ false) ⊎ ((1 ≤ length (sent_of x as_)) ⊎ (is_lost x as_ ≡ true))
not_lost_lem none as_ = inl refl
not_lost_lem (some o) as_ = elim (copies-fails as_) [
  | inl lost ↦ inr (inr lost)
  | inr sent ↦ inr (inl (omega (arith, sent, length-repeat (copies as_) o)))
]

once_lem :
    (x : Option Object) (as_ : List Attempt) → (length (sent_of x as_) ≤ 1) ⊎ AnyRaisedLate as_
once_lem none as_ = inl (omega arith)
once_lem (some o) as_ = elim (copies_cases as_).1 [
  | inl zero_ ↦ inl (omega (arith, zero_, length-repeat (copies as_) o))
  | inr (inl one) ↦ inl (omega (arith, one, length-repeat (copies as_) o))
  | inr (inr late) ↦ inr late
]

turn-IsAccounted : (parsers : Parsers) (t : Turn) → IsAccounted parsers t
turn-IsAccounted parsers t = record {
  not_lost = not_lost_lem (ready_payload parsers t) (attempts_of t);
  once = once_lem (ready_payload parsers t) (attempts_of t);
}

-- What the worker makes of its turns, whatever Celery does: the queue gets, in the order of the turns,
-- the payload of each valid reading once for each of its first three attempts that reaches the queue,
-- up to the first that returns; and a reading counts as dropped just when none of the three returns.
-- So each valid reading is delivered or counted, unless the dump of its model or the import of the
-- task raises; and one is delivered twice only after an attempt that raised with the task queued.
pub run_worker_accounts :
    (parsers : Parsers) (ts : List Turn) (p : Plant)
    → let p' = run_worker parsers ts p in
      (p'.delivered ≡ p.delivered ++ sent_by parsers ts)
      × (p'.dropped ≡ p.dropped + count (gives_up parsers) ts)
      × All (IsAccounted parsers) ts
unfolding run_worker
run_worker_accounts parsers [] p = (sym (append_nil p.delivered), omega arith, tt)
run_worker_accounts parsers (t ∷ ts) p =
    let (sent, lost) = handle_lem parsers t p in
    let (later, lost', accounted) = run_worker_accounts parsers ts (handle parsers t p) in
    (
      later
          ∙ ap (λ l. l ++ sent_by parsers ts) sent
          ∙ append_assoc p.delivered (sent_in parsers t) (sent_by parsers ts),
      ground (arith, lost, lost'),
      (turn-IsAccounted parsers t, accounted),
    )

reading_of_id :
    (parsers : Parsers) (i : Item) (o : Object)
    → ((x y : Object) → parsers.validate_reading x ≡ some y → y.node_id ≡ x.node_id)
    → reading_of parsers i ≡ some o
    → o.node_id ≡ some i.node_id
unfolding reading_of
reading_of_id parsers i o keeps h = elim (Option-cases (parsers.json_loads i.raw)) [
  | inl e ↦ absurd (ground (arith, e, h))
  | inr (d, e) ↦ keeps (with_node_id i.node_id d) o (ground (arith, e, h))
]

-- With a validator that keeps the node id that it is given, a turn of the worker sends Celery
-- nothing, or one reading under the node id of the topic, whatever id the body names: once, or at most
-- three times after an attempt that raised although the queue had the task.
pub handle_authentic :
    (parsers : Parsers) (t : Turn) (p : Plant)
    → ((o o' : Object) → parsers.validate_reading o ≡ some o' → o'.node_id ≡ o.node_id)
    → let p' = handle parsers t p in
      (p'.delivered ≡ p.delivered)
      ⊎ ((o : Object) × (n : ℕ) × (p'.delivered ≡ p.delivered ++ repeat n o)
          × (n ≤ 3)
          × ((n ≡ 1) ⊎ AnyRaisedLate (attempts_of t))
          × (o.node_id ≡ some t.item.node_id)
          × (t.item.kind ≡ reading))
handle_authentic parsers t p keeps = elim (turn_cases parsers t p) [
  | inl (e, same, _) ↦ inl same
  | inr (o, e, same, k, r) ↦
      let (sent, _) = dispatch_reading_lem 2 t.delay o p in
      let there = ap (λ x. x.delivered) same ∙ sent in
      let (few, how) = copies_cases (attempts_of t) in
      elim how [
        | inl zero_ ↦
            inl (there ∙ ap (λ i. p.delivered ++ repeat i o) zero_ ∙ append_nil p.delivered)
        | inr once ↦
            inr (
              o,
              copies (attempts_of t),
              there,
              few,
              once,
              reading_of_id parsers t.item o keeps r,
              k,
            )
      ]
]

-- Stopping drains the queue: within its time and its bound it does to the readings and the alerts that
-- wait exactly what the worker would have done, in their order, and drops every status message.
pub drain-eq-run_worker :
    (parsers : Parsers) (max_drain deadline drained : ℕ) (ts : List Turn) (p : Plant)
    → All (λ t. ltb deadline t.now ≡ false) ts
    → drained + length ts ≤ max_drain
    → drain parsers max_drain deadline drained ts p
      ≡ run_worker parsers (keep (λ t. not (is_status t.item.kind)) ts) p
unfolding drain run_worker
drain-eq-run_worker parsers max_drain deadline drained [] p early fits = refl
drain-eq-run_worker parsers max_drain deadline drained (t ∷ ts) p early fits =
    elim (Bool-cases (is_status t.item.kind)) [
      | inl k ↦ ground (
        arith,
        k,
        early.0,
        fits,
        drain-eq-run_worker parsers max_drain deadline drained ts p early.1 (omega (arith, fits)),
      )
      | inr k ↦ ground (
        arith,
        k,
        early.0,
        fits,
        drain-eq-run_worker parsers max_drain deadline (drained + 1) ts (handle parsers t p) early.1
            (omega (arith, fits)),
      )
    ]
