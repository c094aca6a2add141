-- ===== src/Ws/Delivery.antt =====
-- Whom a broadcast reaches (api/ws/manager.py).
use empyrean_v2_backend.Base.{
  ℕ, ◌+◌, ◌≤◌, ◌==◌, ◌≡◌, refl, sym, ap, subst, ◌∙◌, arith, Bool, true, ◌&&◌, not, List, [], ◌∷◌,
  ◌++◌, Option, none, some, length, count, All, All-append, if◌then◌else◌, Bool-cases, Option-cases,
  List-cases, inl, inr, ◌⊎◌, count-append,
}
use empyrean_v2_backend.Ws.Manager.{
  Sweep, Sent, Manager, is_socket, add, discard, connect, disconnect, schedule, broadcast,
  deliveries, discard_dead, send_all, run_next,
}

-- A set of sockets has none of them twice.
abbrev pub IsDistinct : List ℕ → Type 0
IsDistinct xs = (s : ℕ) → count (is_socket s) xs ≤ 1

abbrev empty : Manager
empty = record { connections = []; loop = none; pending = []; sent = [] }

-- What the server does, one step after the other, whichever comes next.
pub data Step : Manager → Manager → Type 0 where
  connects :
      (is_running : ℕ → Bool) (current s : ℕ) (m : Manager)
      → Step m (connect is_running current s m)
  disconnects : (s : ℕ) (m : Manager) → Step m (disconnect s m)
  broadcasts :
      (accepts : ℕ → Bool) (dumps : Option ℕ) (m : Manager) → Step m (broadcast accepts dumps m).0
  sweeps : (alive : ℕ → Bool) (m : Manager) → Step m (run_next alive m)

-- A manager that has come about from the empty one.
pub data Reach : Manager → Type 0 where
  start : Reach empty
  next : {m n : Manager} → Reach m → Step m n → Reach n

pub count-discard :
    (s t : ℕ) (xs : List ℕ)
    → count (is_socket t) (discard s xs) ≡ (if t == s then 0 else count (is_socket t) xs)
unfolding discard
count-discard s t [] = ground arith
count-discard s t (x ∷ xs) = ground (arith, count-discard s t xs)

add-IsDistinct : (s : ℕ) (xs : List ℕ) → IsDistinct xs → IsDistinct (add s xs)
unfolding add
add-IsDistinct s xs h t = ground (arith, h t, count-append {0} (is_socket t) xs (s ∷ []))

discard-IsDistinct : (s : ℕ) (xs : List ℕ) → IsDistinct xs → IsDistinct (discard s xs)
discard-IsDistinct s xs h t = ground (arith, h t, count-discard s t xs)

discard_dead-IsDistinct :
    (alive : ℕ → Bool) (ss xs : List ℕ) → IsDistinct xs → IsDistinct (discard_dead alive ss xs)
unfolding discard_dead
discard_dead-IsDistinct alive [] xs h = h
discard_dead-IsDistinct alive (s ∷ ss) xs h = elim (Bool-cases (alive s)) [
  | inl e ↦ rw e (discard_dead-IsDistinct alive ss xs h)
  | inr e ↦ rw e (discard_dead-IsDistinct alive ss (discard s xs) (discard-IsDistinct s xs h))
]

-- What a sweep leaves of the sockets.
count-discard_dead :
    (alive : ℕ → Bool) (t : ℕ) (ss xs : List ℕ)
    → count (is_socket t) (discard_dead alive ss xs)
      ≡ (if not (alive t) && not (count (is_socket t) ss == 0) then 0 else count (is_socket t) xs)
unfolding discard_dead
count-discard_dead alive t [] xs = elim (Bool-cases (alive t)) [
  | inl e ↦ rw e refl
  | inr e ↦ rw e refl
]
count-discard_dead alive t (s ∷ ss) xs =
    let rest = count-discard_dead alive t ss (if alive s then xs else discard s xs) in
    elim (Bool-cases (is_socket t s)) [
      | inl e ↦
          let same : alive s ≡ alive t = ap alive (ground (arith, e)) in
          ground (arith, rest, e, same, count-discard s t xs)
      | inr e ↦ ground (arith, rest, e, count-discard s t xs)
    ]

-- How often a sweep delivers to a socket.
abbrev pub got : ℕ → ℕ → Sent → Bool
got s p x = (x.socket == s) && (x.payload == p)

count-deliveries :
    (alive : ℕ → Bool) (s p : ℕ) (ss : List ℕ)
    → count (got s p) (deliveries alive p ss) ≡ (if alive s then count (is_socket s) ss else 0)
unfolding deliveries
count-deliveries alive s p [] = elim (Bool-cases (alive s)) [
  | inl e ↦ rw e refl
  | inr e ↦ rw e refl
]
count-deliveries alive s p (x ∷ ss) = elim (Bool-cases (is_socket s x)) [
  | inl e ↦
      let same : alive x ≡ alive s = ap alive (ground (arith, e)) in
      ground (arith, e, same, count-deliveries alive s p ss)
  | inr e ↦ ground (arith, e, count-deliveries alive s p ss)
]

-- The sets that the registry holds, also those of sweeps to come.
record IsSound (m : Manager) : Type 0 where
  connections : IsDistinct m.connections
  pending : All (λ w. IsDistinct w.targets) m.pending

run_next-cons :
    (alive : ℕ → Bool) (m : Manager) (w : Sweep) (ws : List Sweep)
    → m.pending ≡ w ∷ ws
    → run_next alive m ≡ send_all alive w (record m { pending = ws })
unfolding run_next
run_next-cons alive m w ws e = ground (arith, e)

run_next-nil : (alive : ℕ → Bool) (m : Manager) → m.pending ≡ [] → run_next alive m ≡ m
unfolding run_next
run_next-nil alive m e = ground (arith, e)

send_all-IsSound :
    (alive : ℕ → Bool) (w : Sweep) (m : Manager) → IsSound m → IsSound (send_all alive w m)
unfolding send_all
send_all-IsSound alive w m h = record {
  connections = discard_dead-IsDistinct alive w.targets m.connections h.connections;
  pending = h.pending;
}

run_next-IsSound : (alive : ℕ → Bool) (m : Manager) → IsSound m → IsSound (run_next alive m)
run_next-IsSound alive m h = elim (List-cases m.pending) [
  | inl e ↦ subst IsSound (sym (run_next-nil alive m e)) h
  | inr (w, ws, e) ↦
      let left = subst (All (λ x. IsDistinct x.targets)) e h.pending in
      subst IsSound (sym (run_next-cons alive m w ws e)) (
        send_all-IsSound alive w (record m { pending = ws })
          (record { connections = h.connections; pending = left.1 }))
]

abbrev enqueued : ℕ → Manager → Manager
enqueued payload m = record m {
  pending = m.pending ++ (record { payload = payload; targets = m.connections } ∷ []);
}

broadcast_cases :
    (accepts : ℕ → Bool) (dumps : Option ℕ) (m : Manager)
    → let n = (broadcast accepts dumps m).0 in
      (n ≡ m) ⊎ ((n ≡ record m { loop = none }) ⊎ ((payload : ℕ) × (n ≡ enqueued payload m)))
unfolding broadcast schedule
broadcast_cases accepts dumps m = elim (List-cases m.connections) [
  | inl e ↦ inl (ground (arith, e))
  | inr (x, xs, e) ↦ elim (Option-cases m.loop) [
    | inl e' ↦ inl (ground (arith, e, e'))
    | inr (l, e') ↦ elim (Option-cases dumps) [
      | inl e'' ↦ inl (ground (arith, e, e', e''))
      | inr (payload, e'') ↦ elim (Bool-cases (accepts l)) [
        | inl t ↦ inr (inr (payload, ground (arith, e, e', e'', t)))
        | inr f ↦ inr (inl (ground (arith, e, e', e'', f)))
      ]
    ]
  ]
]

broadcast-IsSound :
    (accepts : ℕ → Bool) (dumps : Option ℕ) (m : Manager)
    → IsSound m
    → IsSound (broadcast accepts dumps m).0
broadcast-IsSound accepts dumps m h = elim (broadcast_cases accepts dumps m) [
  | inl e ↦ subst IsSound (sym e) h
  | inr (inl e) ↦
      subst IsSound (sym e) (record { connections = h.connections; pending = h.pending })
  | inr (inr (payload, e)) ↦ subst IsSound (sym e) (record {
    connections = h.connections;
    pending = All-append (λ w. IsDistinct w.targets) m.pending _ h.pending (h.connections, tt);
  })
]

Step-IsSound : {m n : Manager} → Step m n → IsSound m → IsSound n
unfolding connect disconnect
Step-IsSound (connects is_running current s m) h = record {
  connections = add-IsDistinct s m.connections h.connections;
  pending = h.pending;
}
Step-IsSound (disconnects s m) h = record {
  connections = discard-IsDistinct s m.connections h.connections;
  pending = h.pending;
}
Step-IsSound (broadcasts accepts dumps m) h = broadcast-IsSound accepts dumps m h
Step-IsSound (sweeps alive m) h = run_next-IsSound alive m h

Reach-IsSound : {m : Manager} → Reach m → IsSound m
Reach-IsSound start = record { connections = λ s. omega arith; pending = tt }
Reach-IsSound (next r st) = Step-IsSound st (Reach-IsSound r)

broadcast_succeeds :
    (accepts : ℕ → Bool) (payload n : ℕ) (m : Manager)
    → (broadcast accepts (some payload) m).1 ≡ (true, n)
    → (n ≡ length m.connections)
      × ((broadcast accepts (some payload) m).0.pending ≡ (enqueued payload m).pending)
unfolding broadcast schedule
broadcast_succeeds accepts payload n m h = elim (List-cases m.connections) [
  | inl e ↦ absurd (ground (arith, e, h))
  | inr (x, xs, e) ↦ elim (Option-cases m.loop) [
    | inl e' ↦ absurd (ground (arith, e, e', h))
    | inr (l, e') ↦ elim (Bool-cases (accepts l)) [
      | inl t ↦ (ground (arith, e, e', t, h), ground (arith, e, e', t, h))
      | inr f ↦ absurd (ground (arith, e, e', f, h))
    ]
  ]
]

module _ (alive : ℕ → Bool) (s : ℕ) (w : Sweep) (m : Manager) where
  got-send_all :
      count (got s w.payload) (send_all alive w m).sent
      ≡ count (got s w.payload) m.sent + (if alive s then count (is_socket s) w.targets else 0)
  unfolding send_all
  got-send_all = omega (
    arith,
    count-append {0} (got s w.payload) m.sent (deliveries alive w.payload w.targets),
    count-deliveries alive s w.payload w.targets,
  )

  connections-send_all : count (is_socket s) (send_all alive w m).connections ≡ (
      if not (alive s) && not (count (is_socket s) w.targets == 0)
      then 0
      else count (is_socket s) m.connections)
  unfolding send_all
  connections-send_all = count-discard_dead alive s w.targets m.connections

  pending-send_all : (send_all alive w m).pending ≡ m.pending
  unfolding send_all
  pending-send_all = refl

-- A broadcast that succeeds in a registry that has come about step by step, with no sweep before its
-- own: it counts the sockets that are registered, and whatever connects or leaves before its sweep
-- runs, the sweep delivers the payload once to each of these that can be sent to, and to no other;
-- those that cannot are registered no more, and nothing else changes among the sockets.
pub broadcast_delivers :
    (accepts alive : ℕ → Bool) (payload : ℕ) (m later : Manager) (s : ℕ) (n : ℕ)
    → Reach m
    → m.pending ≡ []
    → (broadcast accepts (some payload) m).1 ≡ (true, n)
    → later.pending ≡ (broadcast accepts (some payload) m).0.pending
    → let after = run_next alive later in
      let was_in = count (is_socket s) m.connections in
      (n ≡ length m.connections)
      × (count (got s payload) after.sent
          ≡ count (got s payload) later.sent + (if alive s then was_in else 0))
      × (was_in ≤ 1)
      × (count (is_socket s) after.connections ≡ (
          if not (alive s) && not (was_in == 0) then 0 else count (is_socket s) later.connections))
      × (after.pending ≡ [])
broadcast_delivers accepts alive payload m later s n r none_ ok_ same =
    let started = broadcast_succeeds accepts payload n m ok_ in
    let w : Sweep = record { payload = payload; targets = m.connections } in
    let only = same ∙ (started.1 ∙ ap (λ l. l ++ (w ∷ [])) none_) in
    let ran = run_next-cons alive later w [] only in
    let now = record later { pending = [] } in
    (
      started.0,
      ap (λ x. count (got s payload) x.sent) ran ∙ got-send_all alive s w now,
      (Reach-IsSound r).connections s,
      ap (λ x. count (is_socket s) x.connections) ran ∙ connections-send_all alive s w now,
      ap (λ x. x.pending) ran ∙ pending-send_all alive s w now,
    )
