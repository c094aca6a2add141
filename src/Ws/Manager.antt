-- ===== src/Ws/Manager.antt =====
-- The registry of open sockets (api/ws/manager.py). Sockets, event loops and payloads are numbers. A
-- broadcast only schedules its sweep on the captured loop: `pending` holds the sweeps that have been
-- scheduled and have not run.
use empyrean_v2_backend.Base.{
  ℕ, ◌==◌, Bool, true, false, not, List, [], ◌∷◌, ◌++◌, Option, none, some, length, keep, count,
  if◌then◌else◌,
}

-- A sweep: the payload and the sockets that it goes to.
pub record Sweep : Type 0 where
  pub payload : ℕ
  pub targets : List ℕ

-- A frame that a socket has taken.
pub record Sent : Type 0 where
  pub socket : ℕ
  pub payload : ℕ

pub record Manager : Type 0 where
  pub connections : List ℕ
  pub loop : Option ℕ
  pub pending : List Sweep
  pub sent : List Sent

abbrev pub is_socket : ℕ → ℕ → Bool
is_socket s x = x == s

-- `set.add` and `set.discard`
unfoldable pub add : ℕ → List ℕ → List ℕ
add s xs = if count (is_socket s) xs == 0 then xs ++ (s ∷ []) else xs

unfoldable pub discard : ℕ → List ℕ → List ℕ
discard s xs = keep (λ x. not (is_socket s x)) xs

-- The loop that `connect` keeps: a stale one gives way to the running one.
unfoldable pub capture : (ℕ → Bool) → ℕ → Option ℕ → Option ℕ
capture is_running current none = some current
capture is_running current (some l) = if is_running l then some l else some current

-- `connect`, on a running loop
unfoldable pub connect : (ℕ → Bool) → ℕ → ℕ → Manager → Manager
connect is_running current s m = record m {
  loop = capture is_running current m.loop;
  connections = add s m.connections;
}

unfoldable pub disconnect : ℕ → Manager → Manager
disconnect s m = record m { connections = discard s m.connections }

-- `broadcast` once there are sockets and a loop: `dumps` is the JSON text of the message, if it has
-- one, and `accepts` says whether the loop takes a coroutine, which a closed one does not.
unfoldable pub schedule : (ℕ → Bool) → Option ℕ → ℕ → Manager → Manager × (Bool × ℕ)
schedule accepts dumps l m = elim dumps [
  | none ↦ (m, (false, length m.connections))
  | some payload ↦
      if accepts l
      then (
        record m {
          pending = m.pending ++ (record { payload = payload; targets = m.connections } ∷ []);
        },
        (true, length m.connections),
      )
      else (record m { loop = none }, (false, length m.connections))
]

unfoldable pub broadcast : (ℕ → Bool) → Option ℕ → Manager → Manager × (Bool × ℕ)
broadcast accepts dumps m = elim m.connections [
  | [] ↦ (m, (false, 0))
  | _ ∷ _ ↦ elim m.loop [ none ↦ (m, (false, 0)) | some l ↦ schedule accepts dumps l m ]
]

-- The frames that a sweep delivers: `alive` says whose `send` does not fail.
unfoldable pub deliveries : (ℕ → Bool) → ℕ → List ℕ → List Sent
deliveries alive payload [] = []
deliveries alive payload (s ∷ ss) =
    let rest = deliveries alive payload ss in
    if alive s then record { socket = s; payload = payload } ∷ rest else rest

-- The sockets that failed are discarded.
unfoldable pub discard_dead : (ℕ → Bool) → List ℕ → List ℕ → List ℕ
discard_dead alive [] xs = xs
discard_dead alive (s ∷ ss) xs = discard_dead alive ss (if alive s then xs else discard s xs)

-- `_send_all`
unfoldable pub send_all : (ℕ → Bool) → Sweep → Manager → Manager
send_all alive w m = record m {
  connections = discard_dead alive w.targets m.connections;
  sent = m.sent ++ deliveries alive w.payload w.targets;
}

-- The loop runs the sweep that was scheduled first.
unfoldable pub run_next : (ℕ → Bool) → Manager → Manager
run_next alive m = elim m.pending [ [] ↦ m | w ∷ ws ↦ send_all alive w (record m { pending = ws }) ]
