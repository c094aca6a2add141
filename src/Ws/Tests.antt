-- ===== src/Ws/Tests.antt =====
-- Tests of the sockets, and their theorems at concrete sessions.
use empyrean_v2_backend.Base.{
  ℕ, ◌+◌, ◌≤◌, ◌≡◌, refl, Bool, true, not, List, [], ◌∷◌, Option, none, some, length, count, ok,
  err, ◌⊎◌,
}
use empyrean_v2_backend.Base.Int.{pos}
use empyrean_v2_backend.Access.Store.{User, admin, live}
use empyrean_v2_backend.Access.Guard.{
  Subject, invalid, Decode, decode_access_token, check_claims, is_valid_role, subject_id,
  is_token_revoked, bearer_token, lstrip, after_prefix,
}
use empyrean_v2_backend.Ws.Manager.{
  Manager, is_socket, add, discard, capture, connect, schedule, broadcast, run_next, send_all,
  deliveries, discard_dead,
}
use empyrean_v2_backend.Ws.Session.{
  reauth_interval, unauthenticated, Server, Handshake, access_token, is_origin_allowed, user_row,
  check_token, handshake, text, bytes, Arrival, after_check, reauthenticate, on_frame, receive_loop,
  alerts_ws,
}
use empyrean_v2_backend.Ws.Delivery.{got, Reach, start, next, connects, broadcast_delivers}
use empyrean_v2_backend.Ws.Authorized.{IsAllowed, IsRefused, alerts_ws_sound}
use empyrean_v2_backend.Base.{◌⊎◌}
use empyrean_v2_backend.Ws.Expiry.{RenewedAt, receive_loop_expires}

abbrev ada : User
ada = record {
  id = 3;
  username = 11;
  email = 12;
  password_hash = none;
  role = admin;
  is_active = true;
  last_login_at = none;
}

abbrev server : Server
server = record {
  wall = 500;
  users = ada ∷ [];
  redis = record { up = true; blocklist = []; user_cache = [] };
}

abbrev decode : Decode
decode now token = elim token [
  | [] ↦ err invalid
  | _ ∷ _ ↦ ok (record {
    sub = Subject.integer (pos 3);
    role = some admin;
    is_access = true;
    jti = some 40;
    exp = some 1000;
  })
]

abbrev json_token : List ℕ → Option (Option (List ℕ))
json_token cs = some (some (b'x' ∷ []))

-- A frame that is no JSON object, one that renews, and one that comes too late.
abbrev frames : List Arrival
frames =
    (record { time = 100; frame = text (b'h' ∷ []); server = server })
    ∷ (record { time = 800000; frame = text (b'{' ∷ b'}' ∷ []); server = server })
    ∷ (record { time = 1700000; frame = bytes 3; server = server })
    ∷ []

session :
    receive_loop decode json_token 0 frames
    ≡ record { end = unauthenticated; at = 1700000; last_auth = 800000 }
unfolding receive_loop on_frame reauthenticate after_check check_token decode_access_token
    check_claims is_valid_role subject_id is_token_revoked live user_row lstrip
session = refl

receive_loop_expires_example :
    let e = receive_loop decode json_token 0 frames in
    (e.at ≤ e.last_auth + reauth_interval)
    × ((e.last_auth ≡ 0) ⊎ RenewedAt decode json_token e.last_auth frames)
receive_loop_expires_example = receive_loop_expires decode json_token 0 frames

abbrev shake : Handshake
shake = record { authorization = []; token_param = some (b'x' ∷ []); origin = none }

accepted : handshake decode [] server shake ≡ none
unfolding handshake is_origin_allowed access_token bearer_token after_prefix check_token
    decode_access_token check_claims is_valid_role subject_id is_token_revoked live user_row
accepted = refl

abbrev empty : Manager
empty = record { connections = []; loop = none; pending = []; sent = [] }

alerts_ws_sound_example :
    let (ended, after) =
      alerts_ws decode json_token [] (λ l. true) 1 (λ m. m) 7 0 server shake frames empty in
    (IsAllowed decode [] server shake
      × (ended ≡ receive_loop decode json_token 0 frames)
      × (count (is_socket 7) after.connections ≡ 0))
    ⊎ (IsRefused decode [] server shake ended.end × (ended.at ≡ 0) × (after ≡ empty))
alerts_ws_sound_example =
    alerts_ws_sound decode json_token [] (λ l. true) 1 (λ m. m) 7 0 server shake frames empty

-- Two sockets are there.
abbrev two : Manager
two = connect (λ l. true) 1 8 (connect (λ l. true) 1 7 empty)

two-Reach : Reach two
two-Reach = next (next start (connects (λ l. true) 1 7 empty)) (connects (λ l. true) 1 8 _)

two-pending : two.pending ≡ []
unfolding connect
two-pending = refl

two-broadcast : (broadcast (λ l. true) (some 5) two).1 ≡ (true, 2)
unfolding broadcast schedule connect capture add
two-broadcast = refl

-- Before the sweep runs, a third has come; the first of the two is dead.
abbrev three : Manager
three = connect (λ l. true) 1 9 (broadcast (λ l. true) (some 5) two).0

three-pending : three.pending ≡ (broadcast (λ l. true) (some 5) two).0.pending
unfolding connect
three-pending = refl

abbrev alive : ℕ → Bool
alive s = not (is_socket 7 s)

broadcast_delivers_example :
    let after = run_next alive three in
    let was_in = count (is_socket 8) two.connections in
    (2 ≡ length two.connections)
    × (count (got 8 5) after.sent ≡ count (got 8 5) three.sent + was_in)
    × (was_in ≤ 1)
    × (count (is_socket 8) after.connections ≡ count (is_socket 8) three.connections)
    × (after.pending ≡ [])
broadcast_delivers_example =
    broadcast_delivers (λ l. true) alive 5 two three 8 2 two-Reach two-pending two-broadcast
      three-pending

-- The dead socket is gone, the others stay.
swept : (run_next alive three).connections ≡ 8 ∷ 9 ∷ []
unfolding run_next send_all discard_dead discard broadcast schedule connect capture add deliveries
swept = refl
