-- ===== src/Ws/Session.antt =====
-- The WebSocket endpoint (api/ws/routes.py). Times are milliseconds. `decode` stands for pyjwt.decode
-- and `json_token` for the member `token` of a frame's JSON text: `none` is a text that is not JSON,
-- and the inner `none` one with no token.
use empyrean_v2_backend.Base.{
  ℕ, ◌+◌, ◌*◌, ◌==◌, Bool, true, false, List, [], ◌∷◌, Option, none, some, ltb, leb, length, find,
  if◌then◌else◌, ok, err,
}
use empyrean_v2_backend.Base.Int.{ℤ, pos, negsuc}
use empyrean_v2_backend.Access.Store.{User, Redis, has_user_id}
use empyrean_v2_backend.Access.Guard.{
  Decode, decode_access_token, is_token_revoked, bearer_token, lstrip,
}
use empyrean_v2_backend.Limits.Window.{same_text}
use empyrean_v2_backend.Ws.Manager.{Manager, connect, disconnect}

abbrev pub max_ws_body : ℕ
max_ws_body = 4096

abbrev pub reauth_interval : ℕ
reauth_interval = 15 * 60 * 1000

-- What the server holds at some time: the wall clock, the rows of `users`, and Redis.
pub record Server : Type 0 where
  pub wall : ℕ
  pub users : List User
  pub redis : Redis

-- The handshake: its Authorization header (an absent one is empty), the query parameter, and its
-- Origin.
pub record Handshake : Type 0 where
  pub authorization : List ℕ
  pub token_param : Option (List ℕ)
  pub origin : Option (List ℕ)

-- `_access_token`: an empty parameter is none.
unfoldable pub access_token : Handshake → Option (List ℕ)
access_token h = elim (bearer_token h.authorization) [
  | some t ↦ some t
  | none ↦ elim h.token_param [ none ↦ none | some t ↦ if length t == 0 then none else some t ]
]

unfoldable pub is_one_of : List ℕ → List (List ℕ) → Bool
is_one_of x [] = false
is_one_of x (y ∷ ys) = if same_text y x then true else is_one_of x ys

-- `_is_origin_allowed`
unfoldable pub is_origin_allowed : List (List ℕ) → Option (List ℕ) → Bool
is_origin_allowed allowed none = true
is_origin_allowed allowed (some origin) = is_one_of origin allowed

-- The row for a subject; no row has a negative id.
unfoldable pub user_row : ℤ → List User → Option User
user_row (pos i) users = find (has_user_id i) users
user_row (negsuc i) users = none

abbrev pub is_active_row : Option User → Bool
is_active_row none = false
is_active_row (some u) = u.is_active

-- What a token comes to: it does not decode, it is on the blocklist, its user is missing or
-- inactive, or all is well.
pub data Check : Type 0 where
  undecodable revoked inactive valid : Check

unfoldable pub check_token : Decode → Server → List ℕ → Check
check_token decode s token = elim (decode_access_token decode s.wall token) [
  | err _ ↦ undecodable
  | ok (c, sub) ↦
      if is_token_revoked s.wall c.jti s.redis
      then revoked
      else if is_active_row (user_row sub s.users)
      then valid
      else inactive
]

-- The close codes 4403, 4401 and 1009, and a peer that leaves.
pub data End : Type 0 where
  forbidden_origin unauthenticated too_big left : End

abbrev pub is_valid : Check → Bool
is_valid undecodable = false
is_valid revoked = false
is_valid inactive = false
is_valid valid = true

-- The handshake is refused with a code, or accepted.
unfoldable pub handshake : Decode → List (List ℕ) → Server → Handshake → Option End
handshake decode allowed s h =
    if is_origin_allowed allowed h.origin
    then elim (access_token h) [
      | none ↦ some unauthenticated
      | some t ↦ if is_valid (check_token decode s t) then none else some unauthenticated
    ]
    else some forbidden_origin

-- What `receive` gives: a text, bytes of some length, or the end of the peer.
pub data Frame : Type 0 where
  text : List ℕ → Frame
  bytes : ℕ → Frame
  gone : Frame

-- A frame that arrives at a monotonic time, and what the server holds then.
pub record Arrival : Type 0 where
  pub time : ℕ
  pub frame : Frame
  pub server : Server

-- What the loop does after a frame: it stops, or it goes on with the time of the last
-- authentication.
pub data Next : Type 0 where
  stop : End → Next
  continue : ℕ → Next

abbrev pub starts_with_brace : List ℕ → Bool
starts_with_brace [] = false
starts_with_brace (c ∷ cs) = c == b'{'

-- What follows from the check of a token at a time.
unfoldable pub after_check : ℕ → ℕ → Check → Next
after_check t last_auth undecodable = continue last_auth
after_check t last_auth revoked = stop unauthenticated
after_check t last_auth inactive = continue last_auth
after_check t last_auth valid = continue t

-- `new_token or ""`
abbrev pub member_token : Option (List ℕ) → List ℕ
member_token none = []
member_token (some token) = token

-- A frame that may authenticate anew.
unfoldable pub reauthenticate :
    Decode → (List ℕ → Option (Option (List ℕ))) → ℕ → Server → ℕ → List ℕ → Next
reauthenticate decode json_token t s last_auth cs = elim (json_token cs) [
  | none ↦ continue last_auth
  | some member ↦ after_check t last_auth (check_token decode s (member_token member))
]

unfoldable pub on_frame :
    Decode → (List ℕ → Option (Option (List ℕ))) → ℕ → Server → ℕ → Frame → Next
on_frame decode json_token t s last_auth (text cs) =
    if ltb max_ws_body (length cs)
    then stop too_big
    else if starts_with_brace (lstrip cs)
    then reauthenticate decode json_token t s last_auth cs
    else continue last_auth
on_frame decode json_token t s last_auth (bytes n) =
    if ltb max_ws_body n then stop too_big else continue last_auth
on_frame decode json_token t s last_auth gone = stop left

-- How a session ended, and when, and when it was last authenticated.
pub record Ended : Type 0 where
  pub end : End
  pub at : ℕ
  pub last_auth : ℕ

-- The loop, on the frames still to come, in the order of their arrival: with none before the
-- deadline it runs into the timeout.
unfoldable pub receive_loop :
    Decode → (List ℕ → Option (Option (List ℕ))) → ℕ → List Arrival → Ended
receive_loop decode json_token last_auth [] = record {
  end = unauthenticated;
  at = last_auth + reauth_interval;
  last_auth = last_auth;
}
receive_loop decode json_token last_auth (a ∷ as_) =
    if leb (last_auth + reauth_interval) a.time
    then record { end = unauthenticated; at = last_auth + reauth_interval; last_auth = last_auth }
    else elim (on_frame decode json_token a.time a.server last_auth a.frame) [
      | stop e ↦ record { end = e; at = a.time; last_auth = last_auth }
      | continue l ↦ receive_loop decode json_token l as_
    ]

-- `alerts_ws`: a socket that is accepted is registered, streams, and is removed whatever ends it.
-- `others` is what the rest of the server does to the registry meanwhile.
unfoldable pub alerts_ws :
    Decode
    → (List ℕ → Option (Option (List ℕ)))
    → List (List ℕ)
    → (ℕ → Bool)
    → ℕ
    → (Manager → Manager)
    → ℕ
    → ℕ
    → Server
    → Handshake
    → List Arrival
    → Manager
    → Ended × Manager
alerts_ws decode json_token allowed is_running current others sock start s h frames m =
    elim (handshake decode allowed s h) [
      | some e ↦ (record { end = e; at = start; last_auth = start }, m)
      | none ↦ (
        receive_loop decode json_token start frames,
        disconnect sock (others (connect is_running current sock m)),
      )
    ]
