-- ===== src/Ws/Authorized.antt =====
-- Who gets a socket (api/ws/routes.py).
use empyrean_v2_backend.Base.{
  ℕ, ◌≡◌, refl, ap, arith, ◌⊎◌, find_holds, Bool, true, false, List, Option, none, some, count,
  Bool-cases, Option-cases, ok, Result-cases, inl, inr,
}
use empyrean_v2_backend.Base.Int.{ℤ, pos, negsuc}
use empyrean_v2_backend.Access.Store.{User, has_user_id}
use empyrean_v2_backend.Access.Guard.{Claims, Decode, decode_access_token, is_token_revoked}
use empyrean_v2_backend.Access.Protection.{
  IsUnlisted, is_token_revoked-false, is_token_revoked-unlisted,
}
use empyrean_v2_backend.Ws.Manager.{Manager, is_socket, connect, disconnect}
use empyrean_v2_backend.Ws.Delivery.{count-discard}
use empyrean_v2_backend.Ws.Session.{
  Server, Handshake, access_token, is_origin_allowed, user_row, is_active_row, Check, undecodable,
  revoked, inactive, valid, is_valid, check_token, End, forbidden_origin, unauthenticated,
  receive_loop, handshake, Arrival, alerts_ws,
}

-- The token decodes to an access token's claims, Redis is down or the token is not on the blocklist,
-- and the row of the user whom it names is there and active.
pub record IsAuthorized (decode : Decode) (s : Server) (token : List ℕ) : Type 0 where
  pub claims : Claims
  pub sub : ℤ
  pub decodes : decode_access_token decode s.wall token ≡ ok (claims, sub)
  pub not_revoked : (s.redis.up ≡ false) ⊎ IsUnlisted s.wall claims.jti s.redis
  pub user : User
  pub row : user_row sub s.users ≡ some user
  pub owner : sub ≡ pos user.id
  pub active : user.is_active ≡ true

active_row :
    (o : Option User) → is_active_row o ≡ true → (u : User) × (o ≡ some u) × (u.is_active ≡ true)
active_row none h = absurd (ground arith)
active_row (some u) h = (u, refl, h)

user_row_owner :
    (sub : ℤ) (users : List User) (u : User) → user_row sub users ≡ some u → sub ≡ pos u.id
unfolding user_row
user_row_owner (pos i) users u h = ap pos (ground (arith, find_holds (has_user_id i) users u h))
user_row_owner (negsuc i) users u h = absurd (ground (arith, h))

pub check_token_sound :
    (decode : Decode) (s : Server) (token : List ℕ)
    → check_token decode s token ≡ valid
    → IsAuthorized decode s token
unfolding check_token
check_token_sound decode s token h = elim (Result-cases (decode_access_token decode s.wall token)) [
  | inr (e, d) ↦ absurd (ground (arith, d, h))
  | inl ((c, sub), d) ↦ elim (Bool-cases (is_token_revoked s.wall c.jti s.redis)) [
    | inl r ↦ absurd (ground (arith, d, r, h))
    | inr r ↦ elim (Bool-cases (is_active_row (user_row sub s.users))) [
      | inr i ↦ absurd (ground (arith, d, r, i, h))
      | inl a ↦
          let (u, row, on) = active_row (user_row sub s.users) a in
          record {
            claims = c;
            sub = sub;
            decodes = d;
            not_revoked = is_token_revoked-false s.wall c.jti s.redis r;
            user = u;
            owner = user_row_owner sub s.users u row;
            row = row;
            active = on;
          }
    ]
  ]
]

is_valid_eq : (c : Check) → is_valid c ≡ true → c ≡ valid
is_valid_eq undecodable h = absurd (ground (arith, h))
is_valid_eq revoked h = absurd (ground (arith, h))
is_valid_eq inactive h = absurd (ground (arith, h))
is_valid_eq valid h = refl

-- A token that authorizes passes the check.
check_token_complete :
    (decode : Decode) (s : Server) (token : List ℕ)
    → IsAuthorized decode s token
    → check_token decode s token ≡ valid
unfolding check_token
check_token_complete decode s token a =
    let open_ = is_token_revoked-unlisted s.wall a.claims.jti s.redis a.not_revoked in
    let on : is_active_row (user_row a.sub s.users) ≡ true = ground (arith, a.row, a.active) in
    ground (arith, a.decodes, open_, on)

-- Why a handshake is refused with a code: the origin is not allowed, or there is no token, or none
-- that authorizes.
abbrev pub IsRefused : Decode → List (List ℕ) → Server → Handshake → End → Type 0
IsRefused decode allowed s h e =
    ((is_origin_allowed allowed h.origin ≡ false) × (e ≡ forbidden_origin))
    ⊎ ((e ≡ unauthenticated)
        × ((access_token h ≡ none)
            ⊎ ((token : List ℕ) × (access_token h ≡ some token) × (¬ IsAuthorized decode s token))))

abbrev pub IsAllowed : Decode → List (List ℕ) → Server → Handshake → Type 0
IsAllowed decode allowed s h =
    (is_origin_allowed allowed h.origin ≡ true)
    × ((token : List ℕ) × (access_token h ≡ some token) × IsAuthorized decode s token)

handshake_cases :
    (decode : Decode) (allowed : List (List ℕ)) (s : Server) (h : Handshake)
    → ((handshake decode allowed s h ≡ none) × IsAllowed decode allowed s h)
      ⊎ ((e : End) × (handshake decode allowed s h ≡ some e) × IsRefused decode allowed s h e)
unfolding handshake
handshake_cases decode allowed s h = elim (Bool-cases (is_origin_allowed allowed h.origin)) [
  | inr o ↦ inr (forbidden_origin, ground (arith, o), inl (o, refl))
  | inl o ↦ elim (Option-cases (access_token h)) [
    | inl t ↦ inr (unauthenticated, ground (arith, o, t), inr (refl, inl t))
    | inr (token, t) ↦ elim (Bool-cases (is_valid (check_token decode s token))) [
      | inl v ↦ inl (
        ground (arith, o, t, v),
        (o, (token, t, check_token_sound decode s token (is_valid_eq _ v))),
      )
      | inr v ↦ inr (
        unauthenticated,
        ground (arith, o, t, v),
        inr (refl, inr (token, t, λ a. ground (arith, v, check_token_complete decode s token a))),
      )
    ]
  ]
]

-- A handshake is accepted just from an allowed origin or none, and for a token that decodes, that is
-- not on the blocklist unless Redis is down, and whose subject is a user with an active row. Any
-- other is refused, with 4403 for the origin and 4401 for the token, and leaves the registry as it
-- was. Once the session of an accepted socket is over, the registry has it no more, whatever else
-- happened there meanwhile.
pub alerts_ws_sound :
    (decode : Decode) (json_token : List ℕ → Option (Option (List ℕ))) (allowed : List (List ℕ))
    (is_running : ℕ → Bool) (current : ℕ) (others : Manager → Manager) (sock start : ℕ) (s : Server)
    (h : Handshake) (frames : List Arrival) (m : Manager)
    → let (ended, after) =
        alerts_ws decode json_token allowed is_running current others sock start s h frames m in
      (IsAllowed decode allowed s h
        × (ended ≡ receive_loop decode json_token start frames)
        × (count (is_socket sock) after.connections ≡ 0))
      ⊎ (IsRefused decode allowed s h ended.end × (ended.at ≡ start) × (after ≡ m))
unfolding alerts_ws disconnect
alerts_ws_sound decode json_token allowed is_running current others sock start s h frames m =
    let open_ = (others (connect is_running current sock m)).connections in
    elim (handshake_cases decode allowed s h) [
      | inl (e, good) ↦
          rw (alerts_ws, e) (inl (good, refl, ground (arith, count-discard sock sock open_)))
      | inr (e, refused, why) ↦ rw (alerts_ws, refused) (inr (why, refl, refl))
    ]
