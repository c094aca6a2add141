-- ===== src/Ws/Expiry.antt =====
-- How long a socket stays open (api/ws/routes.py).
use empyrean_v2_backend.Base.{
  ℕ, ◌+◌, ◌≤◌, ◌≡◌, refl, sym, subst, ◌∙◌, arith, true, false, List, [], ◌∷◌, Option, some, ltb,
  leb, length, Bool-cases, Option-cases, inl, inr, ◌⊎◌,
}
use empyrean_v2_backend.Access.Guard.{Decode, lstrip}
use empyrean_v2_backend.Ws.Session.{
  max_ws_body, reauth_interval, Server, Check, undecodable, revoked, inactive, valid, check_token,
  End, unauthenticated, after_check, member_token, Frame, text, bytes, gone, Arrival, Next, stop,
  continue, starts_with_brace, reauthenticate, on_frame, Ended, receive_loop,
}
use empyrean_v2_backend.Ws.Authorized.{IsAuthorized, check_token_sound}

-- The arrival is a text whose token authorizes at its time.
abbrev pub IsRenewal : Decode → (List ℕ → Option (Option (List ℕ))) → Server → Frame → Type 0
IsRenewal decode json_token s f =
    (cs : List ℕ) × (member : Option (List ℕ)) × (f ≡ text cs)
    × (json_token cs ≡ some member)
    × IsAuthorized decode s (member_token member)

-- One of the arrivals at a time renews.
abbrev pub RenewedAt : Decode → (List ℕ → Option (Option (List ℕ))) → ℕ → List Arrival → Type 0
RenewedAt decode json_token t [] = ⊥
RenewedAt decode json_token t (a ∷ as_) =
    ((a.time ≡ t) × IsRenewal decode json_token a.server a.frame)
    ⊎ RenewedAt decode json_token t as_

after_check_continues :
    (t last_auth l : ℕ) (c : Check)
    → after_check t last_auth c ≡ continue l
    → (last_auth ≡ l) ⊎ ((t ≡ l) × (c ≡ valid))
unfolding after_check
after_check_continues t last_auth l undecodable h = inl (ground (arith, h))
after_check_continues t last_auth l revoked h = absurd (ground (arith, h))
after_check_continues t last_auth l inactive h = inl (ground (arith, h))
after_check_continues t last_auth l valid h = inr (ground (arith, h), refl)

Next-cases : (n : Next) → ((e : End) × (n ≡ stop e)) ⊎ ((l : ℕ) × (n ≡ continue l))
Next-cases (stop e) = inl (e, refl)
Next-cases (continue l) = inr (l, refl)

module _ (decode : Decode) (json_token : List ℕ → Option (Option (List ℕ))) where
  reauthenticate_continues :
      (t last_auth l : ℕ) (s : Server) (cs : List ℕ)
      → reauthenticate decode json_token t s last_auth cs ≡ continue l
      → (last_auth ≡ l) ⊎ ((t ≡ l) × IsRenewal decode json_token s (text cs))
  unfolding reauthenticate
  reauthenticate_continues t last_auth l s cs h = elim (Option-cases (json_token cs)) [
    | inl e ↦ inl (ground (arith, e, h))
    | inr (member, e) ↦
        elim (after_check_continues t last_auth l (check_token decode s (member_token member))
          (ground (arith, e, h))) [
            | inl same ↦ inl same
            | inr (at_, ok_) ↦
                inr
                  (at_, (cs, member, refl, e, check_token_sound decode s (member_token member) ok_))
          ]
  ]

  on_frame_continues :
      (t last_auth l : ℕ) (s : Server) (f : Frame)
      → on_frame decode json_token t s last_auth f ≡ continue l
      → (last_auth ≡ l) ⊎ ((t ≡ l) × IsRenewal decode json_token s f)
  unfolding on_frame
  on_frame_continues t last_auth l s (text cs) h = elim (Bool-cases (ltb max_ws_body (length cs))) [
    | inl e ↦ absurd (ground (arith, e, h))
    | inr e ↦ elim (Bool-cases (starts_with_brace (lstrip cs))) [
      | inl b ↦ reauthenticate_continues t last_auth l s cs (ground (arith, e, b, h))
      | inr b ↦ inl (ground (arith, e, b, h))
    ]
  ]
  on_frame_continues t last_auth l s (bytes n) h = inl (ground (arith, h))
  on_frame_continues t last_auth l s gone h = absurd (ground (arith, h))

  module _ (start : ℕ) (a : Arrival) (as_ : List Arrival) where
    loop_late :
        leb (start + reauth_interval) a.time ≡ true
        → receive_loop decode json_token start (a ∷ as_)
          ≡ record { end = unauthenticated; at = start + reauth_interval; last_auth = start }
    unfolding receive_loop
    loop_late late = rw late refl

    loop_stop :
        (e : End)
        → leb (start + reauth_interval) a.time ≡ false
        → on_frame decode json_token a.time a.server start a.frame ≡ stop e
        → receive_loop decode json_token start (a ∷ as_)
          ≡ record { end = e; at = a.time; last_auth = start }
    unfolding receive_loop
    loop_stop e early h = rw (early, h) refl

    loop_continue :
        (l : ℕ)
        → leb (start + reauth_interval) a.time ≡ false
        → on_frame decode json_token a.time a.server start a.frame ≡ continue l
        → receive_loop decode json_token start (a ∷ as_) ≡ receive_loop decode json_token l as_
    unfolding receive_loop
    loop_continue l early h = rw (early, h) refl

  abbrev Expires : ℕ → List Arrival → Ended → Type 0
  Expires start frames e =
      (e.at ≤ e.last_auth + reauth_interval)
      × ((e.last_auth ≡ start) ⊎ RenewedAt decode json_token e.last_auth frames)

  Expires-continue :
      (start l : ℕ) (a : Arrival) (as_ : List Arrival) (e : Ended)
      → (start ≡ l) ⊎ ((a.time ≡ l) × IsRenewal decode json_token a.server a.frame)
      → Expires l as_ e
      → Expires start (a ∷ as_) e
  Expires-continue start l a as_ e how (within, inr later) = (within, inr (inr later))
  Expires-continue start l a as_ e (inl kept) (within, inl same) = (within, inl (same ∙ sym kept))
  Expires-continue start l a as_ e (inr (at_, renewal)) (within, inl same) =
      (within, inr (inl (at_ ∙ sym same, renewal)))

  -- Every session ends, within fifteen minutes of the last time that it was authenticated; and that
  -- is its start, or the time of a frame whose token then decoded, was not on the blocklist unless
  -- Redis was down, and belonged to an active user. Other frames, however many, do not put the end
  -- off.
  pub receive_loop_expires :
      (start : ℕ) (frames : List Arrival)
      → let e = receive_loop decode json_token start frames in
        (e.at ≤ e.last_auth + reauth_interval)
        × ((e.last_auth ≡ start) ⊎ RenewedAt decode json_token e.last_auth frames)
  unfolding receive_loop
  receive_loop_expires start [] = (omega arith, inl refl)
  receive_loop_expires start (a ∷ as_) = elim (Bool-cases (leb (start + reauth_interval) a.time)) [
    | inl late ↦
        subst (Expires start (a ∷ as_)) (sym (loop_late start a as_ late)) (omega arith, inl refl)
    | inr early ↦ elim (Next-cases (on_frame decode json_token a.time a.server start a.frame)) [
      | inl (e, h) ↦
          subst (Expires start (a ∷ as_)) (sym (loop_stop start a as_ e early h))
            (ground (arith, early), inl refl)
      | inr (l, h) ↦
          let how = on_frame_continues a.time start l a.server a.frame h in
          subst (Expires start (a ∷ as_)) (sym (loop_continue start a as_ l early h)) (
            Expires-continue start l a as_ (receive_loop decode json_token l as_) how
              (receive_loop_expires l as_))
    ]
  ]
