-- ===== src/Aggregation/Sweep.antt =====
-- What the daily sweeps of tokens leave (tasks/aggregation.py, `refresh_token_cleanup` and
-- `password_reset_token_cleanup`).
use empyrean_v2_backend.Base.{
  ℕ, ◌+◌, ◌*◌, ◌≤◌, ◌≡◌, refl, arith, Bool, true, false, ◌||◌, not, List, [], ◌∷◌, none, some, leb,
  length, keep, keep_none, length-keep, update_where, sym, ap, ◌∙◌, count, find, All, if◌then◌else◌,
  Result, ok, err, Bool-cases, List-cases, inl, inr, ◌⊎◌,
}
use empyrean_v2_backend.Access.Store.{User, has_user_id}
use empyrean_v2_backend.Tokens.Store.{RefreshToken, PasswordResetToken, Db, Failure, unauthorized}
use empyrean_v2_backend.Tokens.Reset.{is_unused, has_reset_hash, reset_password, redeem}
use empyrean_v2_backend.Tokens.Session.{save_user, revoke_where}
use empyrean_v2_backend.Aggregation.Rollup.{day}
use empyrean_v2_backend.Aggregation.Retention.{
  token_retention, token_grace_days, is_expired, is_expired_of, is_deleted, refresh_token_cleanup,
  is_redeemable, password_reset_token_cleanup,
}

abbrev pub IsInGrace : ℕ → RefreshToken → Type 0
IsInGrace now t = now ≤ t.expires_at + token_grace_days * day

count-cleanup-le :
    (now id : ℕ) (ts : List RefreshToken)
    → count (is_expired_of now id) (refresh_token_cleanup now ts) ≤ count (is_expired_of now id) ts
unfolding refresh_token_cleanup
count-cleanup-le now id [] = omega arith
count-cleanup-le now id (t ∷ ts) = ground (arith, count-cleanup-le now id ts)

count-cleanup-retention :
    (now id : ℕ) (ts : List RefreshToken)
    → count (is_expired_of now id) (refresh_token_cleanup now ts) ≤ token_retention
unfolding refresh_token_cleanup
count-cleanup-retention now id [] = omega arith
count-cleanup-retention now id (t ∷ ts) = elim (Bool-cases (is_deleted now t ts)) [
  | inl e ↦ rw e (count-cleanup-retention now id ts)
  | inr e ↦ rw e (elim (Bool-cases (is_expired_of now id t)) [
    | inr other ↦ rw other (count-cleanup-retention now id ts)
    | inl own ↦ rw own (ground (arith, e, own, count-cleanup-le now id ts))
  ])
]

cleanup-IsInGrace :
    (now : ℕ) (ts : List RefreshToken) → All (IsInGrace now) (refresh_token_cleanup now ts)
unfolding refresh_token_cleanup
cleanup-IsInGrace now [] = tt
cleanup-IsInGrace now (t ∷ ts) = elim (Bool-cases (is_deleted now t ts)) [
  | inl e ↦ rw e (cleanup-IsInGrace now ts)
  | inr e ↦ rw e (ground (arith, e), cleanup-IsInGrace now ts)
]

keep-cleanup :
    (p : RefreshToken → Bool) (now : ℕ) (ts : List RefreshToken)
    → ((t : RefreshToken) → p t ≡ true → is_expired now t ≡ false)
    → keep p (refresh_token_cleanup now ts) ≡ keep p ts
unfolding refresh_token_cleanup
keep-cleanup p now [] h = refl
keep-cleanup p now (t ∷ ts) h = elim (Bool-cases (p t)) [
  | inl e ↦ ground (arith, e, h t e, keep-cleanup p now ts h)
  | inr e ↦ ground (arith, e, keep-cleanup p now ts h)
]

-- The sweep of refresh tokens leaves every token that has not expired, in its place among those of
-- its kind; of the expired ones it leaves ten for each user at most, none of them longer than thirty
-- days after its expiry.
pub refresh_token_cleanup_bounds :
    (now id : ℕ) (ts : List RefreshToken) (p : RefreshToken → Bool)
    → ((t : RefreshToken) → p t ≡ true → is_expired now t ≡ false)
    → let left = refresh_token_cleanup now ts in
      (keep p left ≡ keep p ts)
      × (count (is_expired_of now id) left ≤ token_retention)
      × All (IsInGrace now) left
refresh_token_cleanup_bounds now id ts p h =
    (keep-cleanup p now ts h, count-cleanup-retention now id ts, cleanup-IsInGrace now ts)

keep-sweep_none :
    (now h : ℕ) (ts : List PasswordResetToken)
    → count (has_reset_hash h) ts ≡ 0
    → keep (has_reset_hash h) (keep (is_redeemable now) ts) ≡ []
keep-sweep_none now h [] c = refl
keep-sweep_none now h (t ∷ ts) c = ground (arith, keep-sweep_none now h ts)

-- What a hash finds, before and after the sweep, where it has one row at most.
found_after :
    (now h : ℕ) (ts : List PasswordResetToken)
    → count (has_reset_hash h) ts ≤ 1
    → (keep (has_reset_hash h) (keep (is_redeemable now) ts) ≡ keep (has_reset_hash h) ts)
      ⊎ ((keep (has_reset_hash h) (keep (is_redeemable now) ts) ≡ [])
          × ((t : PasswordResetToken) × (keep (has_reset_hash h) ts ≡ t ∷ [])
              × (is_redeemable now t ≡ false)))
found_after now h [] c = inl refl
found_after now h (t ∷ ts) c = elim (Bool-cases (has_reset_hash h t)) [
  | inl e ↦
      let zero_ : count (has_reset_hash h) ts ≡ 0 = ground (arith, c, e) in
      let gone = keep-sweep_none now h ts zero_ in
      let last = keep_none (has_reset_hash h) ts zero_ in
      elim (Bool-cases (is_redeemable now t)) [
        | inl red ↦ inl (ground (arith, e, red, gone, last))
        | inr not_ ↦ inr (ground (arith, not_, gone), (t, ground (arith, e, last), not_))
      ]
  | inr e ↦ elim (found_after now h ts (ground (arith, c, e))) [
    | inl same ↦ inl (elim (Bool-cases (is_redeemable now t)) [
      | inl red ↦ rw (red, e) same
      | inr not_ ↦ rw (not_, e) same
    ])
    | inr (none_, (x, found, dead)) ↦ inr (
      elim (Bool-cases (is_redeemable now t)) [
        | inl red ↦ rw red (rw e none_)
        | inr not_ ↦ rw not_ none_
      ],
      (x, rw e found, dead),
    )
  ]
]

-- What a link that is found does, by its row and the users.
outcome : ℕ → PasswordResetToken → List User → Result Failure (Unit {0})
outcome now t users =
    if not (is_unused t) || leb t.expires_at now
    then err unauthorized
    else elim (find (has_user_id t.user_id) users) [
      | none ↦ err unauthorized
      | some u ↦ if u.is_active then ok tt else err unauthorized
    ]

users_after : ℕ → ℕ → PasswordResetToken → List User → List User
users_after now pwd_hash t users =
    if not (is_unused t) || leb t.expires_at now
    then users
    else elim (find (has_user_id t.user_id) users) [
      | none ↦ users
      | some u ↦
          if u.is_active
          then update_where (has_user_id u.id) (λ _. record u { password_hash = some pwd_hash })
              users
          else users
    ]

module _ (sha : ℕ → ℕ) (now pwd_hash raw : ℕ) (db : Db) where
  reset_absent :
      keep (has_reset_hash (sha raw)) db.reset_tokens ≡ []
      → let r = reset_password sha now pwd_hash raw db in
        (r.1 ≡ err unauthorized) × (r.0.users ≡ db.users)
  unfolding reset_password
  reset_absent e = (ground (arith, e), ground (arith, e))

  reset_found :
      (t : PasswordResetToken)
      → keep (has_reset_hash (sha raw)) db.reset_tokens ≡ t ∷ []
      → let r = reset_password sha now pwd_hash raw db in
        (r.1 ≡ outcome now t db.users) × (r.0.users ≡ users_after now pwd_hash t db.users)
  unfolding reset_password outcome users_after redeem save_user revoke_where
  reset_found t e = (ground (arith, e), ground (arith, e))

  reset_dead :
      (swept : ℕ) (t : PasswordResetToken)
      → swept ≤ now
      → is_redeemable swept t ≡ false
      → (outcome now t db.users ≡ err unauthorized)
        × (users_after now pwd_hash t db.users ≡ db.users)
  unfolding outcome users_after
  reset_dead swept t le e = (ground (arith, e), ground (arith, e))

-- Sweeping the reset links changes nothing for who holds one: where no two rows have the hash, a link
-- shown at that time or later has the same answer, and the same effect on the users, with the sweep
-- before it or without.
pub reset_password-cleanup :
    (sha : ℕ → ℕ) (swept now pwd_hash raw : ℕ) (db : Db)
    → count (has_reset_hash (sha raw)) db.reset_tokens ≤ 1
    → swept ≤ now
    → let after = reset_password sha now pwd_hash raw (password_reset_token_cleanup swept db) in
      let before = reset_password sha now pwd_hash raw db in
      (after.1 ≡ before.1) × (after.0.users ≡ before.0.users)
unfolding reset_password password_reset_token_cleanup
reset_password-cleanup sha swept now pwd_hash raw db c le =
    let hits = keep (has_reset_hash (sha raw)) db.reset_tokens in
    let db' = password_reset_token_cleanup swept db in
    elim (found_after swept (sha raw) db.reset_tokens c) [
      | inr (none_, (t, found, dead)) ↦
          let before = reset_found sha now pwd_hash raw db t found in
          let after = reset_absent sha now pwd_hash raw db' none_ in
          let unmoved = reset_dead sha now pwd_hash raw db swept t le dead in
          (after.0 ∙ sym (before.0 ∙ unmoved.0), after.1 ∙ sym (before.1 ∙ unmoved.1))
      | inl same ↦ elim (List-cases hits) [
        | inl e ↦
            let before = reset_absent sha now pwd_hash raw db e in
            let after = reset_absent sha now pwd_hash raw db' (same ∙ e) in
            (after.0 ∙ sym before.0, after.1 ∙ sym before.1)
        | inr (t, ts, e) ↦ elim (List-cases ts) [
          | inl e' ↦
              let one = e ∙ ap (λ l. t ∷ l) e' in
              let before = reset_found sha now pwd_hash raw db t one in
              let after = reset_found sha now pwd_hash raw db' t (same ∙ one) in
              (after.0 ∙ sym before.0, after.1 ∙ sym before.1)
          | inr (u, us, e') ↦ absurd (
              omega (
                arith,
                c,
                length-keep (has_reset_hash (sha raw)) db.reset_tokens,
                ap length (e ∙ ap (λ l. t ∷ l) e'),
              ))
        ]
      ]
    ]
