-- ===== src/Alerts/Acknowledge.antt =====
-- What acknowledging does (api/alerts.py, `acknowledge_alert`).
use empyrean_v2_backend.Base.{ℕ, ◌≤◌, ◌≡◌, refl, List, [], ◌∷◌, some, count, find, arith, ok}
use empyrean_v2_backend.Alerts.Table.{Parameter, Alert, Alerts, unacked_for}
use empyrean_v2_backend.Alerts.Upsert.{IsUnique}
use empyrean_v2_backend.Alerts.Routes.{acknowledged, acknowledge_rows, acknowledge_alert, has_id}

-- `acknowledge_rows` acts on the row that `find` finds.
find-acknowledge :
    (now user id : ℕ) (rows : List Alert) (a : Alert)
    → find (has_id id) rows ≡ some a
    → find (has_id id) (acknowledge_rows now user id rows) ≡ some (acknowledged now user a)
unfolding acknowledge_rows
find-acknowledge now user id [] a h = cc
find-acknowledge now user id (b ∷ rows) a h = ground (arith, find-acknowledge now user id rows a)

acknowledge_twice :
    (now user now' user' id : ℕ) (rows : List Alert)
    → acknowledge_rows now' user' id (acknowledge_rows now user id rows)
      ≡ acknowledge_rows now user id rows
unfolding acknowledge_rows
acknowledge_twice now user now' user' id [] = refl
acknowledge_twice now user now' user' id (b ∷ rows) =
    ground (arith, acknowledge_twice now user now' user' id rows)

count_acknowledge :
    (now user id : ℕ) (rows : List Alert) (node : ℕ) (p : Parameter)
    → count (unacked_for node p) (acknowledge_rows now user id rows)
      ≤ count (unacked_for node p) rows
unfolding acknowledge_rows unacked_for
count_acknowledge now user id [] node p = omega arith
count_acknowledge now user id (a ∷ rows) node p =
    ground (arith, count_acknowledge now user id rows node p)

-- An existing alert is acknowledged once: the reply is the alert with the first user and time, the
-- index stays unique, and a second acknowledgement, by whoever and whenever, changes neither the
-- table nor the reply.
pub acknowledge_once :
    (now user now' user' id : ℕ) (t : Alerts) (a : Alert)
    → IsUnique t.rows
    → find (has_id id) t.rows ≡ some a
    → let (t', r) = acknowledge_alert now user id t in
      (r ≡ ok (acknowledged now user a))
      × IsUnique t'.rows
      × (acknowledge_alert now' user' id t' ≡ (t', r))
unfolding acknowledge_alert
acknowledge_once now user now' user' id t a u h =
    rw (h, acknowledge_alert)
      (
        refl,
        (λ node p. omega (arith, count_acknowledge now user id t.rows node p, u node p)),
        rw (find-acknowledge now user id t.rows a h, acknowledge_alert)
            (ground (arith, acknowledge_twice now user now' user' id t.rows)),
      )
