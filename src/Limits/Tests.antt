-- ===== src/Limits/Tests.antt =====
-- Tests of the limiter, and its theorems at three requests.
use empyrean_v2_backend.Base.{ℕ, ◌≡◌, refl, true, false, List, [], ◌∷◌, some, arith, min, count}
use empyrean_v2_backend.Limits.Window.{
  Key, Limiter, Request, rate_limit, serve_all, same_key, same_text, rate_limit_key, client_ip,
  incr, stored,
}
use empyrean_v2_backend.Limits.Budget.{is_for, is_served_for, rate_limit_budget}

abbrev seven : ℕ
seven = 7

abbrev ask : ℕ → Request
ask t = record { endpoint = some 4; remote_addr = some (b'7' ∷ []); real_ip = []; time = t }

abbrev key : Key
key = record { endpoint = 5; ip = b'7' ∷ []; minute = 2 }

abbrev idle : Limiter
idle = record { client = true; works = true; counters = []; bypass_events = 0 }

abbrev requests : List Request
requests = ask 120000 ∷ ask 179999 ∷ ask 150000 ∷ []

-- Two are let through, and the third is refused.
two_pass :
    (count (is_served_for false key) (serve_all false 2 60 requests idle).0 ≡ 2)
    × (count (is_for false key) requests ≡ 3)
unfolding serve_all rate_limit rate_limit_key client_ip incr same_key same_text
two_pass = (refl, refl)

rate_limit_budget_example :
    count (is_served_for false key) (serve_all false 2 60 requests idle).0
    ≡ min (count (is_for false key) requests) 2
unfolding stored
rate_limit_budget_example =
    rate_limit_budget false 2 60 key requests idle refl refl (omega arith) refl
