-- ===== src/Limits/Window.antt =====
-- The fixed-window limiter of api/rate_limit.py. Times are milliseconds since the epoch. Redis is
-- reachable or not, and a command on it succeeds or not; the Lua script is one step.
use empyrean_v2_backend.Base.{
  ℕ, ◌+◌, ◌-◌, ◌*◌, ◌/◌, ◌%◌, ◌==◌, ◌≡◌, refl, Bool, true, false, ◌&&◌, List, [], ◌∷◌, Option, none,
  some, ltb, if◌then◌else◌, arith,
}
use empyrean_v2_backend.Access.Guard.{lstrip, rstrip}

-- The parts of the key `ratelimit:{endpoint}:{ip}:{minute}`.
pub record Key : Type 0 where
  pub endpoint : ℕ
  pub ip : List ℕ
  pub minute : ℕ

pub record Counter : Type 0 where
  pub key : Key
  pub count : ℕ
  pub until : ℕ

-- `client` and `works` say whether there is a Redis client and whether its command succeeds.
pub record Limiter : Type 0 where
  pub client : Bool
  pub works : Bool
  pub counters : List Counter
  pub bypass_events : ℕ

pub record Headers : Type 0 where
  pub limit : ℕ
  pub remaining : ℕ
  pub reset : ℕ
  pub bypass : Bool

-- What the decorated handler answers: its own response, or 429.
pub data Response {ℓ} (A : Type ℓ) : Type ℓ where
  served : A → Headers → Response A
  too_many : Headers → Response A

-- What the limiter reads of a request.
pub record Request : Type 0 where
  pub endpoint : Option ℕ
  pub remote_addr : Option (List ℕ)
  pub real_ip : List ℕ
  pub time : ℕ

unfoldable pub same_text : List ℕ → List ℕ → Bool
same_text [] [] = true
same_text [] (b ∷ bs) = false
same_text (a ∷ as') [] = false
same_text (a ∷ as') (b ∷ bs) = let rest = same_text as' bs in if a == b then rest else false

unfoldable pub same_key : Key → Key → Bool
same_key j k = (j.endpoint == k.endpoint) && ((j.minute == k.minute) && same_text j.ip k.ip)

-- "unknown"
abbrev pub unknown : List ℕ
unknown = b'u' ∷ b'n' ∷ b'k' ∷ b'n' ∷ b'o' ∷ b'w' ∷ b'n' ∷ []

abbrev pub or_unknown : Option (List ℕ) → List ℕ
or_unknown none = unknown
or_unknown (some []) = unknown
or_unknown (some (c ∷ cs)) = c ∷ cs

-- `_client_ip`, with the setting TRUST_PROXY_HEADERS.
unfoldable pub client_ip : Bool → Request → List ℕ
client_ip trust_proxy r =
    if trust_proxy
    then elim (lstrip (rstrip r.real_ip)) [ [] ↦ or_unknown r.remote_addr | c ∷ cs ↦ c ∷ cs ]
    else or_unknown r.remote_addr

-- The scope of a request with no endpoint is "default", which counts as zero here; the named ones
-- count from one.
unfoldable pub rate_limit_key : Bool → Request → Key
rate_limit_key trust_proxy r = record {
  endpoint = elim r.endpoint [ none ↦ 0 | some e ↦ e + 1 ];
  ip = client_ip trust_proxy r;
  minute = r.time / 60000;
}

-- `_reset_epoch`, in seconds
unfoldable pub reset_epoch : ℕ → ℕ
reset_epoch now = now / 1000 + (60 - (now / 1000) % 60)

-- `_rate_headers`: `limit - count` below zero reads zero.
unfoldable pub rate_headers : ℕ → ℕ → ℕ → Bool → Headers
rate_headers limit remaining reset bypass = record {
  limit = limit;
  remaining = remaining;
  reset = reset;
  bypass = bypass;
}

-- The script: INCR, and PEXPIRE on the first increment. An expired key is gone.
unfoldable pub incr : ℕ → ℕ → Key → List Counter → ℕ × List Counter
incr now window k [] = (1, record { key = k; count = 1; until = now + window * 1000 } ∷ [])
incr now window k (c ∷ cs) =
    let (n, rest) = incr now window k cs in
    if same_key c.key k
    then if ltb now c.until
      then (c.count + 1, record c { count = c.count + 1 } ∷ cs)
      else (1, record { key = k; count = 1; until = now + window * 1000 } ∷ cs)
    else (n, c ∷ rest)

-- `rate_limit(limit, window)` around a handler.
unfoldable pub rate_limit {ℓ} :
    {A : Type ℓ} → Bool → ℕ → ℕ → A → Request → Limiter → Response A × Limiter
rate_limit trust_proxy limit window handler r l =
    let key = rate_limit_key trust_proxy r in
    let reset = reset_epoch r.time in
    let headers = rate_headers limit limit reset true in
    let (n, counters) = incr r.time window key l.counters in
    let counted : Limiter = record l { counters = counters } in
    if l.client && l.works
    then (if ltb limit n
        then (too_many (rate_headers limit (limit - n) reset false), counted)
        else (served handler (rate_headers limit (limit - n) reset false), counted))
    else (served handler headers, record l { bypass_events = l.bypass_events + 1 })

-- A run of requests on one route, each answered by itself.
unfoldable pub serve_all : Bool → ℕ → ℕ → List Request → Limiter → List (Response Request) × Limiter
serve_all trust_proxy limit window [] l = ([], l)
serve_all trust_proxy limit window (r ∷ rs) l =
    let (x, l') = rate_limit trust_proxy limit window r r l in
    let (xs, l'') = serve_all trust_proxy limit window rs l' in (x ∷ xs, l'')

-- The counter of a key, expired or not.
unfoldable pub stored : Key → List Counter → Option Counter
stored k [] = none
stored k (c ∷ cs) = let rest = stored k cs in if same_key c.key k then some c else rest

pub same_text_refl : (a : List ℕ) → same_text a a ≡ true
unfolding same_text
same_text_refl [] = refl
same_text_refl (c ∷ cs) = ground (arith, same_text_refl cs)

pub same_text_eq : (a b : List ℕ) → same_text a b ≡ true → a ≡ b
unfolding same_text
same_text_eq [] [] h = refl
same_text_eq [] (b ∷ bs) h = absurd (ground arith)
same_text_eq (a ∷ as') [] h = absurd (ground arith)
same_text_eq (a ∷ as') (b ∷ bs) h =
    let tail = same_text_eq as' bs (ground arith) in
    let head : a ≡ b = ground arith in rw (head, tail) refl

pub same_key_refl : (k : Key) → same_key k k ≡ true
unfolding same_key
same_key_refl k = ground (arith, same_text_refl k.ip)

pub same_key_eq : (j k : Key) → same_key j k ≡ true → j ≡ k
unfolding same_key
same_key_eq j k h =
    let ips = same_text_eq j.ip k.ip (ground arith) in
    let ends : j.endpoint ≡ k.endpoint = ground arith in
    let minutes : j.minute ≡ k.minute = ground arith in rw (ips, ends, minutes) refl
