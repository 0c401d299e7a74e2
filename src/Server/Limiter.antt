-- ===== src/Server/Limiter.antt =====
-- `ipRateLimiter` of backend/middleware_cache_metrics.go. Times are nanoseconds. Tokens are float64 in
-- the source: a float64 that is not negative is a whole number of units, `one` of them in a token (as
-- 2^1074 for the units of 2^-1074), and the rounded operations are arguments. Taking one token from
-- one or more, the minimum and the comparisons are exact. The Go map is a function. The clock is
-- monotonic.
use jianghu_scrm.Prelude.{
  [], ◌∷◌, ℕ, String, Bool, Option, if◌then◌else◌, List, ◌==◌, true, eqb, some, ltb, ◌||◌, ◌-◌, ◌*◌,
  none, false, ◌&&◌, max, min, ◌+◌,
}
use jianghu_scrm.Utils.Page.{ℤ, pos, negsuc}
use jianghu_scrm.Server.Cache.{minute}

-- float64: the units in a token, `elapsed.Seconds() * l.rps` by the elapsed nanoseconds and the rate,
-- and the sum, both rounded.
pub record Float64 : Type 0 where
  pub one : ℕ
  pub earned : ℕ → ℕ → ℕ
  pub plus : ℕ → ℕ → ℕ

abbrev pub second : ℕ
second = 1000000000

abbrev pub five_minutes : ℕ
five_minutes = 300000000000

pub record TokenBucket : Type 0 where
  pub tokens : ℕ
  pub last : ℕ

pub record IpRateLimiter : Type 0 where
  pub rps : ℕ
  pub burst : ℕ
  pub clients : String → Option TokenBucket
  pub last_sweep : ℕ

unfoldable pub at_least_zero : ℤ → ℕ
at_least_zero (pos n) = n
at_least_zero (negsuc n) = 0

unfoldable pub new_ip_rate_limiter : ℕ → ℤ → ℤ → IpRateLimiter
unfolding at_least_zero
new_ip_rate_limiter now rps burst = record {
  rps = at_least_zero rps;
  burst = max (at_least_zero burst) (at_least_zero rps);
  clients = λ _. none;
  last_sweep = now;
}

-- the bucket where it has not been idle for more than five minutes
unfoldable pub unless_idle : ℕ → Option TokenBucket → Option TokenBucket
unless_idle now none = none
unless_idle now (some b) = if ltb five_minutes (now - b.last) then none else some b

unfoldable pub sweep_clients : ℕ → IpRateLimiter → IpRateLimiter
sweep_clients now l =
    if ltb (now - l.last_sweep) minute
    then l
    else record l { clients = λ ip. unless_idle now (l.clients ip); last_sweep = now }

unfoldable pub put_bucket : String → TokenBucket → IpRateLimiter → IpRateLimiter
put_bucket ip b l = record l { clients = λ k. if k == ip then some b else l.clients k }

module _ (fl : Float64) where
  unfoldable pub refill : ℕ → IpRateLimiter → TokenBucket → ℕ
  refill now l b = min (l.burst * fl.one) (fl.plus b.tokens (fl.earned (now - b.last) l.rps))

  -- the bucket of the client, and whether it gave a token
  unfoldable pub take_token : ℕ → IpRateLimiter → Option TokenBucket → Bool × TokenBucket
  take_token now l none = (true, record { tokens = l.burst * fl.one - fl.one; last = now })
  take_token now l (some b) =
      if ltb (refill now l b) fl.one
      then (false, record { tokens = refill now l b; last = now })
      else (true, record { tokens = refill now l b - fl.one; last = now })

  unfoldable pub allow : ℕ → String → IpRateLimiter → Bool × IpRateLimiter
  unfolding take_token
  allow now ip l =
      if eqb l.rps 0 || eqb l.burst 0
      then (true, l)
      else let (taken, b) = take_token now l (l.clients ip) in
        (taken, sweep_clients now (put_bucket ip b l))

  -- A run of calls, each with its time and client: how many the client at `ip` was allowed.
  unfoldable pub allowed : String → List (ℕ × String) → IpRateLimiter → ℕ
  allowed ip [] l = 0
  allowed ip ((now, who) ∷ calls) l =
      (if who == ip && (allow now who l).0 then 1 else 0) + allowed ip calls (allow now who l).1
