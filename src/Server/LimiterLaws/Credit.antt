-- ===== src/Server/LimiterLaws/Credit.antt =====
-- The credit of a bucket: what its client may still take.
use native.Mathlib.Nat.{add-mul, mul-le-mul_right}
use jianghu_scrm.Server.Limiter.{
  refill, take_token, unless_idle, IpRateLimiter, TokenBucket, second, five_minutes, sweep_clients,
  Float64,
}
use jianghu_scrm.Prelude.{
  ℕ, Option, ◌*◌, some, ◌≤◌, ◌≡◌, ◌+◌, Bool-cases, if◌then◌else◌, arith, none, ◌-◌, ltb, inl, ap,
  inr, ◌∙◌, String, refl, ◌⊎◌, min,
}
use jianghu_scrm.Server.Cache.{minute}

-- A limiter that limits, and whose clients earn a whole bucket in five minutes.
pub record IsLimiting (l : IpRateLimiter) : Type 0 where
  pub rate : 1 ≤ l.rps
  pub room : 1 ≤ l.burst
  pub refills : l.burst ≤ 300 * l.rps

-- Rounding gives a bucket that holds at most the burst no more than `slack` units beyond what it held
-- and earned, whatever it held and however long it earned. In float64 each operation errs by less than
-- 2^-52 of its result, and the minimum caps the result, so a 2^-48 part of the burst is slack enough.
pub record IsRounded (fl : Float64) (slack burst rps : ℕ) : Type 0 where
  pub off :
      (tokens elapsed : ℕ)
      → min (burst * fl.one) (fl.plus tokens (fl.earned elapsed rps)) * second
        ≤ tokens * second + elapsed * (rps * fl.one) + slack * second

-- the bucket was last used by a time
abbrev pub UsedBy : ℕ → Option TokenBucket → Type 0
UsedBy now none = Unit
UsedBy now (some b) = b.last ≤ now

pub UsedBy-later : (s t : ℕ) (o : Option TokenBucket) → s ≤ t → UsedBy s o → UsedBy t o
UsedBy-later s t none h u = tt
UsedBy-later s t (some b) h u = omega (arith, h, u)

pub UsedBy-unless_idle :
    (now : ℕ) (o : Option TokenBucket) → UsedBy now o → UsedBy now (unless_idle now o)
unfolding unless_idle
UsedBy-unless_idle now none u = tt
UsedBy-unless_idle now (some b) u = elim (Bool-cases (ltb five_minutes (now - b.last))) [
  | inl e ↦ rw e tt
  | inr e ↦ rw e u
]

-- what a sweep does to the bucket of one client
pub sweep_clients_cases :
    (now : ℕ) (l : IpRateLimiter) (ip : String)
    → ((sweep_clients now l).clients ip ≡ l.clients ip)
      ⊎ ((sweep_clients now l).clients ip ≡ unless_idle now (l.clients ip))
unfolding sweep_clients
sweep_clients_cases now l ip = elim (Bool-cases (ltb (now - l.last_sweep) minute)) [
  | inl e ↦ rw e (inl refl)
  | inr e ↦ rw e (inr refl)
]

module _ (fl : Float64) where
  -- the units that a client earns in a nanosecond, times a second
  abbrev pub speed : IpRateLimiter → ℕ
  speed l = l.rps * fl.one

  -- what a client may still take, without rounding and times a second
  unfoldable pub credit_of : ℕ → IpRateLimiter → Option TokenBucket → ℕ
  credit_of now l none = l.burst * fl.one * second
  credit_of now l (some b) =
      min (l.burst * fl.one * second) (b.tokens * second + (now - b.last) * speed l)

  pub credit_of-le :
      (now : ℕ) (l : IpRateLimiter) (o : Option TokenBucket)
      → credit_of now l o ≤ l.burst * fl.one * second
  unfolding credit_of
  credit_of-le now l none = omega arith
  credit_of-le now l (some b) = omega arith

  -- in the time between two calls a client earns at most its rate
  pub credit_of_later :
      (s t : ℕ) (l : IpRateLimiter) (o : Option TokenBucket)
      → s ≤ t
      → UsedBy s o
      → credit_of t l o ≤ credit_of s l o + (t - s) * speed l
  unfolding credit_of
  credit_of_later s t l none h u = omega arith
  credit_of_later s t l (some b) h u =
      let split : (t - b.last) * speed l ≡ (s - b.last) * speed l + (t - s) * speed l =
        ap (λ n. n * speed l) (omega (arith, h, u)) ∙ add-mul (s - b.last) (t - s) (speed l) in
      omega (arith, split)

  -- A bucket that is idle for five minutes is full, so nothing is lost or won where it is dropped.
  pub credit_of-unless_idle :
      (now : ℕ) (l : IpRateLimiter) (o : Option TokenBucket)
      → l.burst ≤ 300 * l.rps
      → credit_of now l (unless_idle now o) ≡ credit_of now l o
  unfolding credit_of unless_idle
  credit_of-unless_idle now l none h = refl
  credit_of-unless_idle now l (some b) h = elim (Bool-cases (ltb five_minutes (now - b.last))) [
    | inl e ↦
        let idle : five_minutes ≤ now - b.last = ground (arith, e) in
        let full : l.burst * fl.one ≤ 300 * l.rps * fl.one = mul-le-mul_right fl.one h in
        rw e (omega (arith, mul-le-mul_right (speed l) idle, full))
    | inr e ↦ rw e refl
  ]

  credit_new : (now : ℕ) (l : IpRateLimiter) → credit_of now l none ≡ l.burst * fl.one * second
  unfolding credit_of
  credit_new now l = refl

  -- a bucket used just now holds its tokens at most
  credit_now :
      (now tokens : ℕ) (l : IpRateLimiter)
      → credit_of now l (some (record { tokens = tokens; last = now })) ≤ tokens * second
  unfolding credit_of
  credit_now now tokens l =
      let still : (now - now) * speed l ≡ 0 =
        ap (λ n. n * speed l) {y = 0} (omega arith) ∙ omega arith in
      omega (arith, still)

  -- a call refills the bucket with its credit at most, up to the rounding
  refill-credit_of :
      (slack now : ℕ) (l : IpRateLimiter) (b : TokenBucket)
      → IsRounded fl slack l.burst l.rps
      → refill fl now l b * second ≤ credit_of now l (some b) + slack * second
  unfolding refill credit_of
  refill-credit_of slack now l b h = omega (arith, h.off b.tokens (now - b.last))

  -- What a call pays and keeps is what the client had, up to the rounding.
  pub take_token_pays :
      (slack now : ℕ) (l : IpRateLimiter) (o : Option TokenBucket)
      → 1 ≤ l.burst
      → IsRounded fl slack l.burst l.rps
      → (if (take_token fl now l o).0 then fl.one else 0) * second
          + credit_of now l (some (take_token fl now l o).1)
        ≤ credit_of now l o + slack * second
  unfolding take_token
  take_token_pays slack now l none h r =
      let room : 1 * fl.one ≤ l.burst * fl.one = mul-le-mul_right fl.one h in
      omega (arith, room, credit_new now l, credit_now now (l.burst * fl.one - fl.one) l)
  take_token_pays slack now l (some b) h r = elim (Bool-cases (ltb (refill fl now l b) fl.one)) [
    | inl e ↦
        rw e (omega (arith, credit_now now (refill fl now l b) l, refill-credit_of slack now l b r))
    | inr e ↦
        let enough : fl.one ≤ refill fl now l b = ground (arith, e) in
        rw e (
          omega (
            arith,
            enough,
            credit_now now (refill fl now l b - fl.one) l,
            refill-credit_of slack now l b r,
          ))
  ]

  pub take_token-UsedBy :
      (now : ℕ) (l : IpRateLimiter) (o : Option TokenBucket)
      → UsedBy now (some (take_token fl now l o).1)
  unfolding take_token
  take_token-UsedBy now l none = omega arith
  take_token-UsedBy now l (some b) = ground arith
