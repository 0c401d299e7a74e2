-- ===== src/Server/LimiterLaws.antt =====
-- How many calls the rate limiter lets through in a time.
-- what a client may still spend at a time
mod Credit
unfoldable pub use Credit.*
use native.Mathlib.Nat.{add-mul, mul-le-mul_right}
use jianghu_scrm.Server.Limiter.{
  refill, take_token, unless_idle, IpRateLimiter, TokenBucket, second, five_minutes, allow,
  put_bucket, sweep_clients, allowed, Float64,
}
use jianghu_scrm.Prelude.{
  ◌∷◌, ℕ, Option, ◌*◌, some, ◌≤◌, ◌≡◌, ◌+◌, Bool-cases, if◌then◌else◌, arith, none, ◌-◌, ltb, inl,
  ap, inr, ◌∙◌, eqb, String, refl, ◌==◌, ◌⊎◌, ◌||◌, false, ◌&&◌, eq_iff, List, subst, sym, eq_refl,
  [], eq_flip,
}
use jianghu_scrm.Server.Cache.{minute}

sweep_clients-same :
    (now : ℕ) (l : IpRateLimiter)
    → ((sweep_clients now l).rps ≡ l.rps) × ((sweep_clients now l).burst ≡ l.burst)
unfolding sweep_clients
sweep_clients-same now l = elim (Bool-cases (ltb (now - l.last_sweep) minute)) [
  | inl e ↦ rw e (refl, refl)
  | inr e ↦ rw e (refl, refl)
]

put_bucket-same :
    (who : String) (b : TokenBucket) (l : IpRateLimiter)
    → ((put_bucket who b l).rps ≡ l.rps) × ((put_bucket who b l).burst ≡ l.burst)
unfolding put_bucket
put_bucket-same who b l = (refl, refl)

not_off : (l : IpRateLimiter) → IsLimiting l → (eqb l.rps 0 || eqb l.burst 0) ≡ false
not_off l h = ground (arith, h.rate, h.room)

-- The times of a run of calls do not fall, from a first time on.
abbrev pub AreInOrder : ℕ → List (ℕ × String) → Type 0
AreInOrder t [] = Unit
AreInOrder t ((now, who) ∷ calls) = (t ≤ now) × AreInOrder now calls

-- the time of the last call
unfoldable pub last_time : ℕ → List (ℕ × String) → ℕ
last_time t [] = t
last_time t ((now, who) ∷ calls) = last_time now calls

last_time-le : (t : ℕ) (calls : List (ℕ × String)) → AreInOrder t calls → t ≤ last_time t calls
unfolding last_time
last_time-le t [] o = omega arith
last_time-le t ((now, who) ∷ calls) o = omega (arith, o.0, last_time-le now calls o.1)

-- the calls of one client in a run
unfoldable pub tries : String → List (ℕ × String) → ℕ
tries ip [] = 0
tries ip ((now, who) ∷ calls) = (if who == ip then 1 else 0) + tries ip calls

limits : (l m : IpRateLimiter) → m.rps ≡ l.rps → m.burst ≡ l.burst → IsLimiting l → IsLimiting m
limits l m r b h = record {
  rate = omega (arith, r, h.rate);
  room = omega (arith, b, h.room);
  refills = omega (arith, r, b, h.refills);
}

module _ (fl : Float64) (slack : ℕ) where
  -- the bucket of one client after a call, up to a sweep
  bucket_after : ℕ → String → String → IpRateLimiter → Option TokenBucket
  bucket_after now who ip l =
      if ip == who then some (take_token fl now l (l.clients who)).1 else l.clients ip

  -- what stays between calls
  record Called (now : ℕ) (who ip : String) (l m : IpRateLimiter) : Type 0 where
    same_rps : m.rps ≡ l.rps
    same_burst : m.burst ≡ l.burst
    bucket :
        (m.clients ip ≡ bucket_after now who ip l)
        ⊎ (m.clients ip ≡ unless_idle now (bucket_after now who ip l))

  allow-Called :
      (now : ℕ) (who ip : String) (l : IpRateLimiter)
      → IsLimiting l
      → Called now who ip l (allow fl now who l).1
  unfolding allow bucket_after put_bucket
  allow-Called now who ip l h =
      let given = put_bucket who (take_token fl now l (l.clients who)).1 l in
      let same = sweep_clients-same now given in
      rw (not_off l h) (record {
        same_rps = same.0 ∙ (put_bucket-same who (take_token fl now l (l.clients who)).1 l).0;
        same_burst = same.1 ∙ (put_bucket-same who (take_token fl now l (l.clients who)).1 l).1;
        bucket = sweep_clients_cases now given ip;
      })

  -- The units that a call takes from the client at `ip`, and what rounding may add to it.
  paid : ℕ → String → String → IpRateLimiter → ℕ
  paid now who ip l = if who == ip && (allow fl now who l).0 then fl.one else 0

  error : String → String → ℕ
  error who ip = if who == ip then slack else 0

  paid_lem :
      (now : ℕ) (who ip : String) (l : IpRateLimiter)
      → (if who == ip && (allow fl now who l).0 then 1 else 0) * fl.one ≡ paid now who ip l
  unfolding paid
  paid_lem now who ip l = elim (Bool-cases (who == ip && (allow fl now who l).0)) [
    | inl e ↦ rw e (omega arith)
    | inr e ↦ rw e (omega arith)
  ]

  error_lem : (who ip : String) → (if who == ip then 1 else 0) * slack ≡ error who ip
  unfolding error
  error_lem who ip = elim (Bool-cases (who == ip)) [
    | inl e ↦ rw e (omega arith)
    | inr e ↦ rw e (omega arith)
  ]

  allow_taken :
      (now : ℕ) (who : String) (l : IpRateLimiter)
      → IsLimiting l
      → (allow fl now who l).0 ≡ (take_token fl now l (l.clients who)).0
  unfolding allow
  allow_taken now who l h = rw (not_off l h)

  after_pays :
      (now : ℕ) (who ip : String) (l : IpRateLimiter)
      → IsLimiting l
      → IsRounded fl slack l.burst l.rps
      → paid now who ip l * second + credit_of fl now l (bucket_after now who ip l)
        ≤ credit_of fl now l (l.clients ip) + error who ip * second
  unfolding paid bucket_after error
  after_pays now who ip l h r = elim (Bool-cases (who == ip)) [
    | inl e ↦
        let same : who ≡ ip = (eq_iff who ip).0 e in
        rw (allow_taken now who l h, same, eq_refl ip)
          (take_token_pays fl slack now l (l.clients ip) h.room r)
    | inr e ↦ rw (e, eq_flip who ip e) (omega arith)
  ]

  after-UsedBy :
      (now : ℕ) (who ip : String) (l : IpRateLimiter)
      → UsedBy now (l.clients ip)
      → UsedBy now (bucket_after now who ip l)
  unfolding bucket_after
  after-UsedBy now who ip l u = elim (Bool-cases (ip == who)) [
    | inl e ↦ rw e (take_token-UsedBy fl now l (l.clients who))
    | inr e ↦ rw e u
  ]

  -- A call leaves the client with what it had, less what it took.
  record Leaves (now : ℕ) (who ip : String) (l m : IpRateLimiter) : Type 0 where
    rates : (m.rps ≡ l.rps) × (m.burst ≡ l.burst)
    used : UsedBy now (m.clients ip)
    pays :
        paid now who ip l * second + credit_of fl now m (m.clients ip)
        ≤ credit_of fl now l (l.clients ip) + error who ip * second

  same_credit :
      (now : ℕ) (l m : IpRateLimiter) (o : Option TokenBucket)
      → m.rps ≡ l.rps
      → m.burst ≡ l.burst
      → credit_of fl now m o ≡ credit_of fl now l o
  unfolding credit_of
  same_credit now l m none r b = rw b
  same_credit now l m (some k) r b = rw (r, b)

  Called-Leaves :
      (now : ℕ) (who ip : String) (l m : IpRateLimiter)
      → IsLimiting l
      → IsRounded fl slack l.burst l.rps
      → UsedBy now (l.clients ip)
      → Called now who ip l m
      → Leaves now who ip l m
  Called-Leaves now who ip l m h f u c = elim c.bucket [
    | inl e ↦ record {
      rates = (c.same_rps, c.same_burst);
      used = subst (UsedBy now) (sym e) (after-UsedBy now who ip l u);
      pays = omega (
        arith,
        same_credit now l m (m.clients ip) c.same_rps c.same_burst,
        ap (credit_of fl now l) e,
        after_pays now who ip l h f,
      );
    }
    | inr e ↦ record {
      rates = (c.same_rps, c.same_burst);
      used = subst (UsedBy now) (sym e) (UsedBy-unless_idle now _ (after-UsedBy now who ip l u));
      pays = omega (
        arith,
        same_credit now l m (m.clients ip) c.same_rps c.same_burst,
        ap (credit_of fl now l) e,
        credit_of-unless_idle fl now l (bucket_after now who ip l) h.refills,
        after_pays now who ip l h f,
      );
    }
  ]

  -- the rounding of a limiter with the same rates
  same_rounding :
      (l m : IpRateLimiter)
      → m.rps ≡ l.rps
      → m.burst ≡ l.burst
      → IsRounded fl slack l.burst l.rps
      → IsRounded fl slack m.burst m.rps
  same_rounding l m r b f =
      subst (λ x. IsRounded fl slack x m.rps) (sym b)
        (subst (λ y. IsRounded fl slack l.burst y) (sym r) f)

  -- What a client takes in a run is at most its credit, what it earns in the time, and what rounding
  -- adds to each of its calls.
  allowed_pays :
      (ip : String) (t : ℕ) (calls : List (ℕ × String)) (l : IpRateLimiter)
      → IsLimiting l
      → IsRounded fl slack l.burst l.rps
      → AreInOrder t calls
      → UsedBy t (l.clients ip)
      → allowed fl ip calls l * fl.one * second
        ≤ credit_of fl t l (l.clients ip)
          + (last_time t calls - t) * speed fl l
          + tries ip calls * slack * second
  unfolding allowed last_time tries
  allowed_pays ip t [] l h f o u = omega arith
  allowed_pays ip t ((now, who) ∷ calls) l h f o u =
      let m = (allow fl now who l).1 in
      let earlier = UsedBy-later t now (l.clients ip) o.0 u in
      let left = Called-Leaves now who ip l m h f earlier (allow-Called now who ip l h) in
      let rest =
        allowed_pays ip now calls m (limits l m left.rates.0 left.rates.1 h)
          (same_rounding l m left.rates.0 left.rates.1 f) o.1 left.used in
      let span : (last_time now calls - t) * speed fl l
          ≡ (now - t) * speed fl l + (last_time now calls - now) * speed fl m =
        ap (λ n. n * speed fl l) (omega (arith, o.0, last_time-le now calls o.1))
        ∙ add-mul (now - t) (last_time now calls - now) (speed fl l)
        ∙ ap (λ r. (now - t) * speed fl l + (last_time now calls - now) * (r * fl.one))
            (sym left.rates.0) in
      omega (
        arith,
        rest,
        span,
        left.pays,
        credit_of_later fl t now l (l.clients ip) o.0 u,
        paid_lem now who ip l,
        add-mul (if who == ip && (allow fl now who l).0 then 1 else 0) (allowed fl ip calls m)
            fl.one,
        error_lem who ip,
        add-mul (if who == ip then 1 else 0) (tries ip calls) slack,
      )

  -- Where five minutes refill a bucket and rounding gives a bucket at most `slack` units at a refill, a
  -- client that is new at the first time is allowed, in any run of calls of any clients in the order of
  -- time, at most the burst, what its rate earns from the first time to the last call, and the slack of
  -- each of its calls.
  pub allowed_bounds :
      (ip : String) (t : ℕ) (calls : List (ℕ × String)) (l : IpRateLimiter)
      → IsLimiting l
      → IsRounded fl slack l.burst l.rps
      → AreInOrder t calls
      → l.clients ip ≡ none
      → allowed fl ip calls l * fl.one * second
        ≤ l.burst * fl.one * second
          + (last_time t calls - t) * (l.rps * fl.one)
          + tries ip calls * slack * second
  allowed_bounds ip t calls l h f o e = omega (
    arith,
    allowed_pays ip t calls l h f o (subst (UsedBy t) (sym e) tt),
    credit_of-le fl t l (l.clients ip),
  )
