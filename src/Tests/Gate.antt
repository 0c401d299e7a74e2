-- ===== src/Tests/Gate.antt =====
-- Runs of the rate limiter and of the middleware.
use jianghu_scrm.Server.GateLaws.{visits}
use jianghu_scrm.Server.Limiter.{
  new_ip_rate_limiter, allowed, IpRateLimiter, allow, take_token, second, refill, put_bucket,
  sweep_clients, unless_idle, Float64,
}
use jianghu_scrm.Server.Gate.{
  Gate, Surroundings, serve_arrivals, HttpRequest, Arrival, token_of, runtime_middleware,
  answer_with, draw_request_id,
}
use jianghu_scrm.Prelude.{
  List, String, some, ◌*◌, none, ℕ, arith, ◌≡◌, ◌∷◌, [], ◌≤◌, trim_space, ◌+◌, refl, ◌-◌, length,
}
use jianghu_scrm.Server.LimiterLaws.{
  AreInOrder, IsLimiting, last_time, allowed_bounds, tries, IsRounded,
}
use jianghu_scrm.Utils.Page.{pos}
use jianghu_scrm.Server.Metrics.{new_api_metrics}
use jianghu_scrm.Utils.Paths.{client_ip}

abbrev limiter_1 : IpRateLimiter
limiter_1 = record { rps = 1; burst = 2; clients = λ _. none; last_sweep = 0 }

-- Tokens of a second's nanoseconds, and a sum that is rounded up by one unit.
abbrev float_1 : Float64
float_1 = record { one = second; earned = λ elapsed rps. elapsed * rps; plus = λ a b. a + b + 1 }

float_1-IsRounded : IsRounded float_1 1 2 1
float_1-IsRounded = record { off = λ tokens elapsed. omega arith }

made_1 : new_ip_rate_limiter 0 (pos 1) (pos 2) ≡ limiter_1
unfolding new_ip_rate_limiter
made_1 = refl

limiter_1-IsLimiting : IsLimiting limiter_1
limiter_1-IsLimiting = record { rate = omega arith; room = omega arith; refills = omega arith }

abbrev calls_1 : List (ℕ × String)
calls_1 = (0, "a") ∷ (5, "b") ∷ (1000000000, "a") ∷ (1000000000, "a") ∷ (1000000000, "a") ∷ []

three_of_four : allowed float_1 "a" calls_1 limiter_1 ≡ 3
unfolding allowed allow take_token refill put_bucket sweep_clients unless_idle
three_of_four = refl

calls_1-AreInOrder : AreInOrder 0 calls_1
calls_1-AreInOrder = omega arith

allowed_bounds_example :
    allowed float_1 "a" calls_1 limiter_1 * second * second
    ≤ limiter_1.burst * second * second
      + (last_time 0 calls_1 - 0) * (limiter_1.rps * second)
      + tries "a" calls_1 * 1 * second
allowed_bounds_example =
    allowed_bounds float_1 1 "a" 0 calls_1 limiter_1 limiter_1-IsLimiting float_1-IsRounded
      calls_1-AreInOrder refl

abbrev around_1 : Surroundings
around_1 = record {
  api_token = "secret";
  suffix = λ n. "1";
  itoa = λ n. "2";
  unescape = λ s. s;
  split_host_port = λ s. none;
  float = float_1;
}

abbrev asks : String → HttpRequest
asks token = record {
  method = "GET";
  path = "/api/tasks";
  request_id = "";
  api_token = token;
  authorization = "";
  forwarded_for = "a, proxy";
  real_ip = "";
  remote_addr = "";
}

abbrev arrivals_1 : List Arrival
arrivals_1 =
    record { request = asks "secret"; now = 0; duration = 3 }
    ∷ record { request = asks "wrong"; now = 1; duration = 3 }
    ∷ record { request = asks "secret"; now = 2; duration = 3 }
    ∷ record { request = asks "secret"; now = 3; duration = 3 }
    ∷ []

abbrev gate_1 : Gate
gate_1 = record { limiter = limiter_1; metrics = some (new_api_metrics 0); drawn = 0 }

two_served :
    length (visits around_1 (λ r. 200) arrivals_1 (record gate_1 { metrics = none }) []) ≡ 2
unfolding visits serve_arrivals runtime_middleware answer_with draw_request_id token_of trim_space
    allow sweep_clients put_bucket client_ip refill take_token
two_served = refl
