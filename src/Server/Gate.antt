-- ===== src/Server/Gate.antt =====
-- `runtimeMiddleware` and `authorizedRequest` of backend/middleware_cache_metrics.go: what stands in
-- front of every handler. `subtle.ConstantTimeCompare` is equality of texts. The log lines are left
-- out. The handler is any function on a state of its own; a status of 0 is one that it never wrote.
use jianghu_scrm.Utils.Paths.{trim_prefix, client_ip}
use jianghu_scrm.Server.Limiter.{IpRateLimiter, allow, Float64}
use jianghu_scrm.Prelude.{
  ℕ, if◌then◌else◌, Bool, String, ◌==◌, Option, trim_space, eqb, List, ◌∷◌, ◌+◌, ◌<>◌, true, ◌||◌,
  some, [], false, none,
}
use jianghu_scrm.Server.Metrics.{ApiMetrics, record_metric}

pub record HttpRequest : Type 0 where
  pub method : String
  pub path : String
  pub request_id : String
  pub api_token : String
  pub authorization : String
  pub forwarded_for : String
  pub real_ip : String
  pub remote_addr : String

-- A request with the reading of the clock that the limiter takes, and how long it takes.
pub record Arrival : Type 0 where
  pub request : HttpRequest
  pub now : ℕ
  pub duration : ℕ

pub record Gate : Type 0 where
  pub limiter : IpRateLimiter
  pub metrics : Option ApiMetrics
  pub drawn : ℕ

-- The answer: the status and the X-Request-ID header.
pub record Answer : Type 0 where
  pub status : ℕ
  pub request_id : String

unfoldable pub token_of : HttpRequest → String
unfolding trim_prefix trim_space
token_of r =
    if trim_space r.api_token == ""
    then trim_space (trim_prefix "Bearer " r.authorization)
    else trim_space r.api_token

unfoldable pub authorized_request : String → HttpRequest → Bool
authorized_request api_token r =
    if api_token == "" || r.method == "OPTIONS" || r.path == "/api/health"
    then true
    else if token_of r == ""
    then false
    else token_of r == api_token

unfoldable pub request_id_of : (ℕ → String) → HttpRequest → Gate → String
request_id_of suffix r g = if r.request_id == "" then "req" <> suffix g.drawn else r.request_id

unfoldable pub draw_request_id : HttpRequest → Gate → Gate
draw_request_id r g = if r.request_id == "" then record g { drawn = g.drawn + 1 } else g

-- What the middleware reads of its surroundings.
pub record Surroundings : Type 0 where
  pub api_token : String
  pub suffix : ℕ → String
  pub itoa : ℕ → String
  pub unescape : String → String
  pub split_host_port : String → Option String
  pub float : Float64

module _ (around : Surroundings) where
  unfoldable pub ip_of : HttpRequest → String
  ip_of r = client_ip around.split_host_port r.forwarded_for r.real_ip r.remote_addr

  unfoldable pub record_answer : Arrival → ℕ → Option ApiMetrics → Option ApiMetrics
  record_answer a status none = none
  record_answer a status (some m) = some (
      record_metric around.itoa around.unescape a.request.method a.request.path status a.duration m)

  -- the limiter's answer, which a request of the method OPTIONS does not ask for
  unfoldable pub admit : Arrival → Gate → Bool × IpRateLimiter
  unfolding ip_of
  admit a g =
      if a.request.method == "OPTIONS"
      then (true, g.limiter)
      else allow around.float a.now (ip_of a.request) g.limiter

  module _ {S : Type 0} (next : HttpRequest → S → ℕ × S) where
    unfoldable pub answer_with : Arrival → ℕ → Gate → S → Answer × Gate × S
    unfolding record_answer request_id_of draw_request_id
    answer_with a status g s = (
      record { status = status; request_id = request_id_of around.suffix a.request g },
      record (draw_request_id a.request g) { metrics = record_answer a status g.metrics },
      s,
    )

    unfoldable pub ok_if_unset : ℕ → ℕ
    ok_if_unset status = if eqb status 0 then 200 else status

    unfoldable pub serve_admitted : Arrival → Bool → Gate → S → Answer × Gate × S
    unfolding answer_with ok_if_unset
    serve_admitted a false g s = answer_with a 429 g s
    serve_admitted a true g s =
        let (status, s') = next a.request s in answer_with a (ok_if_unset status) g s'

    unfoldable pub runtime_middleware : Arrival → Gate → S → Answer × Gate × S
    unfolding serve_admitted admit authorized_request
    runtime_middleware a g s =
        if authorized_request around.api_token a.request
        then (let (admitted, limiter) = admit a g in
            serve_admitted a admitted (record g { limiter = limiter }) s)
        else answer_with a 401 g s

    -- The requests that arrive one after the other.
    unfoldable pub serve_arrivals : List Arrival → Gate → S → Gate × S
    unfolding runtime_middleware
    serve_arrivals [] g s = (g, s)
    serve_arrivals (a ∷ rest) g s =
        let (_, g', s') = runtime_middleware a g s in serve_arrivals rest g' s'
