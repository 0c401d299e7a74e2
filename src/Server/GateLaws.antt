-- ===== src/Server/GateLaws.antt =====
-- Which requests reach the handlers behind the middleware, and how many of one client.
use jianghu_scrm.Server.Gate.{
  Surroundings, HttpRequest, Arrival, serve_arrivals, authorized_request, Gate, Answer,
  runtime_middleware, ip_of,
}
use jianghu_scrm.Prelude.{
  ℕ, List, String, Bool, ◌∷◌, ◌==◌, not, if◌then◌else◌, ◌&&◌, ◌≡◌, [], trim_space, ◌||◌,
}
use jianghu_scrm.Server.Limiter.{IpRateLimiter}
use jianghu_scrm.Utils.Paths.{trim_prefix}

module _ (around : Surroundings) (status_of : HttpRequest → ℕ) where
  -- a handler that remembers what it was asked
  abbrev pub remember : HttpRequest → List HttpRequest → ℕ × List HttpRequest
  remember r log = (status_of r, r ∷ log)

  abbrev pub is_authorized : HttpRequest → Bool
  is_authorized r = authorized_request around.api_token r

  abbrev pub is_options : HttpRequest → Bool
  is_options r = r.method == "OPTIONS"

  -- the requests that ask the limiter, with their times and clients
  unfoldable pub calls : List Arrival → List (ℕ × String)
  calls [] = []
  calls (a ∷ rest) =
      if is_authorized a.request && not (is_options a.request)
      then (a.now, ip_of around a.request) ∷ calls rest
      else calls rest

  unfoldable pub is_from : String → HttpRequest → Bool
  is_from ip r = not (is_options r) && ip_of around r == ip

  -- The token is in the header of its own, or in the other one where that is blank.
  abbrev pub carries_token : HttpRequest → Bool
  carries_token r =
      trim_space r.api_token == around.api_token
      || trim_space r.api_token == ""
        && trim_space (trim_prefix "Bearer " r.authorization) == around.api_token

  -- A request that must not pass, where a token is configured: it does not carry it, is not of the
  -- method OPTIONS and does not ask for the health of the server.
  unfoldable pub is_intruder : HttpRequest → Bool
  is_intruder r =
      not (around.api_token == "")
      && not (is_options r)
      && not (r.path == "/api/health")
      && not (carries_token r)

  -- the requests that the handler was asked, the last first
  unfoldable pub visits : List Arrival → Gate → List HttpRequest → List HttpRequest
  visits arrivals g log = (serve_arrivals around remember arrivals g log).1

  abbrev after : Arrival → Gate → List HttpRequest → Answer × Gate × List HttpRequest
  after a g log = runtime_middleware around remember a g log

  -- what one request does to the log and the limiter
  record Leads (out : Answer × Gate × List HttpRequest) (log : List HttpRequest) (l : IpRateLimiter)
      : Type 0 where
    logs : out.2 ≡ log
    limits : out.1.limiter ≡ l
