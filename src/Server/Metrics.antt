-- ===== src/Server/Metrics.antt =====
-- `apiMetrics` of backend/middleware_cache_metrics.go: the counts of each endpoint. Durations are
-- microseconds, of which the source makes milliseconds as float64. The Go map is a function.
-- `strconv.Itoa` and `url.PathUnescape` are arguments.
use jianghu_scrm.Prelude.{
  String, List, ℕ, if◌then◌else◌, Option, ◌∷◌, ◌<>◌, ◌+◌, [], ◌==◌, leb, some, none, ◌/◌, ◌||◌,
}
use jianghu_scrm.Utils.Paths.{path_parts}

pub record EndpointMetric : Type 0 where
  pub requests : ℕ
  pub errors : ℕ
  pub duration_sum : ℕ
  pub buckets : List ℕ

pub record ApiMetrics : Type 0 where
  pub started_at : ℕ
  pub buckets_us : List ℕ
  pub endpoints : String → Option EndpointMetric

unfoldable pub new_api_metrics : ℕ → ApiMetrics
new_api_metrics now = record {
  started_at = now;
  buckets_us = 10000 ∷ 25000 ∷ 50000 ∷ 100000 ∷ 250000 ∷ 500000 ∷ 1000000 ∷ 2500000 ∷ 5000000 ∷ [];
  endpoints = λ _. none;
}

-- `/api/<name>` with its parts behind a name in the path: the second is an identifier.
label_with_id : String → String → List String → String
label_with_id name id [] = "/api/" <> name
label_with_id name id (_ ∷ []) = "/api/" <> name <> "/" <> id
label_with_id name id (_ ∷ part ∷ _) = "/api/" <> name <> "/" <> id <> "/" <> part

-- `/api/<name>/<second part>`
label_with_part : String → List String → String
label_with_part name [] = "/api/" <> name
label_with_part name (part ∷ _) = "/api/" <> name <> "/" <> part

label_customers : List String → String
unfolding label_with_id
label_customers [] = "/api/customers"
label_customers (part ∷ rest) =
    if part == "batch-tags" || part == "batch-tags-async"
    then "/api/customers/" <> part
    else label_with_id "customers" "{id}" (part ∷ rest)

route_label : String → List String → String
unfolding label_customers label_with_id label_with_part
route_label path [] = path
route_label path (name ∷ rest) =
    if name == "customers"
    then label_customers rest
    else if name == "tags"
    then label_with_id "tags" "{name}" rest
    else if name == "tag-groups"
    then "/api/tag-groups"
    else if name == "tasks" || name == "stores" || name == "guides"
    then label_with_id name "{id}" rest
    else if name == "events" || name == "groups"
    then label_with_part name rest
    else "/api/" <> name

unfoldable pub route_metric_label : (String → String) → String → String
unfolding route_label path_parts
route_metric_label unescape path = route_label path (path_parts unescape "/api/" path)

-- The loop over the bounds; there are as many buckets.
unfoldable pub add_to_buckets : ℕ → List ℕ → List ℕ → List ℕ
add_to_buckets duration [] buckets = buckets
add_to_buckets duration (_ ∷ _) [] = []
add_to_buckets duration (bound ∷ bounds) (n ∷ buckets) =
    (if leb duration bound then n + 1 else n) ∷ add_to_buckets duration bounds buckets

-- make([]uint64, len(m.bucketsMS))
unfoldable pub no_counts : List ℕ → List ℕ
no_counts [] = []
no_counts (_ ∷ bounds) = 0 ∷ no_counts bounds

unfoldable pub metric_or_new : List ℕ → Option EndpointMetric → EndpointMetric
unfolding no_counts
metric_or_new bounds none = record {
  requests = 0;
  errors = 0;
  duration_sum = 0;
  buckets = no_counts bounds;
}
metric_or_new bounds (some metric) = metric

unfoldable pub count_request : ℕ → ℕ → List ℕ → EndpointMetric → EndpointMetric
unfolding add_to_buckets
count_request status duration bounds metric = record {
  requests = metric.requests + 1;
  errors = if leb 400 status then metric.errors + 1 else metric.errors;
  duration_sum = metric.duration_sum + duration;
  buckets = add_to_buckets duration bounds metric.buckets;
}

module _ (itoa : ℕ → String) (unescape : String → String) where
  -- The separator is the character zero.
  unfoldable pub metric_key : String → String → ℕ → String
  unfolding route_metric_label
  metric_key method path status =
      method <> "\0" <> route_metric_label unescape path <> "\0" <> itoa (status / 100) <> "xx"

  unfoldable pub record_metric : String → String → ℕ → ℕ → ApiMetrics → ApiMetrics
  unfolding metric_or_new count_request
  record_metric method path status duration m = record m {
    endpoints = λ k.
        if k == metric_key method path status
        then some (
            count_request status duration m.buckets_us (metric_or_new m.buckets_us (m.endpoints k)))
        else m.endpoints k;
  }
