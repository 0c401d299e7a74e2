-- ===== src/Tests/Server.antt =====
-- Runs of the inbox, the cache, the contact ways and the database scopes.
use jianghu_scrm.Prelude.{
  ◌%◌, get_elem?, ℕ, ◌+◌, ◌≡◌, ◌==◌, String, false, some, none, [], ◌∷◌, refl, any, count, find,
  ltb, arith, trim_space, if◌then◌else◌, length, List, Bool, less,
}
use text.Mathlib.Text.{starts_with}
use jianghu_scrm.Tests.Samples.{outside_1}
use jianghu_scrm.Crm.Inbox.{
  EventPayload, Inbox, HasKeysOnce, post_event, post_event-HasKeysOnce, post_event-again,
}
use jianghu_scrm.Server.Cache.{ResponseCache, is_key, set_cached, get_cached, delete_prefix}
use jianghu_scrm.Server.CacheLaws.{Fits, set_cached-Fits, delete_prefix-gone}
use jianghu_scrm.Wecom.State.{replace_all, sanitize_part, build_contact_way_state, parse_binding_id}
use jianghu_scrm.Wecom.RoundTrip.{parse_binding_id-build, parse_binding_id-shadowed}
use jianghu_scrm.Wecom.Rotation.{
  StoreGuide, ContactWayBinding, guide_ids, turns, turns-current, next_guide, list_available,
  is_available, positive_modulo, switch_binding, switch_to, index_of, apply_update,
}
use jianghu_scrm.Utils.{filter}
use jianghu_scrm.Server.CacheReads.{read_all, get_cached-set_cached}

abbrev order_paid : EventPayload
order_paid = record {
  id = "";
  event_id = "";
  source = "shop";
  type = "paid";
  object_id = "o1";
  idempotency_key = "k1";
  payload = "";
}

abbrev inbox_1 : Inbox
inbox_1 = record { events = []; drawn = 0; readings = 0 }

inbox_1-HasKeysOnce : HasKeysOnce inbox_1
unfolding count
inbox_1-HasKeysOnce = record { once = λ key. omega arith }

post_event-HasKeysOnce_example : HasKeysOnce (post_event outside_1 order_paid inbox_1).1
post_event-HasKeysOnce_example =
    post_event-HasKeysOnce outside_1 order_paid inbox_1 inbox_1-HasKeysOnce

post_event-again_example :
    (post_event outside_1 order_paid (post_event outside_1 order_paid inbox_1).1).1.events
    ≡ (post_event outside_1 order_paid inbox_1).1.events
post_event-again_example = post_event-again outside_1 order_paid inbox_1 refl

-- a cache with room for one entry that holds one
abbrev full : ResponseCache
full = record {
  ttl = 30;
  max_entries = 1;
  entries = record { key = "tags:all"; body = "[]"; expires_at = 20 } ∷ [];
  last_sweep = 0;
}

set_cached-Fits_example : Fits (set_cached 10 0 "summary:all" "{}" full)
set_cached-Fits_example = set_cached-Fits 10 0 "summary:all" "{}" full (omega arith) (omega arith)

get_cached-set_cached_example :
    (get_cached 20 "summary:all" (
      read_all
        ((15, "tags:all") ∷ (18, "summary:all") ∷ [])
        (set_cached 10 0 "summary:all" "{}" full))).0
    ≡ (if ltb (10 + full.ttl) 20 then none else some "{}")
get_cached-set_cached_example =
    get_cached-set_cached 10 20 0 "summary:all" "{}" ((15, "tags:all") ∷ (18, "summary:all") ∷ [])
      full (omega arith)

delete_prefix-gone_example :
    (any (λ e. starts_with e.key "tags:") (delete_prefix "tags:" full).entries ≡ false)
    × ((key : String)
        → starts_with key "tags:" ≡ false
        → find (is_key key) (delete_prefix "tags:" full).entries ≡ find (is_key key) full.entries)
delete_prefix-gone_example = delete_prefix-gone "tags:" full

s1_apart : (sanitize_part "S:1" == "bind") ≡ false
unfolding sanitize_part replace_all trim_space
s1_apart = refl

m1_apart : (sanitize_part "m1" == "bind") ≡ false
unfolding sanitize_part replace_all trim_space
m1_apart = refl

g1_apart : (sanitize_part "g1" == "bind") ≡ false
unfolding sanitize_part replace_all trim_space
g1_apart = refl

parse_binding_id-build_example :
    parse_binding_id (build_contact_way_state "S:1" "m1" "g1" "b1")
    ≡ trim_space (sanitize_part "b1")
parse_binding_id-build_example =
    parse_binding_id-build "S:1" "m1" "g1" "b1" s1_apart m1_apart g1_apart

bind_shop : sanitize_part "bind" ≡ "bind"
unfolding sanitize_part replace_all trim_space
bind_shop = refl

parse_binding_id-shadowed_example :
    parse_binding_id (build_contact_way_state "bind" "m1" "g1" "b1") ≡ "manager"
parse_binding_id-shadowed_example = parse_binding_id-shadowed "bind" "m1" "g1" "b1" bind_shop

abbrev guide_of : String → StoreGuide
guide_of user = record {
  id = user;
  store_id = "s1";
  guide_user_id = user;
  guide_name = user;
  sort_order = 0;
  status = "active";
  daily_limit = 0;
  assigned_today = 0;
  last_assigned_at = "";
}

abbrev two_guides : List StoreGuide
two_guides = guide_of "li" ∷ guide_of "zhao" ∷ []

abbrev binding_1 : ContactWayBinding
binding_1 = record {
  id = "b1";
  store_id = "s1";
  store_code = "S1";
  store_name = "";
  qr_code_url = "";
  state_prefix = "";
  customer_count = 0;
  manager_user_id = "m1";
  config_id = "c1";
  current_guide_user_id = "";
  next_index = 3;
  remark = "";
  status = "active";
  last_switched_at = "";
  last_error = "";
}

abbrev by_id : String → String → Bool
by_id a b = less a b

abbrev ids_1 : List String
ids_1 = "li" ∷ "zhao" ∷ []

always_there : guide_ids (list_available by_id "s1" two_guides) ≡ ids_1
unfolding list_available filter is_available
always_there = refl

turns-current_example :
    get_elem? ids_1 ((3 + 2) % length ids_1)
    ≡ some
        (turns "now" "swrt1" by_id
          (two_guides ∷ two_guides ∷ two_guides ∷ [])
          binding_1).current_guide_user_id
turns-current_example =
    turns-current "now" "swrt1" ids_1 (omega arith) by_id two_guides (two_guides ∷ two_guides ∷ [])
      binding_1 (always_there, (always_there, (always_there, tt))) refl (omega arith)

-- Where a callback uses up a guide's day, the next index passes over the guide that has the turn.
abbrev limited : String → ℕ → StoreGuide
limited user assigned = record (guide_of user) { daily_limit = 1; assigned_today = assigned }

passed_over :
    (next_guide "now" "swrt1" by_id
      (limited "a" 1 ∷ limited "b" 0 ∷ limited "c" 0 ∷ [])
      (record binding_1 { next_index = 1; current_guide_user_id = "a" })).current_guide_user_id
    ≡ "c"
unfolding next_guide list_available filter is_available positive_modulo switch_binding switch_to
    index_of apply_update
passed_over = refl
