-- ===== src/Tests/Handover.antt =====
-- Runs of a handover in memory.
use jianghu_scrm.Crm.Handover.{Desk, submit_handover}
use jianghu_scrm.Prelude.{map, List, String, Bool, ◌∷◌, ◌==◌, [], some, true, ◌≡◌, refl}
use jianghu_scrm.Tests.Samples.{pool_1, outside_1}
use jianghu_scrm.Crm.Pool.{tick, prepend_audit, audit}
use jianghu_scrm.Crm.HandoverLaws.{follow_of, given_to, submit_handover-follow, before_refusal}
use jianghu_scrm.Models.Crm.{HandoverItem}

abbrev item_for : String → String → HandoverItem
item_for receiver action = record {
  id = "h1";
  customer_id = "c1";
  customer = "";
  reason = "";
  current_owner = "";
  required_action = action;
  receiver = receiver;
  status = "待处理";
}

abbrev desk_1 : Desk
desk_1 = record { pool = pool_1; handover = []; wecom_synced = true }

abbrev forced : String → String → Bool
forced s t = s == t

-- The third item is refused, and what the first two did stays.
abbrev three_items : List HandoverItem
three_items = item_for "Zhao" "" ∷ item_for "Sun" "" ∷ item_for "" "强制" ∷ item_for "Qian" "" ∷ []

owner_kept :
    map (λ c. c.owner) (submit_handover outside_1 forced (some three_items) desk_1).1.pool.customers
    ≡ "Sun" ∷ []
unfolding submit_handover tick prepend_audit audit
owner_kept = refl

submit_handover-follow_example :
    map follow_of (submit_handover outside_1 forced (some three_items) desk_1).1.pool.customers
    ≡ map (λ c. given_to (before_refusal forced three_items) (follow_of c)) desk_1.pool.customers
submit_handover-follow_example = submit_handover-follow outside_1 forced three_items desk_1 refl
