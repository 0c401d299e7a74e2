-- ===== src/Ops/History.antt =====
-- The lifecycle logs of a customer against its stage. The logs of a customer, newest first, lead
-- back from the stage that it has: each log's `StageAfter` is the `StageBefore` of the next newer
-- one, and the newest ends in the stage of today.
pub mod Frame
pub mod Change
pub mod Handled
pub mod Served
pub mod Requests
use jianghu_scrm.Prelude.{String, Bool, true, some, List, [], ◌∷◌, ◌≡◌, ◌==◌, ◌&&◌, if◌then◌else◌}
use jianghu_scrm.Models.OpsCustomers.{OpsCustomer, OpsLifecycleLog}
use jianghu_scrm.Ops.State.{OpsState}
use jianghu_scrm.Ops.Find.{find_ops_customer}

unfoldable pub leads_to : String → String → List OpsLifecycleLog → Bool
leads_to id stage [] = true
leads_to id stage (log ∷ logs) =
    leads_to id (if log.customer_id == id then log.stage_before else stage) logs
    && (if log.customer_id == id then log.stage_after == stage else true)

pub record IsLogged (s : OpsState) : Type 0 where
  pub at :
      (id : String) (c : OpsCustomer)
      → find_ops_customer id s ≡ some c
      → leads_to id c.lifecycle_stage s.ops_lifecycle_logs ≡ true

-- The value `c` is what the pointer to the customer shows.
abbrev pub IsCurrent : OpsCustomer → OpsState → Type 0
IsCurrent c s = find_ops_customer c.id s ≡ some c
