-- ===== src/Ops/Access.antt =====
-- Which rows of the operations centre a request may see: `opsRole`, `opsHeader`,
-- `canAccessOpsCustomer`, `canAccessOpsTask` and `canAccessOpsException` of customer_ops.go.
use jianghu_scrm.Prelude.{
  String, Bool, true, false, Option, none, some, [], ◌∷◌, ◌==◌, trim_space, if◌then◌else◌,
}
use jianghu_scrm.Utils.{first_non_empty, empty_or_equal}
use jianghu_scrm.Models.OpsCustomers.{OpsCustomer}
use jianghu_scrm.Models.OpsWork.{OpsTask, OpsException}
use jianghu_scrm.Ops.State.{OpsState}
use jianghu_scrm.Ops.Find.{find_ops_customer}

pub data Method : Type 0 where
  get post patch delete other : Method

-- What the handlers read of an HTTP request. A header that is not there is "".
pub record Request : Type 0 where
  pub method : Method
  pub role_header : String
  pub region_header : String
  pub store_header : String
  pub guide_header : String
  pub body : String

abbrev pub ops_role_region : String
ops_role_region = "region_manager"

abbrev pub ops_role_store : String
ops_role_store = "store_manager"

abbrev pub ops_role_guide : String
ops_role_guide = "guide"

unfoldable pub ops_role : Request → String
unfolding first_non_empty
ops_role r = first_non_empty (trim_space r.role_header ∷ "hq_admin" ∷ [])

-- The shared `switch`: a region, store or guide scope, or no scope at all.
unfoldable pub in_scope : String → Bool → Bool → Bool → Bool
in_scope role region store guide =
    if role == ops_role_region
    then region
    else if role == ops_role_store
    then store
    else if role == ops_role_guide
    then guide
    else true

unfoldable pub can_access_ops_customer : Request → OpsCustomer → Bool
unfolding in_scope empty_or_equal
can_access_ops_customer r c =
    in_scope (ops_role r) (empty_or_equal (trim_space r.region_header) c.region_id)
      (empty_or_equal (trim_space r.store_header) c.store_id)
      (empty_or_equal (trim_space r.guide_header) c.owner_guide_id)

unfoldable pub can_access_ops_task : Request → OpsTask → Bool
unfolding in_scope empty_or_equal
can_access_ops_task r t =
    in_scope (ops_role r) (empty_or_equal (trim_space r.region_header) t.region_id)
      (empty_or_equal (trim_space r.store_header) t.store_id)
      (empty_or_equal (trim_space r.guide_header) t.assigned_to_user_id)

unfoldable pub owned_by_guide : String → Option OpsCustomer → Bool
owned_by_guide guide none = false
owned_by_guide guide (some c) = empty_or_equal guide c.owner_guide_id

unfoldable pub can_access_ops_exception : Request → OpsException → OpsState → Bool
unfolding in_scope empty_or_equal owned_by_guide
can_access_ops_exception r e s =
    in_scope (ops_role r) (empty_or_equal (trim_space r.region_header) e.region_id)
      (empty_or_equal (trim_space r.store_header) e.store_id)
      (owned_by_guide (trim_space r.guide_header) (find_ops_customer e.customer_id s))
