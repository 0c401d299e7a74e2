-- ===== src/Ops/DataScopeRows.antt =====
-- The rows that the database scopes select are those that the memory mode gives access to.
use jianghu_scrm.Ops.DataScope.{SqlFilter, normal_role, OpsDataScope, apply_scope}
use jianghu_scrm.Models.OpsCustomers.{OpsCustomer}
use jianghu_scrm.Models.OpsWork.{OpsTask}
use jianghu_scrm.Ops.Access.{Request, ops_role_region, ops_role_store, in_scope, ops_role_guide}
use jianghu_scrm.Prelude.{
  ℕ, String, if◌then◌else◌, trim_space, Bool, List, ◌≡◌, ◌==◌, ◌++◌, ◌∷◌, ◌&&◌, ◌<>◌, false, ◌||◌,
  length, [],
}
use jianghu_scrm.Utils.{empty_or_equal}

-- The role as the memory mode writes it; hq_admin has no scope.
unfoldable pub memory_role : String → String
memory_role role =
    if role == "regional_manager"
    then ops_role_region
    else if role == ops_role_store || role == "store_owner"
    then ops_role_store
    else if role == ops_role_guide
    then ops_role_guide
    else if role == "headquarters_operator"
    then ops_role_region
    else "hq_admin"

abbrev pub in_memory : Request → Request
in_memory r = record r { role_header = memory_role (normal_role (trim_space r.role_header)) }

-- The columns of a row that a scope compares.
abbrev pub columns : String → String → String → String → String → String
columns guide_column region store guide column =
    if column == "region_id"
    then region
    else if column == "store_id"
    then store
    else if column == guide_column
    then guide
    else ""

abbrev pub customer_columns : OpsCustomer → String → String
customer_columns c = columns "owner_guide_id" c.region_id c.store_id c.owner_guide_id

abbrev pub task_columns : OpsTask → String → String
task_columns t = columns "assigned_to_user_id" t.region_id t.store_id t.assigned_to_user_id

-- What conditions, joined by AND, say of a row: each compares a column, under the alias, with the
-- argument of its number, and the row passes those of a query before `passed`.
pub data Selects (itoa : ℕ → String) (prefix : String) (row : String → String) (passed : Bool)
    (before : SqlFilter) : List String → List String → Bool → Type 0 where
  unchanged : Selects itoa prefix row passed before before.conditions before.args passed
  compared :
      {conditions args : List String} {b : Bool} (column value : String)
      → Selects itoa prefix row passed before conditions args b
      → Selects itoa prefix row passed before
          (conditions ++ (prefix <> (column <> " = $") <> itoa (length (args ++ value ∷ []))) ∷ [])
          (args ++ value ∷ [])
          (b && value == row column)

module _ (itoa : ℕ → String) (prefix : String) (row : String → String) (passed : Bool)
    (q : SqlFilter) where
  -- Whether a row passes a query.
  abbrev IsRead : SqlFilter → Bool → Type 0
  IsRead p b = Selects itoa prefix row passed q p.conditions p.args b

module _ (itoa : ℕ → String) (prefix guide_column : String) (region store guide : String)
    (passed : Bool) (q : SqlFilter) (scope : OpsDataScope)
    (not_region : (guide_column == "region_id") ≡ false)
    (not_store : (guide_column == "store_id") ≡ false) where
  abbrev row : String → String
  row = columns guide_column region store guide

  abbrev scoped : SqlFilter
  scoped = apply_scope itoa scope prefix (λ n. prefix <> (guide_column <> " = $") <> n) q

  -- what the memory mode says of the row
  abbrev access : String → Bool
  access role =
      in_scope role (empty_or_equal scope.region_id region) (empty_or_equal scope.store_id store)
        (empty_or_equal scope.guide_id guide)
