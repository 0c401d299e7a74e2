-- ===== src/Ops/DataScope.antt =====
-- The database scopes of backend/customer_ops_permissions.go: the conditions that they add to a query
-- and the arguments of these. `strconv.Itoa` is an argument.
use jianghu_scrm.Prelude.{
  ℕ, String, List, [], ◌∷◌, ◌++◌, ◌==◌, ◌||◌, ◌<>◌, join, length, trim_space, if◌then◌else◌,
}
use jianghu_scrm.Ops.Access.{Request, ops_role_store, ops_role_guide}

pub record OpsDataScope : Type 0 where
  pub role : String
  pub region_id : String
  pub store_id : String
  pub guide_id : String

-- the `switch role` of `opsScopeFromRequest`
unfoldable pub normal_role : String → String
normal_role role =
    if role == "" || role == "hq" || role == "hq_admin"
    then "headquarters_admin"
    else if role == "region_manager"
    then "regional_manager"
    else role

unfoldable pub ops_scope_from_request : Request → OpsDataScope
unfolding normal_role
ops_scope_from_request r = record {
  role = normal_role (trim_space r.role_header);
  region_id = trim_space r.region_header;
  store_id = trim_space r.store_header;
  guide_id = trim_space r.guide_header;
}

pub record SqlFilter : Type 0 where
  pub conditions : List String
  pub args : List String

unfoldable pub scope_alias : String → String
scope_alias alias = if alias == "" then "" else alias <> "."

unfoldable pub where_clause : List String → String
where_clause [] = ""
where_clause (c ∷ cs) = " WHERE " <> join (c ∷ cs) " AND "

module _ (itoa : ℕ → String) where
  -- The argument is appended, and the condition names it by its number; nothing is done for "".
  unfoldable pub restrict : String → (String → String) → SqlFilter → SqlFilter
  restrict value condition q = if value == "" then q else record {
    conditions = q.conditions ++ condition (itoa (length (q.args ++ value ∷ []))) ∷ [];
    args = q.args ++ value ∷ [];
  }

  -- The shared `switch`; the condition of a guide is the one that differs.
  unfoldable pub apply_scope : OpsDataScope → String → (String → String) → SqlFilter → SqlFilter
  apply_scope scope prefix guide_condition q =
      if scope.role == "regional_manager"
      then restrict scope.region_id (λ n. prefix <> "region_id = $" <> n) q
      else if scope.role == ops_role_store || scope.role == "store_owner"
      then restrict scope.store_id (λ n. prefix <> "store_id = $" <> n) q
      else if scope.role == ops_role_guide
      then restrict scope.guide_id guide_condition q
      else if scope.role == "headquarters_operator"
      then restrict scope.region_id (λ n. prefix <> "region_id = $" <> n) q
      else q

  unfoldable pub apply_customer_data_scope : OpsDataScope → String → SqlFilter → SqlFilter
  apply_customer_data_scope scope alias q =
      apply_scope scope (scope_alias alias) (λ n. scope_alias alias <> "owner_guide_id = $" <> n) q

  unfoldable pub apply_task_data_scope : OpsDataScope → String → SqlFilter → SqlFilter
  apply_task_data_scope scope alias q =
      apply_scope scope (scope_alias alias)
        (λ n. scope_alias alias <> "assigned_to_user_id = $" <> n) q

  unfoldable pub apply_exception_data_scope : OpsDataScope → String → SqlFilter → SqlFilter
  apply_exception_data_scope scope alias q =
      apply_scope scope (scope_alias alias)
        (λ n.
          "EXISTS (SELECT 1 FROM customers c WHERE c.id = "
          <> scope_alias alias
          <> "customer_id AND c.owner_guide_id = $"
          <> n
          <> ")")
        q
