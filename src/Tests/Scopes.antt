-- ===== src/Tests/Scopes.antt =====
-- A run of the database scopes.
use jianghu_scrm.Tests.Samples.{regional}
use jianghu_scrm.Prelude.{ℕ, String, ◌∷◌, [], if◌then◌else◌, eqb, trim_space, ◌≡◌, refl}
use jianghu_scrm.Ops.DataScope.{
  SqlFilter, apply_task_data_scope, ops_scope_from_request, scope_alias, normal_role, restrict,
  apply_scope,
}

abbrev open_tasks : SqlFilter
open_tasks = record { conditions = "t.status = $1" ∷ []; args = "open" ∷ [] }

abbrev digit : ℕ → String
digit n = if eqb n 2 then "2" else "1"

scoped :
    (apply_task_data_scope digit (ops_scope_from_request regional) "t" open_tasks).conditions
    ≡ "t.status = $1" ∷ "t.region_id = $2" ∷ []
unfolding apply_task_data_scope ops_scope_from_request normal_role trim_space restrict apply_scope
    scope_alias
scoped = refl
