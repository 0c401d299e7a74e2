-- ===== src/Tests/Ops.antt =====
-- Runs of the operations centre.
use jianghu_scrm.Prelude.{
  trim_space, ◌≡◌, Bool, true, false, some, [], ◌∷◌, refl, count, all, is_sorted, less, arith,
  if◌then◌else◌, ◌==◌, find, ◌&&◌, not, All, List, subst,
}
use jianghu_scrm.Utils.{filter}
use jianghu_scrm.Ops.State.{OpsState}
use jianghu_scrm.Ops.Access.{get, post, patch, ops_role}
use jianghu_scrm.Tests.Samples.{world_1, json_1, chen, first_call, state_1, manager_of}
use jianghu_scrm.Ops.Find.{find_ops_task, find_ops_customer, has_open_ops_task}
use jianghu_scrm.Ops.TagLinks.{
  links_of, IsLinkedOnce, add_ops_tag_to_customer-IsLinkedOnce, remove_ops_tag_from_customer-count,
}
use jianghu_scrm.Ops.Revisit.{open_tasks, change_ops_customer_stage-revisit}
use jianghu_scrm.Ops.Refresh.Cover.{task_covered, customer_covered}
use jianghu_scrm.Ops.Views.{scoped_ops_tasks}
use jianghu_scrm.Ops.TaskStatus.{set_ops_task_status}
use jianghu_scrm.Ops.Tags.{remove_ops_tag_from_customer, add_ops_tag_to_customer}
use jianghu_scrm.Ops.Resolve.{is_settled, is_foreign, set_ops_task_status-resolves}
use jianghu_scrm.Ops.Exceptions.{refresh_ops_exceptions}
use jianghu_scrm.Ops.History.{IsLogged, leads_to}
use jianghu_scrm.Models.OpsWork.{OpsTask}
use jianghu_scrm.Ops.Serve.{serve, on_customer, on_tasks, Call, on_task}
use jianghu_scrm.Ops.Stage.{revisit, change_ops_customer_stage}
use jianghu_scrm.Ops.Scope.{
  task_in_scope, scope_of, scoped_ops_tasks-scope, IsOutside, customer_in_scope, IsNotFound,
  serve-denied,
}
use jianghu_scrm.Ops.Refresh.Again.{refresh_ops_exceptions-again, refresh_ops_exceptions-covers}
use jianghu_scrm.Ops.History.Requests.{serve-IsLogged}
use jianghu_scrm.Ops.Refresh.Once.{IsRaisedOnce, refresh_ops_exceptions-IsRaisedOnce}

state_1-IsLogged : IsLogged state_1
unfolding leads_to
state_1-IsLogged = record { at = λ id c f. refl }

serve-IsLogged_example : IsLogged (
    serve world_1 json_1
      (on_customer (manager_of patch "s1") "oc1" ("stage" ∷ [])
        ∷ on_tasks (manager_of get "s1")
        ∷ [])
      state_1)
serve-IsLogged_example =
    serve-IsLogged world_1 json_1
      (on_customer (manager_of patch "s1") "oc1" ("stage" ∷ [])
        ∷ on_tasks (manager_of get "s1")
        ∷ [])
      state_1 state_1-IsLogged

refresh_ops_exceptions-again_example :
    (refresh_ops_exceptions world_1 (refresh_ops_exceptions world_1 state_1).1).1
    ≡ (refresh_ops_exceptions world_1 state_1).1
refresh_ops_exceptions-again_example = refresh_ops_exceptions-again world_1 state_1

refresh_ops_exceptions-covers_example :
    (all
        (task_covered (refresh_ops_exceptions world_1 state_1).1)
        (refresh_ops_exceptions world_1 state_1).1.ops_tasks
      ≡ true)
    × (all
          (customer_covered (refresh_ops_exceptions world_1 state_1).1)
          (refresh_ops_exceptions world_1 state_1).1.ops_customers
        ≡ true)
refresh_ops_exceptions-covers_example = refresh_ops_exceptions-covers world_1 state_1

-- the state with the exceptions of its late task and its waiting customer
abbrev state_2 : OpsState
state_2 = (refresh_ops_exceptions world_1 state_1).1

set_ops_task_status-resolves_example :
    (all
        (is_settled "ot1")
        (set_ops_task_status world_1 first_call "completed" "完成任务" "" state_2).1.ops_exceptions
      ≡ true)
    × (filter
          (is_foreign "ot1")
          (set_ops_task_status world_1 first_call "completed" "完成任务" "" state_2).1.ops_exceptions
        ≡ filter (is_foreign "ot1") state_2.ops_exceptions)
set_ops_task_status-resolves_example =
    set_ops_task_status-resolves world_1 first_call "完成任务" "" state_2

change_ops_customer_stage-revisit_example :
    open_tasks "oc1" revisit
      (change_ops_customer_stage world_1 chen "high_intent" "" "" "" state_1).1
    ≡ (if "high_intent" == "high_intent" && not (has_open_ops_task "oc1" revisit state_1)
        then 1
        else open_tasks "oc1" revisit state_1)
change_ops_customer_stage-revisit_example =
    change_ops_customer_stage-revisit world_1 chen "high_intent" "" "" "" state_1

state_1-IsRaisedOnce : IsRaisedOnce state_1
unfolding count
state_1-IsRaisedOnce = record { once = λ k c t. omega arith }

refresh_ops_exceptions-IsRaisedOnce_example :
    IsRaisedOnce (refresh_ops_exceptions world_1 state_1).1
refresh_ops_exceptions-IsRaisedOnce_example =
    refresh_ops_exceptions-IsRaisedOnce world_1 state_1 state_1-IsRaisedOnce

state_1-IsLinkedOnce : IsLinkedOnce state_1
unfolding links_of count
state_1-IsLinkedOnce = record { once = λ c t. omega arith }

add_ops_tag_to_customer-IsLinkedOnce_example :
    IsLinkedOnce (add_ops_tag_to_customer world_1 "oc1" "tag1" "manual" "" "" state_1).1
    × (links_of "oc1" "tag1" (add_ops_tag_to_customer world_1 "oc1" "tag1" "manual" "" "" state_1).1
        ≡ 1)
add_ops_tag_to_customer-IsLinkedOnce_example =
    add_ops_tag_to_customer-IsLinkedOnce world_1 "oc1" "tag1" "manual" "" "" state_1
      state_1-IsLinkedOnce

-- the conditions of the runs
apart : ("oc1" == "oc2" && "tag1" == "tag1") ≡ false
apart = refl

-- The customer and the task are in the store s1.
abbrev foreign_calls : List Call
foreign_calls =
    on_customer (manager_of patch "s2") "oc1" ("stage" ∷ [])
    ∷ on_task (manager_of post "s2") ("ot1" ∷ "complete" ∷ [])
    ∷ []

foreign_customer : IsOutside state_1 (on_customer (manager_of patch "s2") "oc1" ("stage" ∷ []))
unfolding find_ops_customer find customer_in_scope ops_role scope_of trim_space
foreign_customer c f =
    let same : some chen ≡ some c = f in
    let this : chen ≡ c = cc in
    subst (λ x. customer_in_scope "store_manager" "s2" x ≡ false) this refl

foreign_task : IsOutside state_1 (on_task (manager_of post "s2") ("ot1" ∷ "complete" ∷ []))
unfolding find_ops_task find task_in_scope ops_role scope_of trim_space
foreign_task t f =
    let same : some first_call ≡ some t = f in
    let this : first_call ≡ t = cc in
    subst (λ x. task_in_scope "store_manager" "s2" x ≡ false) this refl

serve-denied_example :
    (serve world_1 json_1 foreign_calls state_1 ≡ state_1)
    × All (IsNotFound world_1 json_1 state_1) foreign_calls
serve-denied_example =
    serve-denied world_1 json_1 foreign_calls state_1 (foreign_customer, (foreign_task, tt))

remove_ops_tag_from_customer-count_example :
    links_of "oc1" "tag1"
      (remove_ops_tag_from_customer "oc1" "tag1"
        (add_ops_tag_to_customer world_1 "oc1" "tag1" "manual" "" "" state_1).1).1
    ≡ (if "oc1" == "oc1" && "tag1" == "tag1"
        then 0
        else links_of "oc1" "tag1"
            (add_ops_tag_to_customer world_1 "oc1" "tag1" "manual" "" "" state_1).1)
remove_ops_tag_from_customer-count_example =
    remove_ops_tag_from_customer-count "oc1" "tag1" "oc1" "tag1"
      (add_ops_tag_to_customer world_1 "oc1" "tag1" "manual" "" "" state_1).1

scoped_ops_tasks-scope_example :
    (is_sorted (λ a b. less a.due_time b.due_time) (scoped_ops_tasks (manager_of get "s1") state_1)
      ≡ true)
    × ((p : OpsTask → Bool)
        → count p (scoped_ops_tasks (manager_of get "s1") state_1)
          ≡ count
              (λ t.
                p t
                && task_in_scope
                    (ops_role (manager_of get "s1"))
                    (scope_of (manager_of get "s1"))
                    t)
              state_1.ops_tasks)
scoped_ops_tasks-scope_example = scoped_ops_tasks-scope (manager_of get "s1") state_1
