-- ===== src/Ops/Scope.antt =====
-- What a request may see and change.
use jianghu_scrm.Prelude.{
  String, Bool, true, false, some, List, [], ◌∷◌, ◌≡◌, refl, ap, ◌∙◌, ◌==◌, ◌&&◌, ◌||◌, count,
  arith, stable_sort-count, stable_sort-is_sorted, is_sorted, less, less_asym, trim_space,
  if◌then◌else◌, Option-cases, All, inl, inr,
}
use jianghu_scrm.Utils.{filter, empty_or_equal}
use jianghu_scrm.Models.OpsCustomers.{OpsCustomer}
use jianghu_scrm.Models.OpsWork.{OpsTask}
use jianghu_scrm.Ops.State.{World, OpsState, ◌>>=◌}
use jianghu_scrm.Ops.Find.{find_ops_customer, find_ops_task}
use jianghu_scrm.Ops.Access.{
  Request, ops_role, can_access_ops_customer, can_access_ops_task, ops_role_region, ops_role_store,
  ops_role_guide,
}
use jianghu_scrm.Ops.Views.{scoped_ops_tasks}
use jianghu_scrm.Ops.Http.{err_not_found, Decoder, or_not_found}
use jianghu_scrm.Ops.Handlers.Customer.{ops_customer_action_handler}
use jianghu_scrm.Ops.Handlers.Task.{ops_task_action_handler}
use jianghu_scrm.Ops.Serve.{
  serve, on_customer, serve_call, Call, on_task, bootstrap, on_exceptions, on_tasks, on_materials,
  on_material, on_exception,
}

filter-count :
    {A : Type 0} (p q : A → Bool) (xs : List A) → count p (filter q xs) ≡ count (λ x. p x && q x) xs
unfolding filter count
filter-count p q [] = refl
filter-count p q (x ∷ xs) = ground (arith, filter-count p q xs)

count_same :
    {A : Type 0} (p q : A → Bool) (xs : List A) → ((x : A) → p x ≡ q x) → count p xs ≡ count q xs
unfolding count
count_same p q [] h = refl
count_same p q (x ∷ xs) h = ground (arith, h x, count_same p q xs h)

-- The tasks that a request lists: those of its region, of its store or of its guide.
unfoldable pub task_in_scope : String → String → OpsTask → Bool
unfolding empty_or_equal
task_in_scope role scope t =
    if role == ops_role_region
    then scope == "" || scope == t.region_id
    else if role == ops_role_store
    then scope == "" || scope == t.store_id
    else if role == ops_role_guide
    then scope == "" || scope == t.assigned_to_user_id
    else true

-- The scope that belongs to the role of the request.
unfoldable pub scope_of : Request → String
scope_of r =
    if ops_role r == ops_role_region
    then trim_space r.region_header
    else if ops_role r == ops_role_store
    then trim_space r.store_header
    else trim_space r.guide_header

can_access-task_in_scope :
    (r : Request) (t : OpsTask)
    → can_access_ops_task r t ≡ task_in_scope (ops_role r) (scope_of r) t
unfolding can_access_ops_task task_in_scope scope_of
can_access-task_in_scope r t = ground arith

-- The list of tasks is sorted by due time and holds, for any test, as many tasks that pass it as
-- the tasks in the scope of the request's role do: it shows all of those and nothing else.
pub scoped_ops_tasks-scope :
    (r : Request) (s : OpsState)
    → (is_sorted (λ a b. less a.due_time b.due_time) (scoped_ops_tasks r s) ≡ true)
      × ((p : OpsTask → Bool)
          → count p (scoped_ops_tasks r s)
            ≡ count (λ t. p t && task_in_scope (ops_role r) (scope_of r) t) s.ops_tasks)
unfolding scoped_ops_tasks
scoped_ops_tasks-scope r s = (
  stable_sort-is_sorted _ (λ a b. less_asym a.due_time b.due_time)
      (filter (can_access_ops_task r) s.ops_tasks),
  λ p.
      stable_sort-count _ p (filter (can_access_ops_task r) s.ops_tasks)
      ∙ filter-count p (can_access_ops_task r) s.ops_tasks
      ∙ count_same _ _ s.ops_tasks (λ t. ap (λ b. p t && b) (can_access-task_in_scope r t)),
)

-- The customers that a request may open: those of its region, of its store or of its guide.
unfoldable pub customer_in_scope : String → String → OpsCustomer → Bool
unfolding empty_or_equal
customer_in_scope role scope c =
    if role == ops_role_region
    then scope == "" || scope == c.region_id
    else if role == ops_role_store
    then scope == "" || scope == c.store_id
    else if role == ops_role_guide
    then scope == "" || scope == c.owner_guide_id
    else true

can_access-customer_in_scope :
    (r : Request) (c : OpsCustomer)
    → can_access_ops_customer r c ≡ customer_in_scope (ops_role r) (scope_of r) c
unfolding can_access_ops_customer customer_in_scope scope_of
can_access-customer_in_scope r c = ground arith

-- A request about one customer or one task that is not there or not in the scope of the request.
abbrev pub IsOutside : OpsState → Call → Type 0
IsOutside s (on_customer r id parts) =
    (c : OpsCustomer)
    → find_ops_customer id s ≡ some c
    → customer_in_scope (ops_role r) (scope_of r) c ≡ false
IsOutside s (on_task r []) = Unit
IsOutside s (on_task r (id ∷ parts)) =
    (t : OpsTask) → find_ops_task id s ≡ some t → task_in_scope (ops_role r) (scope_of r) t ≡ false
IsOutside s (bootstrap r) = ⊥
IsOutside s (on_exceptions r) = ⊥
IsOutside s (on_tasks r) = ⊥
IsOutside s (on_materials r) = ⊥
IsOutside s (on_material r parts) = ⊥
IsOutside s (on_exception parts) = ⊥

module _ (world : World) (json : Decoder) where
  -- The request is answered "not found".
  abbrev pub IsNotFound : OpsState → Call → Type 0
  IsNotFound s (on_customer r id parts) =
      (ops_customer_action_handler world json r id parts s).0 ≡ err_not_found
  IsNotFound s (on_task r parts) = (ops_task_action_handler world json r parts s).0 ≡ err_not_found
  IsNotFound s (bootstrap r) = ⊥
  IsNotFound s (on_exceptions r) = ⊥
  IsNotFound s (on_tasks r) = ⊥
  IsNotFound s (on_materials r) = ⊥
  IsNotFound s (on_material r parts) = ⊥
  IsNotFound s (on_exception parts) = ⊥

  customer_denied :
      (r : Request) (id : String) (parts : List String) (s : OpsState)
      → IsOutside s (on_customer r id parts)
      → ops_customer_action_handler world json r id parts s ≡ (err_not_found, s)
  unfolding ops_customer_action_handler or_not_found ◌>>=◌
  customer_denied r id parts s out = elim (Option-cases (find_ops_customer id s)) [
    | inl f ↦ rw f refl
    | inr (c, f) ↦ let d = can_access-customer_in_scope r c ∙ out c f in rw f (rw d refl)
  ]

  task_denied :
      (r : Request) (parts : List String) (s : OpsState)
      → IsOutside s (on_task r parts)
      → ops_task_action_handler world json r parts s ≡ (err_not_found, s)
  unfolding ops_task_action_handler or_not_found ◌>>=◌
  task_denied r [] s out = refl
  task_denied r (id ∷ parts) s out = elim (Option-cases (find_ops_task id s)) [
    | inl f ↦ rw f refl
    | inr (t, f) ↦ let d = can_access-task_in_scope r t ∙ out t f in rw f (rw d refl)
  ]

  call_denied :
      (call : Call) (s : OpsState)
      → IsOutside s call
      → (serve_call world json call s ≡ s) × IsNotFound s call
  unfolding serve_call
  call_denied (on_customer r id parts) s out =
      let e = customer_denied r id parts s out in (ap (λ a. a.1) e, ap (λ a. a.0) e)
  call_denied (on_task r parts) s out =
      let e = task_denied r parts s out in (ap (λ a. a.1) e, ap (λ a. a.0) e)
  call_denied (bootstrap r) s out = absurd out
  call_denied (on_exceptions r) s out = absurd out
  call_denied (on_tasks r) s out = absurd out
  call_denied (on_materials r) s out = absurd out
  call_denied (on_material r parts) s out = absurd out
  call_denied (on_exception parts) s out = absurd out

  -- Any requests about one customer or one task each, none of which is there in the scope of its
  -- request (the region of a region_manager, the store of a store_manager, the guide of a guide), are
  -- all answered not found, and leave the state as it was.
  pub serve-denied :
      (calls : List Call) (s : OpsState)
      → All (IsOutside s) calls
      → (serve world json calls s ≡ s) × All (IsNotFound s) calls
  unfolding serve
  serve-denied [] s out = (refl, tt)
  serve-denied (call ∷ calls) s out =
      let now = call_denied call s out.0 in
      let later = serve-denied calls s out.1 in
      (ap (serve world json calls) now.0 ∙ later.0, (now.1, later.1))
