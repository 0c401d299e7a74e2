-- ===== src/Ops/History/Requests.antt =====
-- The lifecycle logs over the requests to tasks, materials and exceptions, and over any requests.
use jianghu_scrm.Prelude.{Option, none, some, refl, ◌==◌}
use jianghu_scrm.Ops.State.{modify, pure, ◌>>=◌}
use jianghu_scrm.Ops.Ensures.{
  Ensures, Ensures-pure, Ensures-gets, Ensures-if, Ensures-bind, Keeps, Keeps-modify, keeps_rules,
}
use jianghu_scrm.Ops.Access.{Method, get, post, patch, delete, other, can_access_ops_task}
use jianghu_scrm.Ops.History.Frame.{stages, stages_rules, refresh_ops_exceptions-stages}
use jianghu_scrm.Ops.History.Served.{
  Keeps-decoded, Keeps-or_not_found, ops_customer_action_handler-IsLogged,
}
use jianghu_scrm.Ops.Serve.{
  Call, bootstrap, on_exceptions, on_tasks, on_materials, on_customer, on_task, on_material,
  on_exception, ops_exceptions_handler, ops_tasks_handler, ops_materials_handler, serve_call, serve,
}
use jianghu_scrm.Ops.State.{World, OpsState, Ops, pure}
use jianghu_scrm.Ops.Http.{Reply, Decoder, or_not_found, TaskNote, ok}
use jianghu_scrm.Ops.Handlers.Material.{
  ops_material_action_handler, material_verb, create_material_action,
}
use jianghu_scrm.Ops.Handlers.Exception.{
  exception_verb, customer_ops_bootstrap_handler, ops_exception_action_handler,
}
use jianghu_scrm.Ops.Handlers.Task.{
  ops_task_action_handler, assign_task, task_action, create_task_action, task_verb,
}
use jianghu_scrm.Ops.History.{IsLogged}
use jianghu_scrm.Models.OpsWork.{OpsTask, OpsException, OpsMaterial}
use jianghu_scrm.Prelude.{List, ◌∷◌, Option, String, [], some, none}
use jianghu_scrm.Ops.Find.{write_exception, write_task}
use jianghu_scrm.Ops.Ensures.{
  Ensures, Ensures-bind, Keeps, Ensures-if, Ensures-gets, keeps_rules, Ensures-pure,
}
use jianghu_scrm.Ops.Access.{Request, Method}
use jianghu_scrm.Ops.History.Handled.{Logged-frame, set_ops_task_status-IsLogged}
use jianghu_scrm.Ops.History.Frame.{stages}

module _ {A B : Type 0} {P : OpsState → Type 0} {Q : Reply B → OpsState → Type 0} where
  Ensures-or_not_found :
      (o : Option A) (k : A → Ops (Reply B))
      → ((r : Reply B) (s : OpsState) → P s → Q r s)
      → ((a : A) → Ensures P (k a) Q)
      → Ensures P (or_not_found o k) Q
  unfolding or_not_found
  Ensures-or_not_found none k weak h = record { at = λ s p. weak _ s p }
  Ensures-or_not_found (some a) k weak h = h a

module _ (world : World) (json : Decoder) where
  create_task_action-stages : (r : Request) → Keeps stages (create_task_action world json r)
  unfolding create_task_action
  create_task_action-stages r = search (stages_rules, Keeps-decoded)

  create_material_action-stages : (r : Request) → Keeps stages (create_material_action world json r)
  unfolding create_material_action
  create_material_action-stages r = search (stages_rules, Keeps-decoded)

  material_verb-stages :
      (r : Request) (m : OpsMaterial) (verb : Method)
      → Keeps stages (material_verb world json r m verb)
  unfolding material_verb
  material_verb-stages r m get = search stages_rules
  material_verb-stages r m post = search stages_rules
  material_verb-stages r m patch = search (stages_rules, Keeps-decoded)
  material_verb-stages r m delete = search stages_rules
  material_verb-stages r m other = search stages_rules

  ops_material_action_handler-stages :
      (r : Request) (parts : List String)
      → Keeps stages (ops_material_action_handler world json r parts)
  unfolding ops_material_action_handler
  ops_material_action_handler-stages r [] = search stages_rules
  ops_material_action_handler-stages r (id ∷ _) =
      search (stages_rules, Keeps-or_not_found, material_verb-stages)

  write_exception-stages : (item : OpsException) → Keeps stages (modify (write_exception item))
  unfolding write_exception
  write_exception-stages item = Keeps-modify _ (λ s. refl)

  exception_verb-stages :
      (item : OpsException) (verb : String) → Keeps stages (exception_verb world item verb)
  unfolding exception_verb
  exception_verb-stages item verb = search (stages_rules, write_exception-stages) depth 12

  ops_exception_action_handler-stages :
      (parts : List String) → Keeps stages (ops_exception_action_handler world parts)
  unfolding ops_exception_action_handler
  ops_exception_action_handler-stages [] = search stages_rules
  ops_exception_action_handler-stages (_ ∷ []) = search stages_rules
  ops_exception_action_handler-stages (id ∷ verb ∷ _) =
      search (stages_rules, Keeps-or_not_found, exception_verb-stages)

  customer_ops_bootstrap_handler-stages :
      (r : Request) → Keeps stages (customer_ops_bootstrap_handler world r)
  unfolding customer_ops_bootstrap_handler
  customer_ops_bootstrap_handler-stages r = search stages_rules depth 12

  assign_task-stages :
      (task : OpsTask) (note : TaskNote) → Keeps stages (assign_task world json task note)
  unfolding assign_task write_task
  assign_task-stages task note = search stages_rules

  answered :
      (m : Ops OpsTask)
      → Ensures IsLogged m (λ _. IsLogged)
      → Ensures IsLogged (do task ← m; pure (ok task)) (λ _. IsLogged)
  answered m h = Ensures-bind h (λ task. Ensures-pure _ (λ s h. h))

  refused : (reply : Reply OpsTask) → Ensures IsLogged (pure reply) (λ _. IsLogged)
  refused reply = Ensures-pure reply (λ s h. h)

  task_verb-IsLogged :
      (task : OpsTask) (verb : String) (note : TaskNote)
      → Ensures IsLogged (task_verb world json task verb note) (λ _. IsLogged)
  unfolding task_verb
  task_verb-IsLogged task verb note =
      Ensures-if (verb == "process") _ _
        (λ _. answered _ (set_ops_task_status-IsLogged world _ _ _ _))
        λ _.
          Ensures-if (verb == "complete") _ _
            (λ _. answered _ (set_ops_task_status-IsLogged world _ _ _ _))
            λ _.
              Ensures-if (verb == "assign") _ _
                (λ _. answered _ (Logged-frame _ (assign_task-stages task note)))
                λ _.
                  Ensures-if (verb == "ignore") _ _
                    (λ _. answered _ (set_ops_task_status-IsLogged world _ _ _ _)) λ _. refused _

  task_action-IsLogged :
      (r : Request) (task : OpsTask) (parts : List String)
      → Ensures IsLogged (task_action world json r task parts) (λ _. IsLogged)
  unfolding task_action
  task_action-IsLogged r task [] = Logged-frame _ (search keeps_rules)
  task_action-IsLogged r task (verb ∷ _) = task_verb-IsLogged task verb _

  ops_task_action_handler-IsLogged :
      (r : Request) (parts : List String)
      → Ensures IsLogged (ops_task_action_handler world json r parts) (λ _. IsLogged)
  unfolding ops_task_action_handler
  ops_task_action_handler-IsLogged r [] = refused _
  ops_task_action_handler-IsLogged r (task_id ∷ parts) =
      Ensures-bind (Ensures-gets {Q = λ _. IsLogged} _ (λ s h. h)) λ found.
        Ensures-or_not_found found _ (λ _ s h. h)
          λ task.
            Ensures-if (can_access_ops_task r task) _ _ (λ _. task_action-IsLogged r task parts)
              λ _. refused _

  ops_exceptions_handler-IsLogged :
      (r : Request) (m : Method) (s : OpsState)
      → IsLogged s
      → IsLogged (ops_exceptions_handler world json r m s)
  unfolding ops_exceptions_handler
  ops_exceptions_handler-IsLogged r get s h =
      (Logged-frame _ (refresh_ops_exceptions-stages world)).at s h
  ops_exceptions_handler-IsLogged r post s h = h
  ops_exceptions_handler-IsLogged r patch s h = h
  ops_exceptions_handler-IsLogged r delete s h = h
  ops_exceptions_handler-IsLogged r other s h = h

  ops_tasks_handler-IsLogged :
      (r : Request) (m : Method) (s : OpsState)
      → IsLogged s
      → IsLogged (ops_tasks_handler world json r m s)
  unfolding ops_tasks_handler
  ops_tasks_handler-IsLogged r get s h =
      (Logged-frame _ (refresh_ops_exceptions-stages world)).at s h
  ops_tasks_handler-IsLogged r post s h = (Logged-frame _ (create_task_action-stages r)).at s h
  ops_tasks_handler-IsLogged r patch s h = h
  ops_tasks_handler-IsLogged r delete s h = h
  ops_tasks_handler-IsLogged r other s h = h

  ops_materials_handler-IsLogged :
      (r : Request) (m : Method) (s : OpsState)
      → IsLogged s
      → IsLogged (ops_materials_handler world json r m s)
  unfolding ops_materials_handler
  ops_materials_handler-IsLogged r get s h = h
  ops_materials_handler-IsLogged r post s h =
      (Logged-frame _ (create_material_action-stages r)).at s h
  ops_materials_handler-IsLogged r patch s h = h
  ops_materials_handler-IsLogged r delete s h = h
  ops_materials_handler-IsLogged r other s h = h

  serve_call-IsLogged :
      (call : Call) (s : OpsState) → IsLogged s → IsLogged (serve_call world json call s)
  unfolding serve_call
  serve_call-IsLogged (bootstrap r) s h =
      (Logged-frame _ (customer_ops_bootstrap_handler-stages r)).at s h
  serve_call-IsLogged (on_exceptions r) s h = ops_exceptions_handler-IsLogged r r.method s h
  serve_call-IsLogged (on_tasks r) s h = ops_tasks_handler-IsLogged r r.method s h
  serve_call-IsLogged (on_materials r) s h = ops_materials_handler-IsLogged r r.method s h
  serve_call-IsLogged (on_customer r id parts) s h =
      ops_customer_action_handler-IsLogged world json r id parts s h
  serve_call-IsLogged (on_task r parts) s h = (ops_task_action_handler-IsLogged r parts).at s h
  serve_call-IsLogged (on_material r parts) s h =
      (Logged-frame _ (ops_material_action_handler-stages r parts)).at s h
  serve_call-IsLogged (on_exception parts) s h =
      (Logged-frame _ (ops_exception_action_handler-stages parts)).at s h

  -- Whatever requests the operations centre serves, if in the state before them each customer's
  -- lifecycle logs lead back, newest first, from its stage, each log's `StageAfter` being the
  -- `StageBefore` of the next newer one, then so they do in the state after them.
  pub serve-IsLogged :
      (calls : List Call) (s : OpsState) → IsLogged s → IsLogged (serve world json calls s)
  unfolding serve
  serve-IsLogged [] s h = h
  serve-IsLogged (call ∷ calls) s h = serve-IsLogged calls _ (serve_call-IsLogged call s h)
