-- ===== src/Ops/Serve.antt =====
-- The requests to the operations centre, and the state after a list of them. `opsCustomersHandler` only reads. A request runs under
-- the API's lock from its first read to its reply, so the requests follow one another.
use jianghu_scrm.Prelude.{String, List, [], ◌∷◌}
use jianghu_scrm.Ops.State.{World, OpsState}
use jianghu_scrm.Ops.Access.{Request, Method, get, post, patch, delete, other}
use jianghu_scrm.Ops.Http.{Decoder}
use jianghu_scrm.Ops.Exceptions.{refresh_ops_exceptions}
use jianghu_scrm.Ops.Handlers.Customer.{ops_customer_action_handler}
use jianghu_scrm.Ops.Handlers.Task.{create_task_action, ops_task_action_handler}
use jianghu_scrm.Ops.Handlers.Material.{create_material_action, ops_material_action_handler}
use jianghu_scrm.Ops.Handlers.Exception.{
  customer_ops_bootstrap_handler, ops_exception_action_handler,
}

-- One constructor for each route, with its path parts.
pub data Call : Type 0 where
  bootstrap on_exceptions on_tasks on_materials : Request → Call
  on_customer : Request → String → List String → Call
  on_task on_material : Request → List String → Call
  on_exception : List String → Call

module _ (world : World) (json : Decoder) where
  -- What `opsExceptionsHandler`, `opsTasksHandler` and `opsMaterialsHandler` do to the state, by the
  -- method of the request; their GET lists rows.
  unfoldable pub ops_exceptions_handler : Request → Method → OpsState → OpsState
  ops_exceptions_handler r get s = (refresh_ops_exceptions world s).1
  ops_exceptions_handler r post s = s
  ops_exceptions_handler r patch s = s
  ops_exceptions_handler r delete s = s
  ops_exceptions_handler r other s = s

  unfoldable pub ops_tasks_handler : Request → Method → OpsState → OpsState
  ops_tasks_handler r get s = (refresh_ops_exceptions world s).1
  ops_tasks_handler r post s = (create_task_action world json r s).1
  ops_tasks_handler r patch s = s
  ops_tasks_handler r delete s = s
  ops_tasks_handler r other s = s

  unfoldable pub ops_materials_handler : Request → Method → OpsState → OpsState
  ops_materials_handler r get s = s
  ops_materials_handler r post s = (create_material_action world json r s).1
  ops_materials_handler r patch s = s
  ops_materials_handler r delete s = s
  ops_materials_handler r other s = s

  unfoldable pub serve_call : Call → OpsState → OpsState
  serve_call (bootstrap r) s = (customer_ops_bootstrap_handler world r s).1
  serve_call (on_exceptions r) s = ops_exceptions_handler r r.method s
  serve_call (on_tasks r) s = ops_tasks_handler r r.method s
  serve_call (on_materials r) s = ops_materials_handler r r.method s
  serve_call (on_customer r id parts) s = (ops_customer_action_handler world json r id parts s).1
  serve_call (on_task r parts) s = (ops_task_action_handler world json r parts s).1
  serve_call (on_material r parts) s = (ops_material_action_handler world json r parts s).1
  serve_call (on_exception parts) s = (ops_exception_action_handler world parts s).1

  unfoldable pub serve : List Call → OpsState → OpsState
  serve [] s = s
  serve (call ∷ calls) s = serve calls (serve_call call s)
