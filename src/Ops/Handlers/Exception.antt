-- ===== src/Ops/Handlers/Exception.antt =====
-- `opsExceptionActionHandler` and the bootstrap of customer_ops.go. The action handler asks for no
-- access check, as the source does.
use jianghu_scrm.Prelude.{String, List, [], ◌∷◌, ◌==◌, if◌then◌else◌}
use jianghu_scrm.Models.OpsCustomers.{OpsCustomer, OpsCustomerTag}
use jianghu_scrm.Models.OpsWork.{OpsTask, OpsMaterial, OpsException}
use jianghu_scrm.Ops.State.{World, Ops, stamp, pure, gets, modify, ◌>>=◌, ◌>>◌}
use jianghu_scrm.Ops.Find.{find_ops_exception, write_exception}
use jianghu_scrm.Ops.Exceptions.{refresh_ops_exceptions}
use jianghu_scrm.Ops.Access.{Request}
use jianghu_scrm.Ops.Views.{scoped_ops_customers, scoped_ops_tasks, scoped_ops_exceptions}
use jianghu_scrm.Ops.Http.{Reply, ok, err_not_found, is_get, or_not_found}

pub record OpsBootstrap : Type 0 where
  pub customers : List OpsCustomer
  pub tasks : List OpsTask
  pub materials : List OpsMaterial
  pub exceptions : List OpsException
  pub tags : List OpsCustomerTag

module _ (world : World) where
  unfoldable pub customer_ops_bootstrap_handler : Request → Ops (Reply OpsBootstrap)
  customer_ops_bootstrap_handler r =
      if is_get r.method
      then (do
        refresh_ops_exceptions world
        customers ← gets (scoped_ops_customers r)
        tasks ← gets (scoped_ops_tasks r)
        materials ← gets (λ s. s.ops_materials)
        exceptions ← gets (scoped_ops_exceptions r)
        tags ← gets (λ s. s.ops_tags)
        pure (
            ok (record {
              customers = customers;
              tasks = tasks;
              materials = materials;
              exceptions = exceptions;
              tags = tags;
            })))
      else pure err_not_found

  abbrev answer_exception : OpsException → Ops (Reply OpsException)
  answer_exception item = do modify (write_exception item); pure (ok item)

  unfoldable pub exception_verb : OpsException → String → Ops (Reply OpsException)
  unfolding stamp
  exception_verb item verb =
      if verb == "process"
      then answer_exception (record item { status = "processing" })
      else if verb == "resolve"
      then (do
        now ← stamp world
        answer_exception (record item { status = "resolved"; resolved_at = now }))
      else if verb == "ignore"
      then answer_exception (record item { status = "ignored" })
      else pure err_not_found

  unfoldable pub ops_exception_action_handler : List String → Ops (Reply OpsException)
  ops_exception_action_handler [] = pure err_not_found
  ops_exception_action_handler (_ ∷ []) = pure err_not_found
  ops_exception_action_handler (id ∷ verb ∷ _) = do
    found ← gets (find_ops_exception id)
    or_not_found found λ item. exception_verb item verb
