-- ===== src/Ops/State.antt =====
-- The state that customer_ops.go keeps in memory (the ops fields of `API`), the outside world that
-- it reads, and the state monad in which its functions are written.
use jianghu_scrm.Prelude.{ℕ, ◌+◌, String, List, ◌<>◌}
use jianghu_scrm.Models.OpsCustomers.{
  OpsCustomer, OpsLifecycleLog, OpsCustomerTag, OpsCustomerTagRelation, OpsFollowUpRecord,
  OpsTimelineEvent,
}
use jianghu_scrm.Models.OpsWork.{OpsTask, OpsTaskLog, OpsMaterial, OpsException}

-- `crypto/rand` and the clock: the text that the n-th `newID` puts behind its prefix, and the text
-- that the n-th `stamp` returns.
pub record World : Type 0 where
  pub suffix : ℕ → String
  pub clock : ℕ → String

pub record OpsState : Type 0 where
  pub ops_customers : List OpsCustomer
  pub ops_lifecycle_logs : List OpsLifecycleLog
  pub ops_tags : List OpsCustomerTag
  pub ops_tag_links : List OpsCustomerTagRelation
  pub ops_followups : List OpsFollowUpRecord
  pub ops_tasks : List OpsTask
  pub ops_task_logs : List OpsTaskLog
  pub ops_materials : List OpsMaterial
  pub ops_timelines : List OpsTimelineEvent
  pub ops_exceptions : List OpsException
  pub drawn : ℕ  -- calls of `newID` so far
  pub readings : ℕ  -- calls of `stamp` so far

abbrev pub Ops : Type 0 → Type 0
Ops A = OpsState → A × OpsState

unfoldable pub pure : {A : Type 0} → A → Ops A
pure a s = (a, s)

unfoldable pub gets : {A : Type 0} → (OpsState → A) → Ops A
gets f s = (f s, s)

unfoldable pub modify : (OpsState → OpsState) → Ops Unit
modify f s = (tt, f s)

infixl 5 ◌>>=◌ ◌>>◌
-- opening this opens `pure`, `gets` and `modify` too
unfoldable pub ◌>>=◌ : {A B : Type 0} → Ops A → (A → Ops B) → Ops B
unfolding pure gets modify
◌>>=◌ m f s = let (a, s') = m s in f a s'

abbrev pub ◌>>◌ : {B : Type 0} → Ops Unit → Ops B → Ops B
m >> k = m >>= λ _. k

module _ (world : World) where
  unfoldable pub new_id : String → Ops String
  new_id prefix s = (prefix <> world.suffix s.drawn, record s { drawn = s.drawn + 1 })

  unfoldable pub stamp : Ops String
  stamp s = (world.clock s.readings, record s { readings = s.readings + 1 })
