-- ===== src/Ops/History/Handled.antt =====
-- The lifecycle logs over the operations on tasks and follow-ups.
use jianghu_scrm.Prelude.{
  String, Option, none, some, ◌≡◌, refl, ap, ◌∙◌, find-key, if◌then◌else◌, Bool,
}
use jianghu_scrm.Models.OpsCustomers.{OpsCustomer}
use jianghu_scrm.Models.OpsWork.{OpsTask}
use jianghu_scrm.Ops.State.{World, Ops, OpsState, ◌>>=◌, modify, pure}
use jianghu_scrm.Ops.Ensures.{
  Ensures, Ensures-pure, Ensures-gets, Ensures-modify, Ensures-if, Ensures-bind, Keeps,
  Keeps-modify, keeps_rules,
}
use jianghu_scrm.Ops.Find.{find_ops_customer, write_customer, write_task}
use jianghu_scrm.Ops.TaskStatus.{move_customer, tell_customer, set_ops_task_status}
use jianghu_scrm.Ops.Followups.{FollowUp, add_ops_followup}
use jianghu_scrm.Ops.History.{IsLogged, IsCurrent}
use jianghu_scrm.Ops.History.Frame.{
  stages, stamp-stages, new_id-stages, add_ops_timeline-stages, add_ops_task_log-stages,
  create_ops_task-stages, resolve_ops_exception_by_task-stages,
}
use jianghu_scrm.Ops.History.Change.{
  Stays, IsLogged-of_same, find_ops_customer_of_customers, write_customer-IsLogged,
  write_customer-IsCurrent, change_ops_customer_stage-Stays,
}
use jianghu_scrm.Ops.Stage.{change_ops_customer_stage}

-- What a search finds is current.
pub find-IsCurrent :
    (id : String) (c : OpsCustomer) (s : OpsState) → find_ops_customer id s ≡ some c → IsCurrent c s
unfolding find_ops_customer
find-IsCurrent id c s f = simp (find-key (λ x. x.id) id s.ops_customers f) f

module _ {A : Type 0} (m : Ops A) (k : Keeps stages m) where
  pub Logged-frame : Ensures IsLogged m (λ _. IsLogged)
  Logged-frame = record {
    at = λ s h. IsLogged-of_same s (m s).1 (ap (λ p. p.0) (k.at s)) (ap (λ p. p.1) (k.at s)) h;
  }

  Stays-frame : (c : OpsCustomer) → Ensures (Stays c) m (λ _. Stays c)
  Stays-frame c = record {
    at = λ s h. (
      find_ops_customer_of_customers s (m s).1 c.id (ap (λ p. p.0) (k.at s)) ∙ h.0,
      IsLogged-of_same s (m s).1 (ap (λ p. p.0) (k.at s)) (ap (λ p. p.1) (k.at s)) h.1,
    );
  }

module _ (world : World) where
  stay : (c : OpsCustomer) → Ensures (Stays c) (pure c) Stays
  stay c = Ensures-pure c (λ s h. h)

  write_task-stages : (task : OpsTask) → Keeps stages (modify (write_task task))
  unfolding write_task
  write_task-stages task = Keeps-modify _ (λ s. refl)

  move_customer-Stays :
      (task : OpsTask) (status : String) (c : OpsCustomer)
      → Ensures (Stays c) (move_customer world task status c) Stays
  unfolding move_customer
  move_customer-Stays task status c =
      search (Ensures-if, change_ops_customer_stage-Stays world c, stay c)

  -- What `tell_customer` is handed is what a search for the task's customer finds.
  abbrev Found : String → Option OpsCustomer → OpsState → Type 0
  Found id o s = (find_ops_customer id s ≡ o) × IsLogged s

  told :
      (task : OpsTask) (status action remark : String) (c : OpsCustomer)
      → Ensures (Stays c) (tell_customer world task status action remark (some c)) (λ _. IsLogged)
  unfolding tell_customer
  told task status action remark c =
      Ensures-bind (Stays-frame _ (add_ops_timeline-stages world _ _ _ _ _ _ _) c) λ _.
        Ensures-bind (move_customer-Stays task status c) λ moved.
          Ensures-bind (Stays-frame _ (stamp-stages world) moved) λ t.
            Ensures-bind (Stays-frame _ (stamp-stages world) moved)
              λ u. Ensures-modify _ (λ s h. write_customer-IsLogged moved _ s h.0 refl refl h.1)

  tell_customer-IsLogged :
      (task : OpsTask) (status action remark id : String) (o : Option OpsCustomer)
      → Ensures (Found id o) (tell_customer world task status action remark o) (λ _. IsLogged)
  tell_customer-IsLogged task status action remark id none =
      unfold tell_customer in Ensures-pure tt (λ s h. h.1)
  tell_customer-IsLogged task status action remark id (some c) = record {
    at = λ s h. (told task status action remark c).at s (find-IsCurrent id c s h.0, h.1);
  }

  pub set_ops_task_status-IsLogged :
      (task : OpsTask) (status action remark : String)
      → Ensures IsLogged (set_ops_task_status world task status action remark) (λ _. IsLogged)
  unfolding set_ops_task_status
  set_ops_task_status-IsLogged task status action remark =
      Ensures-bind (Logged-frame _ (stamp-stages world)) λ now.
        Ensures-bind (Logged-frame _ (write_task-stages _)) λ _.
          Ensures-bind (Logged-frame _ (add_ops_task_log-stages world _ _ _ _ _)) λ _.
            Ensures-bind (Ensures-gets {Q = Found task.customer_id} _ (λ s h. (refl, h))) λ found.
              Ensures-bind (tell_customer-IsLogged _ _ _ _ _ found) λ _.
                Ensures-bind
                  (Logged-frame _ (search (keeps_rules, resolve_ops_exception_by_task-stages)))
                  λ _. Ensures-pure _ (λ s h. h)

  written :
      (c d : OpsCustomer)
      → d.id ≡ c.id
      → d.lifecycle_stage ≡ c.lifecycle_stage
      → Ensures (Stays c) (modify (write_customer d)) (λ _. Stays d)
  written c d e k =
      Ensures-modify _
        λ s h. (write_customer-IsCurrent c d s h.0 e, write_customer-IsLogged c d s h.0 e k h.1)

  maybe_changed :
      (b : Bool) (c : OpsCustomer) (stage reason operator_id operator_name : String)
      → Ensures
          (Stays c)
          (if b
            then (do
              _ ← change_ops_customer_stage world c stage reason operator_id operator_name
              pure tt)
            else pure tt)
          (λ _. IsLogged)
  maybe_changed b c stage reason operator_id operator_name =
      Ensures-if b _ _
        (λ _.
          Ensures-bind
            (change_ops_customer_stage-Stays world c stage reason operator_id operator_name)
            (λ d. Ensures-pure tt (λ s h. h.1)))
        (λ _. Ensures-pure tt (λ s h. h.1))

  pub add_ops_followup-IsLogged :
      (c : OpsCustomer) (input : FollowUp)
      → Ensures (Stays c) (add_ops_followup world c input) (λ _. IsLogged)
  unfolding add_ops_followup
  add_ops_followup-IsLogged c input = Ensures-bind (Stays-frame _ (new_id-stages world _) c) λ id.
      Ensures-bind (Stays-frame _ (stamp-stages world) c) λ now.
        Ensures-bind (Stays-frame _ (Keeps-modify _ (λ s. refl)) c) λ _.
          Ensures-bind (written c _ refl refl) λ _.
            Ensures-bind (Stays-frame _ (add_ops_timeline-stages world _ _ _ _ _ _ _) _) λ _.
              Ensures-bind (search maybe_changed) λ _.
                Ensures-bind (Logged-frame _ (search (keeps_rules, create_ops_task-stages)))
                  λ _. Ensures-pure _ (λ s h. h)
