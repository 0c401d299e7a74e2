-- ===== src/Ops/History/Change.antt =====
-- The writes to a customer and the stage change.
use mathlib.Core.Option
use jianghu_scrm.Prelude.{
  String, false, some, ◌≡◌, refl, sym, ◌∙◌, ◌⊎◌, [], ◌∷◌, ◌==◌, ◌+◌, ◌<>◌, arith, if◌then◌else◌,
  inl, inr, eq_iff, eq_refl, find-update_first, ap,
}
use jianghu_scrm.Models.OpsCustomers.{OpsCustomer, OpsLifecycleLog}
use jianghu_scrm.Utils.{first_non_empty}
use jianghu_scrm.Ops.Journal.{ops_operator_id, ops_operator_name}
use jianghu_scrm.Ops.State.{World, OpsState, ◌>>=◌}
use jianghu_scrm.Ops.Find.{find_ops_customer, write_customer}
use jianghu_scrm.Ops.Stage.{change_ops_customer_stage}
use jianghu_scrm.Ops.History.{leads_to, IsLogged, IsCurrent}
use jianghu_scrm.Ops.History.Frame.{stages, ensure_revisit-stages, add_ops_timeline-stages}
use jianghu_scrm.Ops.Ensures.{Ensures}

-- A write through the pointer to a customer, seen through a search.
pub find_ops_customer-write_customer :
    (c : OpsCustomer) (id : String) (s : OpsState)
    → find_ops_customer id (write_customer c s) ≡ (
        if c.id == id then Option.map (λ _. c) (find_ops_customer id s) else find_ops_customer id s)
unfolding find_ops_customer write_customer
find_ops_customer-write_customer c id s = find-update_first (λ x. x.id) c id s.ops_customers

-- Equal customers are searched alike.
pub find_ops_customer_of_customers :
    (s t : OpsState) (id : String)
    → t.ops_customers ≡ s.ops_customers
    → find_ops_customer id t ≡ find_ops_customer id s
unfolding find_ops_customer
find_ops_customer_of_customers s t id e = rw e

pub IsLogged-of_same :
    (s t : OpsState)
    → t.ops_customers ≡ s.ops_customers
    → t.ops_lifecycle_logs ≡ s.ops_lifecycle_logs
    → IsLogged s
    → IsLogged t
IsLogged-of_same s t e l h = record {
  at = λ id c f. rw l (h.at id c (sym (find_ops_customer_of_customers s t id e) ∙ f));
}

-- After a write to the customer that `c` was, a search finds the new value or what it found.
pub written_cases :
    (c d x : OpsCustomer) (id : String) (s : OpsState)
    → IsCurrent c s
    → d.id ≡ c.id
    → find_ops_customer id (write_customer d s) ≡ some x
    → ((x ≡ d) × (c.id ≡ id)) ⊎ ((find_ops_customer id s ≡ some x) × ((c.id == id) ≡ false))
written_cases c d x id s cur e f =
    ground (arith, find_ops_customer-write_customer d id s, eq_iff d.id id, eq_iff c.id id)

pub write_customer-IsCurrent :
    (c d : OpsCustomer) (s : OpsState)
    → IsCurrent c s
    → d.id ≡ c.id
    → IsCurrent d (write_customer d s)
write_customer-IsCurrent c d s cur e =
    find_ops_customer-write_customer d d.id s ∙ rw (eq_refl, e, cur)

-- A write that keeps the stage keeps the invariant.
pub write_customer-IsLogged :
    (c d : OpsCustomer) (s : OpsState)
    → IsCurrent c s
    → d.id ≡ c.id
    → d.lifecycle_stage ≡ c.lifecycle_stage
    → IsLogged s
    → IsLogged (write_customer d s)
unfolding write_customer
write_customer-IsLogged c d s cur e k h = record {
  at = λ id x f. elim (written_cases c d x id s cur e f) [
    | inl (x_d, c_id) ↦ rw (x_d, k) (h.at id c (rw (← c_id) cur))
    | inr (old, _) ↦ h.at id x old
  ];
}

-- A write together with its log keeps the invariant.
IsLogged-write :
    (c d : OpsCustomer) (log : OpsLifecycleLog) (s t : OpsState)
    → IsCurrent c s
    → d.id ≡ c.id
    → log.customer_id ≡ c.id
    → log.stage_before ≡ c.lifecycle_stage
    → log.stage_after ≡ d.lifecycle_stage
    → t.ops_customers ≡ (write_customer d s).ops_customers
    → t.ops_lifecycle_logs ≡ log ∷ s.ops_lifecycle_logs
    → IsLogged s
    → IsLogged t
unfolding leads_to
IsLogged-write c d log s t cur same who before after e l h = record {
  at = λ id x f.
      rw l
        (elim (written_cases c d x id s cur same
          (sym (find_ops_customer_of_customers _ t id e) ∙ f)) [
            | inl (x_d, c_id) ↦ ground (
              arith,
              h.at id c (rw (← c_id) cur),
              eq_iff log.customer_id id,
              eq_refl d.lifecycle_stage,
            )
            | inr (old, other) ↦ ground (arith, h.at id x old)
          ]);
}

-- The pointer shows `c`, and the logs are in step.
abbrev pub Stays : OpsCustomer → OpsState → Type 0
Stays c s = IsCurrent c s × IsLogged s

module _ (world : World) (c : OpsCustomer) (stage reason operator_id operator_name : String) where
  abbrev changed : OpsState → OpsCustomer × OpsState
  changed = change_ops_customer_stage world c stage reason operator_id operator_name

  -- the log that the change writes
  abbrev log_row : OpsState → OpsLifecycleLog
  log_row s = record {
    id = "cl" <> world.suffix s.drawn;
    customer_id = c.id;
    stage_before = c.lifecycle_stage;
    stage_after = stage;
    reason = reason;
    operator_id = first_non_empty (operator_id ∷ ops_operator_id ∷ []);
    operator_name = first_non_empty (operator_name ∷ ops_operator_name ∷ []);
    created_at = world.clock (s.readings + 1);
  }

  pub change_ops_customer_stage-stages :
      (s : OpsState)
      → stages (changed s).1
        ≡ ((write_customer (changed s).0 s).ops_customers, log_row s ∷ s.ops_lifecycle_logs)
  unfolding change_ops_customer_stage write_customer ◌>>=◌
  change_ops_customer_stage-stages s =
      (ensure_revisit-stages world _ _).at _ ∙ (add_ops_timeline-stages world _ _ _ _ _ _ _).at _

  -- The stage change leaves the new value at the pointer, and the logs in step.
  pub change_ops_customer_stage-Stays :
      Ensures
        (Stays c)
        (change_ops_customer_stage world c stage reason operator_id operator_name)
        Stays
  unfolding change_ops_customer_stage ◌>>=◌
  change_ops_customer_stage-Stays = record {
    at = λ s (cur, h).
        let customers = ap (λ p. p.0) (change_ops_customer_stage-stages s) in
        let logs = ap (λ p. p.1) (change_ops_customer_stage-stages s) in
        (
          find_ops_customer_of_customers (write_customer (changed s).0 s) (changed s).1 _ customers
              ∙ write_customer-IsCurrent c (changed s).0 s cur refl,
          IsLogged-write c (changed s).0 (log_row s) s (changed s).1 cur refl refl refl refl
              customers logs h,
        );
  }
