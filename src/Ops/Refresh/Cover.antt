-- ===== src/Ops/Refresh/Cover.antt =====
-- The refresh of the operation exceptions: what it raises, and that a second one raises nothing.
use jianghu_scrm.Prelude.{
  String, Bool, true, ◌≡◌, refl, ◌||◌, ◌==◌, arith, inl, inr, if◌then◌else◌, any, Bool-cases, false,
  Option, some, none, eq_refl, ◌<>◌,
}
use jianghu_scrm.Models.OpsCustomers.{OpsCustomer}
use jianghu_scrm.Models.OpsWork.{OpsTask, OpsException}
use jianghu_scrm.Ops.State.{World, Ops, OpsState, ◌>>=◌, pure}
use jianghu_scrm.Ops.Exceptions.{
  is_open_exception, has_open_exception, place, name_scope, add_exception, ensure_ops_exception,
  check_task, check_customer,
}

-- What the centre promises after a refresh: a late task, and a customer that waits for its first
-- follow-up or that sleeps, has an open exception.
unfoldable pub task_covered : OpsState → OpsTask → Bool
task_covered s t =
    if t.status == "overdue" then has_open_exception "task_overdue" t.customer_id t.id s else true

unfoldable pub customer_covered : OpsState → OpsCustomer → Bool
customer_covered s c =
    if c.lifecycle_stage == "first_follow_pending"
    then has_open_exception "first_follow_timeout" c.id "" s
    else if c.lifecycle_stage == "dormant"
    then has_open_exception "customer_dormant" c.id "" s
    else true

-- Every open exception of `s` is open in `t`.
pub record Grows (s t : OpsState) : Type 0 where
  pub still :
      (kind customer_id task_id : String)
      → has_open_exception kind customer_id task_id s ≡ true
      → has_open_exception kind customer_id task_id t ≡ true

lead : (b c : Bool) → b ≡ true → (b || c) ≡ true
lead b c e = rw e

pub Grows-refl : (s : OpsState) → Grows s s
Grows-refl s = record { still = λ kind c t h. h }

pub Grows-trans : (s t u : OpsState) → Grows s t → Grows t u → Grows s u
Grows-trans s t u a b = record { still = λ kind c i h. b.still kind c i (a.still kind c i h) }

module _ (world : World) where
  module _ (kind customer_id task_id title scope description severity suggestion : String) where
    fresh-open :
        (e : OpsException)
        → e.exception_type ≡ kind
        → e.customer_id ≡ customer_id
        → e.task_id ≡ task_id
        → e.status ≡ "pending"
        → is_open_exception kind customer_id task_id e ≡ true
    unfolding is_open_exception
    fresh-open e k c t p = rw (k, c, t, p, eq_refl kind, eq_refl customer_id, eq_refl task_id)

    abbrev raised : OpsState → OpsState
    raised s =
        (ensure_ops_exception world kind customer_id task_id title scope description severity
          suggestion s).1

    added-Grows :
        (s : OpsState)
        → Grows s
            (add_exception world kind customer_id task_id title scope description severity
              suggestion s).1
    unfolding add_exception has_open_exception any ◌>>=◌
    added-Grows s = record { still = λ k c i h. ground (arith, h) }

    -- what is added is open itself
    added_item-open :
        (o : Option OpsCustomer) (e : OpsException)
        → is_open_exception kind customer_id task_id e ≡ true
        → is_open_exception kind customer_id task_id (name_scope scope (place o e)) ≡ true
    unfolding place name_scope is_open_exception
    added_item-open none e h = h
    added_item-open (some c) e h = h

    abbrev adding : Ops Unit
    adding =
        add_exception world kind customer_id task_id title scope description severity suggestion

    abbrev row : OpsState → OpsException
    row s = record {
      id = "oe" <> world.suffix s.drawn;
      exception_type = kind;
      title = title;
      description = description;
      severity = severity;
      region_id = "";
      region_name = "";
      store_id = "";
      store_name = "";
      customer_id = customer_id;
      customer_name = "";
      task_id = task_id;
      assigned_to = "";
      status = "pending";
      suggestion = suggestion;
      created_at = world.clock s.readings;
      resolved_at = "";
    }

    added-open : (s : OpsState) → has_open_exception kind customer_id task_id (adding s).1 ≡ true
    unfolding add_exception has_open_exception any ◌>>=◌
    added-open s = lead _ _ (added_item-open _ _ (fresh-open (row s) refl refl refl refl))

    -- the branch that `ensureOpsExceptionLocked` takes when an open one is `known` or not
    raise :
        (known : Bool) (s : OpsState)
        → has_open_exception kind customer_id task_id s ≡ known
        → Grows s ((if known then pure tt else adding) s).1
          × (has_open_exception kind customer_id task_id ((if known then pure tt else adding) s).1
              ≡ true)
    unfolding pure
    raise true s e = (Grows-refl s, e)
    raise false s e = (added-Grows s, added-open s)

    raised-Grows : (s : OpsState) → Grows s (raised s)
    unfolding ensure_ops_exception ◌>>=◌
    raised-Grows s = (raise _ s refl).0

    raised-open : (s : OpsState) → has_open_exception kind customer_id task_id (raised s) ≡ true
    unfolding ensure_ops_exception ◌>>=◌
    raised-open s = (raise _ s refl).1

    -- A second call finds the first one's exception.
    left :
        (known : Bool) (s : OpsState) → known ≡ true → ((if known then pure tt else adding) s).1 ≡ s
    unfolding pure
    left true s e = refl
    left false s e = cc

    raised-same :
        (s : OpsState) → has_open_exception kind customer_id task_id s ≡ true → raised s ≡ s
    unfolding ensure_ops_exception ◌>>=◌
    raised-same s e = left _ s e

  -- one step of the loops
  pub check_task-Grows : (t : OpsTask) (s : OpsState) → Grows s (check_task world t s).1
  unfolding check_task pure
  check_task-Grows t s = elim (Bool-cases (t.status == "overdue")) [
    | inl e ↦ rw e (raised-Grows _ _ _ _ _ _ _ _ s)
    | inr e ↦ rw e (Grows-refl s)
  ]

  pub check_task-covered :
      (t : OpsTask) (s : OpsState) → task_covered (check_task world t s).1 t ≡ true
  unfolding check_task pure task_covered
  check_task-covered t s = elim (Bool-cases (t.status == "overdue")) [
    | inl e ↦ rw e (raised-open _ _ _ _ _ _ _ _ s)
    | inr e ↦ rw e
  ]

  pub check_task-same :
      (t : OpsTask) (s : OpsState) → task_covered s t ≡ true → (check_task world t s).1 ≡ s
  unfolding check_task pure task_covered
  check_task-same t s h = elim (Bool-cases (t.status == "overdue")) [
    | inl e ↦ rw e (raised-same _ _ _ _ _ _ _ _ s (rw e at h))
    | inr e ↦ rw e
  ]

pub task_covered-Grows :
    (t : OpsTask) (s u : OpsState) → Grows s u → task_covered s t ≡ true → task_covered u t ≡ true
unfolding task_covered
task_covered-Grows t s u g h = ground (arith, g.still "task_overdue" t.customer_id t.id)

module _ (world : World) where
  pub check_customer-Grows : (c : OpsCustomer) (s : OpsState) → Grows s (check_customer world c s).1
  unfolding check_customer pure
  check_customer-Grows c s = elim (Bool-cases (c.lifecycle_stage == "first_follow_pending")) [
    | inl e ↦ rw e (raised-Grows world _ _ _ _ _ _ _ _ s)
    | inr e ↦ rw e (elim (Bool-cases (c.lifecycle_stage == "dormant")) [
      | inl d ↦ rw d (raised-Grows world _ _ _ _ _ _ _ _ s)
      | inr d ↦ rw d (Grows-refl s)
    ])
  ]

  pub check_customer-covered :
      (c : OpsCustomer) (s : OpsState) → customer_covered (check_customer world c s).1 c ≡ true
  unfolding check_customer pure customer_covered
  check_customer-covered c s = elim (Bool-cases (c.lifecycle_stage == "first_follow_pending")) [
    | inl e ↦ rw e (raised-open world _ _ _ _ _ _ _ _ s)
    | inr e ↦ rw e (elim (Bool-cases (c.lifecycle_stage == "dormant")) [
      | inl d ↦ rw d (raised-open world _ _ _ _ _ _ _ _ s)
      | inr d ↦ rw d
    ])
  ]

  pub check_customer-same :
      (c : OpsCustomer) (s : OpsState)
      → customer_covered s c ≡ true
      → (check_customer world c s).1 ≡ s
  unfolding check_customer pure customer_covered
  check_customer-same c s h = elim (Bool-cases (c.lifecycle_stage == "first_follow_pending")) [
    | inl e ↦ rw e (raised-same world _ _ _ _ _ _ _ _ s (rw e at h))
    | inr e ↦ rw e (elim (Bool-cases (c.lifecycle_stage == "dormant")) [
      | inl d ↦ rw d (raised-same world _ _ _ _ _ _ _ _ s (rw (e, d) at h))
      | inr d ↦ rw d
    ])
  ]

pub customer_covered-Grows :
    (c : OpsCustomer) (s u : OpsState)
    → Grows s u
    → customer_covered s c ≡ true
    → customer_covered u c ≡ true
unfolding customer_covered
customer_covered-Grows c s u g h =
    ground (arith, g.still "first_follow_timeout" c.id "", g.still "customer_dormant" c.id "")
