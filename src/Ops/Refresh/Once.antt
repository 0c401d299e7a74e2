-- ===== src/Ops/Refresh/Once.antt =====
-- How many exceptions are open for one kind, customer and task, over a refresh.
use jianghu_scrm.Prelude.{
  ℕ, ◌+◌, ◌≤◌, String, Bool, true, false, Option, none, some, List, [], ◌∷◌, ◌≡◌, refl, ◌∙◌, ◌==◌,
  ◌&&◌, any, count, arith, eq_iff, if◌then◌else◌,
}
use jianghu_scrm.Models.OpsCustomers.{OpsCustomer}
use jianghu_scrm.Models.OpsWork.{OpsTask, OpsException}
use jianghu_scrm.Ops.State.{World, Ops, OpsState, ◌>>=◌, pure}
use jianghu_scrm.Ops.Ensures.{Ensures, Ensures-pure, Ensures-gets, Ensures-if, Ensures-bind}
use jianghu_scrm.Ops.Exceptions.{
  is_open_exception, has_open_exception, place, name_scope, for_each, add_exception,
  ensure_ops_exception, check_task, check_customer, refresh_ops_exceptions,
}

-- For each kind, customer and task at most one exception is open.
pub record IsRaisedOnce (s : OpsState) : Type 0 where
  pub once :
      (kind customer_id task_id : String)
      → count (is_open_exception kind customer_id task_id) s.ops_exceptions ≤ 1

count-none_open : {A : Type 0} (p : A → Bool) (xs : List A) → any p xs ≡ false → count p xs ≡ 0
unfolding any count
count-none_open p [] h = refl
count-none_open p (x ∷ xs) h = ground (arith, count-none_open p xs)

counted : (a b : Bool) (n : ℕ) → a ≡ b → (if a then 1 else 0) + n ≡ n + (if b then 1 else 0)
counted a b n e = ground (arith, e)

still_pending : (a b c : Bool) → (a && b && c && true && true) ≡ (a && b && c)
still_pending a b c = ground arith

module _ (world : World) where
  module _ (kind customer_id task_id title scope description severity suggestion : String) where
    abbrev adding : Ops Unit
    adding =
        add_exception world kind customer_id task_id title scope description severity suggestion

    placed-open :
        (k c t : String) (o : Option OpsCustomer) (e : OpsException)
        → is_open_exception k c t (name_scope scope (place o e)) ≡ is_open_exception k c t e
    unfolding place name_scope is_open_exception
    placed-open k c t none e = refl
    placed-open k c t (some x) e = refl

    adding-count :
        (k c t : String) (s : OpsState)
        → count (is_open_exception k c t) (adding s).1.ops_exceptions
          ≡ count (is_open_exception k c t) s.ops_exceptions
            + (if kind == k && customer_id == c && task_id == t then 1 else 0)
    unfolding add_exception count ◌>>=◌ is_open_exception
    adding-count k c t s =
        counted _ _ _
          (placed-open k c t _ _ ∙ still_pending (kind == k) (customer_id == c) (task_id == t))

    open_once :
        (known : Bool) (s : OpsState)
        → has_open_exception kind customer_id task_id s ≡ known
        → IsRaisedOnce s
        → IsRaisedOnce ((if known then pure tt else adding) s).1
    unfolding pure has_open_exception
    open_once true s e h = h
    open_once false s e h = record {
      once = λ k c t. ground (
        arith,
        adding-count k c t s,
        h.once k c t,
        count-none_open (is_open_exception kind customer_id task_id) s.ops_exceptions e,
        eq_iff kind k,
        eq_iff customer_id c,
        eq_iff task_id t,
      );
    }

    ensure_ops_exception-IsRaisedOnce :
        Ensures IsRaisedOnce
          (ensure_ops_exception world kind customer_id task_id title scope description severity
            suggestion)
          (λ _. IsRaisedOnce)
    unfolding ensure_ops_exception ◌>>=◌
    ensure_ops_exception-IsRaisedOnce = record { at = λ s h. open_once _ s refl h }

  done : Ensures IsRaisedOnce (pure tt) (λ _. IsRaisedOnce)
  done = Ensures-pure tt (λ s h. h)

  check_task-IsRaisedOnce :
      (t : OpsTask) → Ensures IsRaisedOnce (check_task world t) (λ _. IsRaisedOnce)
  unfolding check_task
  check_task-IsRaisedOnce t =
      Ensures-if (t.status == "overdue") _ _
        (λ _. ensure_ops_exception-IsRaisedOnce _ _ _ _ _ _ _ _) (λ _. done)

  check_customer-IsRaisedOnce :
      (c : OpsCustomer) → Ensures IsRaisedOnce (check_customer world c) (λ _. IsRaisedOnce)
  unfolding check_customer
  check_customer-IsRaisedOnce c =
      Ensures-if (c.lifecycle_stage == "first_follow_pending") _ _
        (λ _. ensure_ops_exception-IsRaisedOnce _ _ _ _ _ _ _ _)
        λ _.
          Ensures-if (c.lifecycle_stage == "dormant") _ _
            (λ _. ensure_ops_exception-IsRaisedOnce _ _ _ _ _ _ _ _) (λ _. done)

  for_each-IsRaisedOnce :
      {A : Type 0} (body : A → Ops Unit) (rows : List A)
      → ((a : A) → Ensures IsRaisedOnce (body a) (λ _. IsRaisedOnce))
      → Ensures IsRaisedOnce (for_each body rows) (λ _. IsRaisedOnce)
  unfolding for_each
  for_each-IsRaisedOnce body [] h = done
  for_each-IsRaisedOnce body (row ∷ rows) h =
      Ensures-bind (h row) λ _. for_each-IsRaisedOnce body rows h

  refresh-IsRaisedOnce : Ensures IsRaisedOnce (refresh_ops_exceptions world) (λ _. IsRaisedOnce)
  unfolding refresh_ops_exceptions
  refresh-IsRaisedOnce = Ensures-bind (Ensures-gets {Q = λ _. IsRaisedOnce} _ (λ s h. h)) λ tasks.
      Ensures-bind (for_each-IsRaisedOnce _ tasks check_task-IsRaisedOnce) λ _.
        Ensures-bind (Ensures-gets {Q = λ _. IsRaisedOnce} _ (λ s h. h))
          λ customers. for_each-IsRaisedOnce _ customers check_customer-IsRaisedOnce

  -- Where at most one exception is open for each kind, customer and task, that is still so after a
  -- refresh.
  pub refresh_ops_exceptions-IsRaisedOnce :
      (s : OpsState) → IsRaisedOnce s → IsRaisedOnce (refresh_ops_exceptions world s).1
  refresh_ops_exceptions-IsRaisedOnce s h = refresh-IsRaisedOnce.at s h
