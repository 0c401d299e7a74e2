-- ===== src/Crm/Pool.antt =====
-- The customers in memory, the outside world that their functions read, and the audit events.
use jianghu_scrm.Prelude.{ℕ, ◌+◌, String, List, Option, ◌∷◌, ◌<>◌, ◌==◌, find, update_first}
use jianghu_scrm.Models.Crm.{AuditEvent, Customer}

-- `crypto/rand`, and the clock as `stamp`, `today` and `time.RFC3339` print its n-th reading.
pub record Outside : Type 0 where
  pub suffix : ℕ → String
  pub stamps : ℕ → String
  pub days : ℕ → String
  pub times : ℕ → String

pub record Pool : Type 0 where
  pub customers : List Customer
  pub drawn : ℕ  -- calls of `newID` so far
  pub readings : ℕ  -- readings of the clock so far

unfoldable pub find_customer : String → Pool → Option Customer
find_customer id pool = find (λ c. c.id == id) pool.customers

-- a write through the pointer that `findCustomer` returned
unfoldable pub put_customer : Customer → Pool → Pool
put_customer customer pool = record pool {
  customers = update_first (λ c. c.id == customer.id) (λ _. customer) pool.customers;
}

module _ (outside : Outside) where
  -- audit(stamp(), ...)
  unfoldable pub audit : Pool → String → String → String → String → String → AuditEvent
  audit pool action result operator people detail = record {
    id = "ev" <> outside.suffix pool.drawn;
    time = outside.stamps pool.readings;
    action = action;
    result = result;
    operator = operator;
    people = people;
    detail = detail;
  }

-- the identifier and the reading that an audit event takes
unfoldable pub tick : Pool → Pool
tick pool = record pool { drawn = pool.drawn + 1; readings = pool.readings + 1 }

unfoldable pub prepend_audit : AuditEvent → Customer → Customer
prepend_audit event c = record c { timeline = event ∷ c.timeline }
