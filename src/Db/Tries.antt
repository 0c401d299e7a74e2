-- ===== src/Db/Tries.antt =====
-- The retries of the worker on the database end: each item is tried a bounded number of times.
use jianghu_scrm.Db.Rows.{total, item_ids, same_ids, after-keys, after-All, after-total, tried_row}
use jianghu_scrm.Prelude.{
  ℕ, String, List, ◌≤◌, if◌then◌else◌, Option, ◌==◌, ◌≡◌, ◌-◌, ◌<◌, some, [], ◌∷◌, none, arith,
  find, Bool-cases, All, ◌+◌, leb, inl, inr, refl, find-holds, All-find, subst, sym,
}
use jianghu_scrm.Db.Tables.{DbTaskItem, Database}
use jianghu_scrm.Models.Queue.{BatchTagTaskPayload}
use jianghu_scrm.Db.Worker.{
  QueuedItem, outcome_of, process_queued_db_task_item, settle_item, is_claimable, process_claimed,
  try_item, claim_item, items_after, Outcome,
}
use jianghu_scrm.Crm.Books.{AreApart}
use jianghu_scrm.Db.Books.{claimable_queued}

-- An item was tried no more often than allowed, and less often while it is queued.
abbrev pub IsWithin : ℕ → DbTaskItem → Type 0
IsWithin max_attempts i =
    (i.attempts ≤ max_attempts) × (i.status ≡ "queued" → i.attempts < max_attempts)

-- the tries that an item has left
unfoldable pub tries_of : ℕ → DbTaskItem → ℕ
tries_of max_attempts i = if i.status == "queued" then max_attempts - i.attempts else 0

unfoldable pub tries_left : ℕ → List DbTaskItem → ℕ
unfolding total tries_of
tries_left max_attempts items = total (tries_of max_attempts) items

module _ (suffix : ℕ → String) (payload_of : String → Option BatchTagTaskPayload)
    (max_attempts delay : ℕ) where
  abbrev one_try : ℕ → QueuedItem → Database → Database
  one_try now q db = process_queued_db_task_item suffix payload_of max_attempts delay now q db

  -- Tries at any times of any selected items, by one worker or by several.
  unfoldable pub run_tries : List (ℕ × QueuedItem) → Database → Database
  run_tries [] db = db
  run_tries ((now, q) ∷ rest) db = run_tries rest (one_try now q db)

  unfoldable pub was_claimed : Option DbTaskItem → ℕ
  was_claimed none = 0
  was_claimed (some _) = 1

  -- how many of them find their item queued
  unfoldable pub tries_made : List (ℕ × QueuedItem) → Database → ℕ
  unfolding was_claimed
  tries_made [] db = 0
  tries_made ((now, q) ∷ rest) db =
      was_claimed (find (is_claimable q.id) db.task_items) + tries_made rest (one_try now q db)

  pub record IsBounded (db : Database) : Type 0 where
    pub apart : AreApart (item_ids db.task_items)
    pub within : All (IsWithin max_attempts) db.task_items

  outcome_cases :
      (attempts : ℕ) (error : Option String)
      → attempts ≤ max_attempts
      → (now delay : ℕ) (i : DbTaskItem) → i.attempts ≡ attempts
      → IsWithin max_attempts (settle_item now delay (outcome_of attempts max_attempts error) i)
        × (tries_of max_attempts (settle_item now delay (outcome_of attempts max_attempts error) i)
            ≤ max_attempts - attempts)
  unfolding outcome_of settle_item tries_of
  outcome_cases attempts none h now delay i e =
      ((omega (arith, h, e), λ q. absurd (cc)), omega arith)
  outcome_cases attempts (some message) h now delay i e =
      elim (Bool-cases (leb max_attempts attempts)) [
        | inl l ↦ rw l ((omega (arith, h, e), λ q. absurd (cc)), omega arith)
        | inr l ↦ rw l ((omega (arith, h, e), λ q. ground (arith, l, e)), omega (arith, e))
      ]

  queued_tries :
      (i : DbTaskItem) → i.status ≡ "queued" → tries_of max_attempts i ≡ max_attempts - i.attempts
  unfolding tries_of
  queued_tries i q = rw q

  uses_up :
      (after before tried own : ℕ) {attempts : ℕ}
      → after + own ≡ before + tried
      → own ≡ max_attempts - attempts
      → tried ≤ max_attempts - (attempts + 1)
      → attempts < max_attempts
      → 1 + after ≤ before
  uses_up after before tried own e o t m = omega arith

  left_total :
      (now : ℕ) (id : String) (outcome : Outcome) (items : List DbTaskItem) (i : DbTaskItem)
      → AreApart (item_ids items)
      → find (is_claimable id) items ≡ some i
      → tries_left max_attempts (items_after now delay id outcome items) + tries_of max_attempts i
        ≡ tries_left max_attempts items + tries_of max_attempts (tried_row now delay id outcome i)
  unfolding tries_left
  left_total now id outcome items i a f =
      after-total now delay id outcome (tries_of max_attempts) items i a f

  -- A try that finds its item queued uses up one of the tries left.
  claimed_try :
      (now : ℕ) (q : QueuedItem) (o : Option DbTaskItem) (db : Database)
      → find (is_claimable q.id) db.task_items ≡ o
      → IsBounded db
      → IsBounded (process_claimed suffix payload_of max_attempts delay now q o db)
        × (was_claimed o
              + tries_left max_attempts
                  (process_claimed suffix payload_of max_attempts delay now q o db).task_items
            ≤ tries_left max_attempts db.task_items)
  unfolding process_claimed was_claimed
  claimed_try now q none db f h = (h, omega arith)
  claimed_try now q (some i) db f h =
      let error = (try_item suffix payload_of now q db).0 in
      let outcome = outcome_of (i.attempts + 1) max_attempts error in
      let queued = (claimable_queued q.id i (find-holds (is_claimable q.id) db.task_items i f)).1 in
      let may : i.attempts < max_attempts =
        (All-find (IsWithin max_attempts) (is_claimable q.id) db.task_items i h.within f).1
          queued in
      let after =
        outcome_cases (i.attempts + 1) error (omega (arith, may)) now delay (claim_item now i)
          (unfold claim_item in refl) in
      (
        record {
          apart =
              subst AreApart (sym (same_ids _ _ (after-keys now delay q.id outcome db.task_items)))
                h.apart;
          within =
              after-All now delay q.id outcome (IsWithin max_attempts) db.task_items i h.apart f
                after.0 h.within;
        },
        uses_up (tries_left max_attempts (items_after now delay q.id outcome db.task_items))
            (tries_left max_attempts db.task_items)
            (tries_of max_attempts (tried_row now delay q.id outcome i)) (tries_of max_attempts i)
            (left_total now q.id outcome db.task_items i h.apart f) (queued_tries i queued) after.1
            may,
      )

  run_tries_bounds :
      (qs : List (ℕ × QueuedItem)) (db : Database)
      → IsBounded db
      → IsBounded (run_tries qs db)
        × (tries_made qs db + tries_left max_attempts (run_tries qs db).task_items
            ≤ tries_left max_attempts db.task_items)
  unfolding run_tries tries_made process_queued_db_task_item
  run_tries_bounds [] db h = (h, omega arith)
  run_tries_bounds ((now, q) ∷ rest) db h =
      let step = claimed_try now q (find (is_claimable q.id) db.task_items) db refl h in
      let more =
        run_tries_bounds rest
          (process_claimed suffix payload_of max_attempts delay now q
            (find (is_claimable q.id) db.task_items) db)
          step.0 in
      (more.0, omega (arith, step.1, more.1))

  -- Where the ids of the items differ and no item was tried more often than allowed, or as often while
  -- it is queued, the tries of any workers on the database at any times that find their item queued
  -- are, with those that are left after them, at most as many as were left before, and no item is then
  -- tried more often than allowed.
  pub run_tries-ends :
      (qs : List (ℕ × QueuedItem)) (db : Database)
      → IsBounded db
      → (tries_made qs db + tries_left max_attempts (run_tries qs db).task_items
          ≤ tries_left max_attempts db.task_items)
        × All (IsWithin max_attempts) (run_tries qs db).task_items
  run_tries-ends qs db h = let b = run_tries_bounds qs db h in (b.1, b.0.within)
