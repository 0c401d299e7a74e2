-- ===== src/Db/Rounds.antt =====
-- A round of the worker on the database keeps the books of all tasks.
use jianghu_scrm.Prelude.{
  ℕ, String, List, Option, All, find, ◌∷◌, ◌≡◌, some, map, Bool-cases, [], subst, ◌==◌, none, sym,
  refl, ◌||◌, ◌+◌, inl, inr, find-holds, All-find, Bool, false, All-take, All-append, if◌then◌else◌,
  true, eq_refl, All-stable_sort, ◌∙◌, ap,
}
use jianghu_scrm.Db.Tables.{Database, DbTaskItem, DbTask}
use jianghu_scrm.Crm.Books.{AreApart, IsOther}
use jianghu_scrm.Models.Queue.{BatchTagTaskPayload}
use jianghu_scrm.Db.Rows.{item_ids, item_keys, after-keys, same_ids}
use jianghu_scrm.Db.Worker.{
  QueuedItem, join_task, process_claimed, process_items, process_queued_db_task_item, is_claimable,
  Outcome, outcome_of, try_item, selected, items_after, due_items, process_queued_db_work,
  process_queued_db_task_items, is_due_item, process_queued_db_events,
}
use jianghu_scrm.Db.Books.{
  IsOf, IsTallied, claimable_queued, tasks_after-map, task_row, IsTallied-row,
}

-- The ids of the items differ, and the counts of each task are those of its items.
pub record IsBalanced (db : Database) : Type 0 where
  pub apart : AreApart (item_ids db.task_items)
  pub tallied : All (IsTallied db.task_items) db.tasks

-- The selected items are rows of the table, or were.
abbrev pub AreSelected : List DbTaskItem → List QueuedItem → Type 0
AreSelected items qs = All (λ q. All (IsOf q) (item_keys items)) qs

clash : (x y : String) → x ≡ y → (x == y) ≡ false → ⊥
clash x y e h = let t : true ≡ false = sym (eq_refl y) ∙ ap (λ z. z == y) (sym e) ∙ h in cc

if-All :
    {A : Type 0} (P : A → Type 0) (b : Bool) (xs : List A) → All P xs → All P (if b then xs else [])
if-All P true xs a = a
if-All P false xs a = tt

All-seconds :
    {A B : Type 0} (P : B → Type 0) (ps : List (A × B))
    → All (λ p. P p.1) ps
    → All P (map (λ p. p.1) ps)
All-seconds P [] a = tt
All-seconds P (p ∷ ps) a = (a.0, All-seconds P ps a.1)

-- no row behind the first has its id
apart_keys :
    (i : DbTaskItem) (rest : List DbTaskItem)
    → All (IsOther i.id) (item_ids rest)
    → All (λ k. k.0 ≡ i.id → k.1 ≡ i.task_id) (item_keys rest)
apart_keys i [] a = tt
apart_keys i (x ∷ rest) a = (λ e. absurd (clash x.id i.id e a.0), apart_keys i rest a.1)

-- Items of the rows behind the first have another id than it.
with_head :
    (i : DbTaskItem) (rest : List DbTaskItem) (ps : List (ℕ × QueuedItem))
    → All (λ p. IsOther i.id p.1.id) ps
    → All (λ p. All (IsOf p.1) (item_keys rest)) ps
    → All (λ p. All (IsOf p.1) (item_keys (i ∷ rest))) ps
with_head i rest [] a b = tt
with_head i rest (p ∷ ps) a b =
    ((λ e. absurd (clash p.1.id i.id (sym e) a.0), b.0), with_head i rest ps a.1 b.1)

IsTallied-All :
    (items items' : List DbTaskItem) (f : DbTask → DbTask) (tasks : List DbTask)
    → ((t : DbTask) → IsTallied items t → IsTallied items' (f t))
    → All (IsTallied items) tasks
    → All (IsTallied items') (map f tasks)
IsTallied-All items items' f [] h a = tt
IsTallied-All items items' f (t ∷ rest) h a = (h t a.0, IsTallied-All items items' f rest h a.1)

All-keys :
    (P : String × String → Type 0) (items : List DbTaskItem)
    → All P (item_keys items)
    → All (λ i. P (i.id, i.task_id)) items
All-keys P [] a = tt
All-keys P (i ∷ rest) a = (a.0, All-keys P rest a.1)

module _ (suffix : ℕ → String) (payload_of : String → Option BatchTagTaskPayload)
    (max_attempts delay now : ℕ) where
  process_claimed-IsBalanced :
      (q : QueuedItem) (o : Option DbTaskItem) (db : Database)
      → find (is_claimable q.id) db.task_items ≡ o
      → All (IsOf q) (item_keys db.task_items)
      → IsBalanced db
      → IsBalanced (process_claimed suffix payload_of max_attempts delay now q o db)
  unfolding process_claimed
  process_claimed-IsBalanced q none db f k h = h
  process_claimed-IsBalanced q (some i) db f k h =
      let outcome : Outcome =
        outcome_of (i.attempts + 1) max_attempts (try_item suffix payload_of now q db).0 in
      let claimed = claimable_queued q.id i (find-holds (is_claimable q.id) db.task_items i f) in
      let own : i.task_id ≡ q.task_id =
        All-find (λ x. IsOf q (x.id, x.task_id)) (is_claimable q.id) db.task_items i
          (All-keys (IsOf q) db.task_items k) f claimed.0 in
      record {
        apart =
            subst AreApart (sym (same_ids _ _ (after-keys now delay q.id outcome db.task_items)))
              h.apart;
        tallied =
            subst (All (IsTallied (items_after now delay q.id outcome db.task_items)))
              (sym (tasks_after-map now q.task_id outcome db.tasks))
              (IsTallied-All db.task_items _ (task_row now q.task_id outcome) db.tasks
                (λ t. IsTallied-row now delay q outcome db.task_items i t h.apart f claimed own)
                h.tallied);
      }

  process_claimed-keys :
      (q : QueuedItem) (o : Option DbTaskItem) (db : Database)
      → item_keys (process_claimed suffix payload_of max_attempts delay now q o db).task_items
        ≡ item_keys db.task_items
  unfolding process_claimed
  process_claimed-keys q none db = refl
  process_claimed-keys q (some i) db = after-keys now delay q.id _ db.task_items

  AreSelected-moved :
      (qs : List QueuedItem) (items items' : List DbTaskItem)
      → item_keys items' ≡ item_keys items
      → AreSelected items qs
      → AreSelected items' qs
  AreSelected-moved [] items items' e a = tt
  AreSelected-moved (q ∷ qs) items items' e a =
      (subst (All (IsOf q)) (sym e) a.0, AreSelected-moved qs items items' e a.1)

  process_items-IsBalanced :
      (qs : List QueuedItem) (db : Database)
      → AreSelected db.task_items qs
      → IsBalanced db
      → IsBalanced (process_items suffix payload_of max_attempts delay now qs db)
  unfolding process_items process_queued_db_task_item
  process_items-IsBalanced [] db a h = h
  process_items-IsBalanced (q ∷ qs) db a h =
      process_items-IsBalanced qs _
        (AreSelected-moved qs db.task_items _ (process_claimed-keys q _ db) a.1)
        (process_claimed-IsBalanced q _ db refl a.0 h)

  module _ (tasks : List DbTask) where
    joined-ids :
        (P : String → Type 0) (i : DbTaskItem) (o : Option DbTask)
        → P i.id
        → All (λ p. P p.1.id) (join_task suffix payload_of max_attempts delay i o)
    unfolding join_task
    joined-ids P i none h = tt
    joined-ids P i (some t) h = elim (Bool-cases (t.status == "queued" || t.status == "running")) [
      | inl e ↦ rw e (h, tt)
      | inr e ↦ rw e tt
    ]

    due-ids :
        (P : String → Type 0) (items : List DbTaskItem)
        → All P (item_ids items)
        → All (λ p. P p.1.id) (due_items suffix payload_of max_attempts delay now tasks items)
    unfolding due_items
    due-ids P [] a = tt
    due-ids P (i ∷ rest) a =
        All-append (λ p. P p.1.id) _ _
          (if-All (λ p. P p.1.id) (is_due_item suffix payload_of max_attempts delay now i) _
            (joined-ids P i (find (λ t. t.id == i.task_id) tasks) a.0))
          (due-ids P rest a.1)

    -- the item that a row gives is of the row's task
    joined-own :
        (i : DbTaskItem) (rest : List DbTaskItem) (o : Option DbTask)
        → All (IsOther i.id) (item_ids rest)
        → All
            (λ p. All (IsOf p.1) (item_keys (i ∷ rest)))
            (join_task suffix payload_of max_attempts delay i o)
    unfolding join_task
    joined-own i rest none a = tt
    joined-own i rest (some t) a =
        elim (Bool-cases (t.status == "queued" || t.status == "running")) [
          | inl e ↦ rw e ((λ _. refl, apart_keys i rest a), tt)
          | inr e ↦ rw e tt
        ]

    due-own :
        (items : List DbTaskItem)
        → AreApart (item_ids items)
        → All
            (λ p. All (IsOf p.1) (item_keys items))
            (due_items suffix payload_of max_attempts delay now tasks items)
    unfolding due_items
    due-own [] a = tt
    due-own (i ∷ rest) a =
        All-append (λ p. All (IsOf p.1) (item_keys (i ∷ rest))) _ _
          (if-All (λ p. All (IsOf p.1) (item_keys (i ∷ rest)))
            (is_due_item suffix payload_of max_attempts delay now i) _
            (joined-own i rest (find (λ t. t.id == i.task_id) tasks) a.0))
          (with_head i rest _ (due-ids (IsOther i.id) rest a.0) (due-own rest a.1))

  selected-own :
      (batch_size : ℕ) (db : Database)
      → AreApart (item_ids db.task_items)
      → AreSelected db.task_items (selected suffix payload_of max_attempts delay now batch_size db)
  unfolding selected
  selected-own batch_size db a =
      All-seconds (λ q. All (IsOf q) (item_keys db.task_items)) _
        (All-take _ batch_size _ (
          All-stable_sort (λ p. All (IsOf p.1) (item_keys db.task_items)) _ _
            (due-own db.tasks db.task_items a)))

  -- Where the ids of the items differ and the successes and failures that each task counts are its
  -- succeeded items and its dead letters, that is still so after a round of the worker on the database.
  pub process_queued_db_work-IsBalanced :
      (batch_size : ℕ) (db : Database)
      → IsBalanced db
      → IsBalanced (process_queued_db_work suffix payload_of max_attempts delay now batch_size db)
  unfolding process_queued_db_work process_queued_db_task_items process_queued_db_events
  process_queued_db_work-IsBalanced batch_size db h =
      process_items-IsBalanced _ (process_queued_db_events now batch_size db)
        (selected-own batch_size (process_queued_db_events now batch_size db) h.apart)
        (record { apart = h.apart; tallied = h.tallied })
