-- ===== src/Db/Books.antt =====
-- The books of the tasks in the database: the counts of a task are those of its items, and the worker
-- keeps them.
use jianghu_scrm.Prelude.{
  List, String, ℕ, ◌≡◌, count, if◌then◌else◌, ◌+◌, arith, Bool, ◌∷◌, Bool-cases, leb, ◌==◌, ap,
  ◌&&◌, [], inl, refl, inr, ◌∙◌, true, sym, map, find, eq_iff, some, eq_refl, false, eq_flip,
}
use jianghu_scrm.Db.Worker.{
  count_outcome, Outcome, start_db_task, finish_db_task, QueuedItem, retried, dead, succeeded,
  settle_item, is_claimable, tasks_after, claim_item, items_after,
}
use jianghu_scrm.Db.Rows.{total, item_ids, tried_row, after-total}
use jianghu_scrm.Db.Tables.{DbTask, DbTaskItem, update_where}
use jianghu_scrm.Crm.Books.{AreApart}

-- the items of a task with a status
unfoldable pub has_result : String → String → DbTaskItem → Bool
has_result task status i = i.task_id == task && i.status == status

unfoldable pub weight : String → String → DbTaskItem → ℕ
unfolding has_result
weight task status i = if has_result task status i then 1 else 0

total-count :
    (task status : String) (items : List DbTaskItem)
    → total (weight task status) items ≡ count (has_result task status) items
unfolding total count weight
total-count task status [] = refl
total-count task status (i ∷ rest) =
    ap (λ n. weight task status i + n) (total-count task status rest)

-- The successes of a task are its succeeded items, its failures its dead letters.
abbrev pub IsTallied : List DbTaskItem → DbTask → Type 0
IsTallied items t =
    (t.success_count ≡ count (has_result t.id "succeeded") items)
    × (t.failed_count ≡ count (has_result t.id "dead_letter") items)

-- Every item with the id of a selected one is of its task.
abbrev pub IsOf : QueuedItem → String × String → Type 0
IsOf q k = k.0 ≡ q.id → k.1 ≡ q.task_id

-- what an outcome adds to the successes and the failures
abbrev pub wins : Outcome → ℕ
wins succeeded = 1
wins (retried _) = 0
wins (dead _) = 0

abbrev pub losses : Outcome → ℕ
losses succeeded = 0
losses (retried _) = 0
losses (dead _) = 1

-- what the statements of a try do to one row of the tasks
abbrev pub task_row : ℕ → String → Outcome → DbTask → DbTask
task_row now id outcome t =
    if t.id == id then finish_db_task now (count_outcome outcome (start_db_task now t)) else t

record Scores (outcome : Outcome) (t u : DbTask) : Type 0 where
  same_id : u.id ≡ t.id
  success : u.success_count ≡ t.success_count + wins outcome
  failure : u.failed_count ≡ t.failed_count + losses outcome

finish-Scores :
    (now : ℕ) (outcome : Outcome) (t u : DbTask)
    → Scores outcome t u
    → Scores outcome t (finish_db_task now u)
unfolding finish_db_task
finish-Scores now outcome t u s =
    elim (Bool-cases (leb u.total_count (u.success_count + u.failed_count))) [
      | inl e ↦ rw e (record { same_id = s.same_id; success = s.success; failure = s.failure })
      | inr e ↦ rw e s
    ]

start-same :
    (now : ℕ) (t : DbTask)
    → ((start_db_task now t).id ≡ t.id)
      × ((start_db_task now t).success_count ≡ t.success_count)
      × ((start_db_task now t).failed_count ≡ t.failed_count)
unfolding start_db_task
start-same now t = elim (Bool-cases (t.status == "queued")) [
  | inl e ↦ rw e (refl, refl, refl)
  | inr e ↦ rw e (refl, refl, refl)
]

count-Scores :
    (now : ℕ) (outcome : Outcome) (t : DbTask)
    → Scores outcome t (count_outcome outcome (start_db_task now t))
unfolding count_outcome
count-Scores now succeeded t =
    let same = start-same now t in
    record { same_id = same.0; success = omega (arith, same.1); failure = omega (arith, same.2) }
count-Scores now (retried message) t =
    let same = start-same now t in
    record { same_id = same.0; success = omega (arith, same.1); failure = omega (arith, same.2) }
count-Scores now (dead message) t =
    let same = start-same now t in
    record { same_id = same.0; success = omega (arith, same.1); failure = omega (arith, same.2) }

pub tasks_after-map :
    (now : ℕ) (id : String) (outcome : Outcome) (tasks : List DbTask)
    → tasks_after now id outcome tasks ≡ map (task_row now id outcome) tasks
unfolding tasks_after update_where
tasks_after-map now id outcome [] = refl
tasks_after-map now id outcome (t ∷ rest) = elim (Bool-cases (t.id == id)) [
  | inl e ↦
      let started : ((start_db_task now t).id == id) ≡ true =
        ap (λ x. x == id) ((start-same now t).0) ∙ e in
      let counted : ((count_outcome outcome (start_db_task now t)).id == id) ≡ true =
        ap (λ x. x == id) ((count-Scores now outcome t).same_id) ∙ e in
      rw (e, started, counted)
        (ap (λ ts. finish_db_task now (count_outcome outcome (start_db_task now t)) ∷ ts)
          (tasks_after-map now id outcome rest))
  | inr e ↦ rw (e, e, e) (ap (λ ts. t ∷ ts) (tasks_after-map now id outcome rest))
]

-- the claimed item was queued
pub claimable_queued :
    (id : String) (i : DbTaskItem) → is_claimable id i ≡ true → (i.id ≡ id) × (i.status ≡ "queued")
unfolding is_claimable
claimable_queued id i h =
    (ground (arith, h, eq_iff i.id id), ground (arith, h, eq_iff i.status "queued"))

weight_queued :
    (task : String) (i : DbTaskItem)
    → i.status ≡ "queued"
    → (weight task "succeeded" i ≡ 0) × (weight task "dead_letter" i ≡ 0)
unfolding weight
weight_queued task i q = elim (Bool-cases (i.task_id == task)) [
  | inl e ↦ rw (e, q) (refl, refl)
  | inr e ↦ rw e (refl, refl)
]

tally_moved :
    (items : List DbTaskItem) (t u : DbTask)
    → u.id ≡ t.id
    → u.success_count ≡ count (has_result t.id "succeeded") items
    → u.failed_count ≡ count (has_result t.id "dead_letter") items
    → IsTallied items u
tally_moved items t u e s f = (
  s ∙ ap (λ x. count (has_result x "succeeded") items) (sym e),
  f ∙ ap (λ x. count (has_result x "dead_letter") items) (sym e),
)

module _ (now delay : ℕ) where
  weight_tried :
      (id task : String) (outcome : Outcome) (i : DbTaskItem)
      → (weight task "succeeded" (tried_row now delay id outcome i)
          ≡ (if i.task_id == task then wins outcome else 0))
        × (weight task "dead_letter" (tried_row now delay id outcome i)
            ≡ (if i.task_id == task then losses outcome else 0))
  unfolding weight settle_item claim_item
  weight_tried id task succeeded i = (ground arith, ground arith)
  weight_tried id task (retried message) i = (ground arith, ground arith)
  weight_tried id task (dead message) i = (ground arith, ground arith)

  -- The try of an item of a task, as the books of one task see it.
  pub IsTallied-row :
      (q : QueuedItem) (outcome : Outcome) (items : List DbTaskItem) (i : DbTaskItem) (t : DbTask)
      → AreApart (item_ids items)
      → find (is_claimable q.id) items ≡ some i
      → (i.id ≡ q.id) × (i.status ≡ "queued")
      → i.task_id ≡ q.task_id
      → IsTallied items t
      → IsTallied (items_after now delay q.id outcome items) (task_row now q.task_id outcome t)
  IsTallied-row q outcome items i t a f c o h =
      let won = after-total now delay q.id outcome (weight t.id "succeeded") items i a f in
      let lost = after-total now delay q.id outcome (weight t.id "dead_letter") items i a f in
      let before = weight_queued t.id i c.1 in
      let now_is = weight_tried q.id t.id outcome i in
      let after = items_after now delay q.id outcome items in
      let won_count : count (has_result t.id "succeeded") after
          ≡ count (has_result t.id "succeeded") items
            + (if i.task_id == t.id then wins outcome else 0) =
        omega (
          arith,
          won,
          before.0,
          now_is.0,
          total-count t.id "succeeded" items,
          total-count t.id "succeeded" after,
        ) in
      let lost_count : count (has_result t.id "dead_letter") after
          ≡ count (has_result t.id "dead_letter") items
            + (if i.task_id == t.id then losses outcome else 0) =
        omega (
          arith,
          lost,
          before.1,
          now_is.1,
          total-count t.id "dead_letter" items,
          total-count t.id "dead_letter" after,
        ) in
      elim (Bool-cases (t.id == q.task_id)) [
        | inl e ↦
            let mine : (i.task_id == t.id) ≡ true =
              ap (λ x. x == t.id) (o ∙ sym ((eq_iff t.id q.task_id).0 e)) ∙ eq_refl t.id in
            let u = finish_db_task now (count_outcome outcome (start_db_task now t)) in
            let s = finish-Scores now outcome t _ (count-Scores now outcome t) in
            rw e (
              tally_moved after t u s.same_id
                (omega
                  (arith, s.success, h.0, won_count, ap (λ b. if b then wins outcome else 0) mine))
                (omega (
                  arith,
                  s.failure,
                  h.1,
                  lost_count,
                  ap (λ b. if b then losses outcome else 0) mine,
                )))
        | inr e ↦
            let other : (i.task_id == t.id) ≡ false =
              ap (λ x. x == t.id) o ∙ eq_flip t.id q.task_id e in
            rw e (
              omega (arith, h.0, won_count, ap (λ b. if b then wins outcome else 0) other),
              omega (arith, h.1, lost_count, ap (λ b. if b then losses outcome else 0) other),
            )
      ]
