-- ===== src/Tests/Queue.antt =====
-- Runs of the tasks in memory.
use jianghu_scrm.Crm.Tasks.{enqueue_batch_tag_task, Board, new_items, process_queued_work}
use jianghu_scrm.Crm.Finish.{AreFinished}
use jianghu_scrm.Models.Queue.{BatchTagTaskPayload}
use jianghu_scrm.Crm.Ledger.{IsSound, Reach, Reach-IsSound, next, work, here, enqueue}
use jianghu_scrm.Crm.Books.{waiting}
use jianghu_scrm.Prelude.{String, ◌∷◌, Option, count, some, refl, [], ◌≡◌, arith}
use jianghu_scrm.Tests.Samples.{outside_1, event_of, pool_1}
use jianghu_scrm.Crm.Liveness.{rounds, rounds-finish}
use jianghu_scrm.Crm.Progress.{is_queued}

abbrev board_0 : Board
board_0 = record { events = event_of "queued" ∷ []; tasks = []; items = []; pool = pool_1 }

abbrev tag_wang : BatchTagTaskPayload
tag_wang = record { customer_i_ds = "c1" ∷ "c9" ∷ []; tags = "vip" ∷ []; operator = "op" }

abbrev marshal_1 : BatchTagTaskPayload → String
marshal_1 p = "p"

abbrev payload_of_1 : String → Option BatchTagTaskPayload
payload_of_1 s = some tag_wang

board_0-IsSound : IsSound board_0
unfolding waiting count
board_0-IsSound = record { apart = tt; booked = tt; known = tt; orphans = λ id a. refl }

abbrev board_1 : Board
board_1 = (enqueue_batch_tag_task outside_1 marshal_1 tag_wang board_0).1

board_1-Reach : Reach outside_1 marshal_1 payload_of_1 board_0 board_1
board_1-Reach = next here (enqueue tag_wang board_0 tt)

Reach-IsSound_example : IsSound (process_queued_work outside_1 payload_of_1 1 board_1)
Reach-IsSound_example =
    Reach-IsSound outside_1 marshal_1 payload_of_1 board_0-IsSound
      (next board_1-Reach (work 1 board_1))

two_waiting : count is_queued board_1.items ≡ 2
unfolding enqueue_batch_tag_task new_items count is_queued
two_waiting = refl

rounds-finish_example : AreFinished (rounds outside_1 payload_of_1 3 1 board_1).tasks
rounds-finish_example =
    rounds-finish outside_1 payload_of_1 3 1 board_1
      (Reach-IsSound outside_1 marshal_1 payload_of_1 board_0-IsSound board_1-Reach) (omega arith)
      (omega (arith, two_waiting))
