-- ===== src/Examples/Stores.antt =====
-- internal/store/sqlstore.go: statements that are sent again, or not.
use cadenza.Prelude.{ℕ, ◌≡◌, refl, none, some, List, [], ◌∷◌, keep, ok, err, arith, Exec, ◌+◌}
use cadenza.Models.{Task, same_status, awaiting_approval}
use cadenza.Models.Chats.{ChatMessage, TaskFilter}
use cadenza.Store.{Db, Statement, Fault, busy, broken, exec_ctx, exec_by}
use cadenza.Store.Retry.{Ran, disturbed, exec_ctx-Ran}
use cadenza.Store.Retry.Once.{Effect, exec_by-Effect}
use cadenza.Store.Tables.{insert_task}
use cadenza.Store.Chats.{append_message}
use cadenza.Store.Chats.Appends.{Appended, append_message-Appended}
use cadenza.Store.Chats.Cursor.{IsNumbered}
use cadenza.Store.Chats.History.{load_history, load_history-messages_of}
use cadenza.Store.Lists.{task_passes}
use cadenza.Store.Lists.Walk.{read_pages, read_pages-Perm}
use mathlib.Core.List.{Perm}
use cadenza.Examples.{empty_db, task_in}

abbrev insert_one : Statement
insert_one = insert_task (task_in awaiting_approval)

abbrev troubled : Db
troubled = disturbed empty_db (some busy ∷ some broken ∷ [])

insert_one-Ran : Ran insert_one troubled (exec_ctx insert_one troubled)
insert_one-Ran = exec_ctx-Ran insert_one troubled

-- What becomes of a statement that is sent: it takes effect, meets a lock, or takes effect and the
-- connection is lost before that is reported.
data Sent : Type 0 where
  taken locked taken_and_lost : Sent

-- A driver that follows a script and counts how often the statement took effect.
abbrev scripted_driver : Exec (List Sent × ℕ) Fault (Unit {0})
scripted_driver ([], n) = (ok tt, ([], n + 1))
scripted_driver (taken ∷ rest, n) = (ok tt, (rest, n + 1))
scripted_driver (locked ∷ rest, n) = (err busy, (rest, n))
scripted_driver (taken_and_lost ∷ rest, n) = (err broken, (rest, n + 1))

abbrev taken_times : List Sent × ℕ → ℕ
taken_times (rest, n) = n

scripted_driver-Effect :
    (s : List Sent × ℕ)
    → Effect (scripted_driver s).0 (taken_times s) (taken_times (scripted_driver s).1)
scripted_driver-Effect ([], n) = refl
scripted_driver-Effect (taken ∷ rest, n) = refl
scripted_driver-Effect (locked ∷ rest, n) = refl
scripted_driver-Effect (taken_and_lost ∷ rest, n) = (omega arith, omega arith)

abbrev lock_and_loss : List Sent × ℕ
lock_and_loss = (locked ∷ taken_and_lost ∷ taken ∷ [], 0)

exec_by-Effect_example :
    Effect
      (exec_by scripted_driver lock_and_loss).0
      0
      (taken_times (exec_by scripted_driver lock_and_loss).1)
exec_by-Effect_example =
    exec_by-Effect scripted_driver taken_times scripted_driver-Effect lock_and_loss

abbrev message : ℕ → ChatMessage
message id = record { id = id; role = "user"; content = "hello"; created_at = 4 }

abbrev chatty : Db
chatty = record empty_db {
  messages =
      record { session_id = "s"; message = message 1 }
      ∷ record { session_id = "r"; message = message 2 }
      ∷ record { session_id = "s"; message = message 4 }
      ∷ [];
  next_message = 5;
}

load_history-messages_of_example :
    load_history 3 "s" 1 0 chatty ≡ (ok (message 1 ∷ message 4 ∷ []), chatty)
unfolding IsNumbered
load_history-messages_of_example =
    load_history-messages_of chatty "s" 1 3 refl
      (omega arith, (omega arith, (omega arith, omega arith))) (omega arith)

append_message-Appended_example :
    Appended "s" (message 0) chatty (append_message "s" (message 0) chatty)
unfolding IsNumbered
append_message-Appended_example =
    append_message-Appended "s" (message 0) chatty
      (omega arith, (omega arith, (omega arith, omega arith)))

abbrev waiting_tasks : TaskFilter
waiting_tasks = record {
  status = some awaiting_approval;
  type = none;
  target = "edge";
  session_id = "";
  since = 1;
  until = 0;
}

abbrev two_tasks : Db
two_tasks = record empty_db {
  tasks = task_in awaiting_approval ∷ record (task_in awaiting_approval) { id = "t2" } ∷ [];
}

read_pages-Perm_example :
    (rows : List Task) × (read_pages 2 waiting_tasks 1 1 two_tasks ≡ (ok rows, two_tasks))
    × Perm rows (keep (task_passes waiting_tasks) two_tasks.tasks)
unfolding task_passes same_status
read_pages-Perm_example =
    read_pages-Perm waiting_tasks 1 2 two_tasks (omega arith) refl (omega arith) (omega arith)
