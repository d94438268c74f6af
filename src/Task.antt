-- ===== src/Task.antt =====
-- internal/task/task.go: the life cycle of a task. One call of a method reads the clock once, and
-- `now` is what it reads.
pub mod Machine
pub mod Calls
pub mod Outcome
pub mod Trace
use cadenza.Prelude.{
  ℕ, String, Bool, true, false, not, ◌&&◌, ◌||◌, Result, ok, err, Exec, pure, raise, continue,
  ◌>>=◌, ◌>>◌, ignore_error, if◌then◌else◌, str_eq, [],
}
use cadenza.Models.{
  Task, TaskEvent, TaskStatus, pending, generating, validating, awaiting_approval, applying, done,
  rejected, failed, other, same_status, status_text,
}
use cadenza.Store.{Db, Error, illegal_transition}
use cadenza.Store.Tables.{create_task, update_task, get_task, append_task_event}

unfoldable pub can_transition : TaskStatus → TaskStatus → Bool
unfolding same_status
can_transition from failed =
    not (same_status from done) && not (same_status from rejected) && not (same_status from failed)
can_transition from generating = same_status from pending || same_status from failed
can_transition from validating = same_status from generating
can_transition from awaiting_approval = same_status from validating
can_transition from applying = same_status from awaiting_approval
can_transition from done = same_status from applying
can_transition from rejected = same_status from awaiting_approval
can_transition from pending = same_status from pending
can_transition from (other s) = false

unfoldable pub transition : ℕ → Task → TaskStatus → Exec Db Error Task
unfolding can_transition
transition now t to =
    if can_transition t.status to
    then pure (record t { status = to; updated_at = now })
    else raise (illegal_transition t.status to)

unfoldable pub record_event : ℕ → String → String → String → Exec Db Error (Unit {0})
record_event now task_id from to =
    ignore_error
      (append_task_event (record {
        id = 0;
        task_id = task_id;
        from_status = from;
        to_status = to;
        created_at = now;
      }))
      tt

unfoldable pub create : ℕ → Task → Exec Db Error Task
unfolding same_status record_event
create now t =
    let t' = record t {
      created_at = now;
      updated_at = now;
      status = if same_status t.status (other "") then pending else t.status;
    } in
    do create_task t'; record_event now t'.id "" (status_text t'.status); pure t'

-- The steps that the methods share once the task is read and changed: `Transition`, what the
-- method sets, the update and the event.
unfoldable pub approve : ℕ → String → String → Exec Db Error Task
unfolding transition record_event
approve now id approver = do
  t ← get_task id
  t' ← transition now t applying
  t'' ← update_task now (record t' { approver = approver })
  record_event now t''.id (status_text t.status) (status_text t''.status)
  pure t''

unfoldable pub reject : ℕ → String → String → String → Exec Db Error Task
unfolding transition record_event
reject now id approver reason = do
  t ← get_task id
  t' ← transition now t rejected
  t'' ← update_task now (record t' { approver = approver; reject_reason = reason })
  record_event now t''.id (status_text t.status) (status_text t''.status)
  pure t''

unfoldable pub set_status : ℕ → String → TaskStatus → Exec Db Error Task
unfolding transition record_event
set_status now id to = do
  t ← get_task id
  t' ← transition now t to
  t'' ← update_task now t'
  record_event now t''.id (status_text t.status) (status_text t''.status)
  pure t''
