-- ===== src/Task/Calls.antt =====
-- internal/task/task.go: what the calls of the service do to the stored tasks, whatever disturbs
-- the database.
use cadenza.Prelude.{
  ℕ, String, ◌≡◌, inl, inr, true, Bool-cases, Option, some, Result, ok, err, List, find, replace,
  continue, pure, if◌then◌else◌, Exec, ◌>>=◌, ◌>>◌,
}
use cadenza.Models.{Task, TaskEvent, TaskStatus, status_text}
use cadenza.Store.{Fault, Error, Db}
use cadenza.Store.Retry.{disturbed}
use cadenza.Store.Tables.{task_key, with_columns, stamped, get_task, update_task}
use cadenza.Store.Tables.Frame.{
  Got, missed, got, get_task-Got, Updated, kept, written, update_task-Updated, Logged,
  append_task_event-Logged,
}
use cadenza.Task.{can_transition, transition, record_event, approve, reject, set_status}

-- The shape that the three methods share: `edit` is what the method sets beside the state.
abbrev pub change : ℕ → String → TaskStatus → (Task → Task) → Exec Db Error Task
change now id to edit = do
  t ← get_task id
  t' ← transition now t to
  t'' ← update_task now (edit t')
  record_event now t''.id (status_text t.status) (status_text t''.status)
  pure t''

abbrev pub moved : ℕ → TaskStatus → (Task → Task) → Task → Task
moved now to edit t = stamped now (edit (record t { status = to; updated_at = now }))

-- The event that a saved change logs.
abbrev pub event_of : ℕ → Task → Task → TaskEvent
event_of now t t'' = record {
  id = 0;
  task_id = t''.id;
  from_status = status_text t.status;
  to_status = status_text t''.status;
  created_at = now;
}

-- A call failed and left every task as it was; or the transition is permitted, the row is
-- replaced, and the event is logged or dropped.
pub data Changed (now : ℕ) (id : String) (to : TaskStatus) (edit : Task → Task) (db : Db)
    : Result Error Task × Db → Type 0 where
  refused :
      (e : Error) (d : List (Option Fault)) → Changed now id to edit db (err e, disturbed db d)
  saved :
      (t : Task) (d : List (Option Fault)) (db' db'' : Db)
      → find task_key id db.tasks ≡ some t
      → can_transition t.status to ≡ true
      → db' ≡ record (disturbed db d) {
        tasks =
            replace task_key
              (edit (record t { status = to; updated_at = now })).id
              (with_columns (moved now to edit t))
              db.tasks;
      }
      → Logged (event_of now t (moved now to edit t)) db' db''
      → Changed now id to edit db (ok (moved now to edit t), db'')

module _ (now : ℕ) (id : String) (to : TaskStatus) (edit : Task → Task) (db : Db) where
  after_update :
      (t : Task) (d : List (Option Fault))
      → find task_key id db.tasks ≡ some t
      → can_transition t.status to ≡ true
      → {r : Result Error Task × Db}
      → Updated now (edit (record t { status = to; updated_at = now })) (disturbed db d) r
      → Changed now id to edit db (
          continue r.0
            (λ t''.
              record_event now t''.id (status_text t.status) (status_text t''.status) >> pure t'')
            r.1)
  unfolding record_event
  after_update t d there allowed (kept e d') = refused e d'
  after_update t d there allowed (written d' db' e) =
      saved t d' db' _ there allowed e (append_task_event-Logged _ db')

  after_get :
      {r : Result Error Task × Db}
      → Got id db r
      → Changed now id to edit db (
          continue r.0
            (λ t. do
              t' ← transition now t to
              t'' ← update_task now (edit t')
              record_event now t''.id (status_text t.status) (status_text t''.status)
              pure t'')
            r.1)
  unfolding transition
  after_get (missed e d) = refused e d
  after_get (got d t there) = elim (Bool-cases (can_transition t.status to)) [
    | inl allowed ↦
        rw (allowed, if◌then◌else◌)
          (after_update t d there allowed (update_task-Updated now _ (disturbed db d)))
    | inr not_allowed ↦ rw (not_allowed, if◌then◌else◌) (refused _ d)
  ]

  pub change-Changed : Changed now id to edit db (change now id to edit db)
  change-Changed = after_get (get_task-Got id db)

-- One call of a method that changes a stored task, at the time that the clock shows.
pub data Call : Type 0 where
  approve_call : ℕ → String → String → Call
  reject_call : ℕ → String → String → String → Call
  status_call : ℕ → String → TaskStatus → Call

unfoldable pub run_call : Call → Exec Db Error Task
unfolding approve reject set_status
run_call (approve_call now id approver) = approve now id approver
run_call (reject_call now id approver reason) = reject now id approver reason
run_call (status_call now id to) = set_status now id to
