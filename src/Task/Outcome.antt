-- ===== src/Task/Outcome.antt =====
-- internal/task/task.go: the calls of the service on an undisturbed database, and their errors.
use cadenza.Prelude.{
  ℕ, String, ◌≡◌, ◌≢◌, inl, inr, Bool-cases, refl, some, Result, ok, err, [], ◌∷◌, ◌++◌, find,
  replace, find-key, arith, ◌+◌,
}
use cadenza.Models.{Task, TaskStatus, applying, awaiting_approval, rejected, eq_of_same_status}
use cadenza.Store.{Error, illegal_transition, Db, query, exec_ctx, exec_by, exec_rounds, exec_once}
use cadenza.Store.Tables.{task_key, with_columns, get_task, update_task, append_task_event}
use cadenza.Task.Calls.{
  Changed, refused, saved, change-Changed, Call, approve_call, reject_call, status_call, run_call,
}
use cadenza.Task.{can_transition, approve}

-- The row after an approval.
abbrev pub approved : ℕ → String → Task → Task
approved now approver t = record t { status = applying; updated_at = now; approver = approver }

-- On a database that nothing disturbs, an approval of a task that waits for one returns it as
-- approved, stores that row and no other change of the tasks, and logs the transition.
pub approve_waiting :
    (now : ℕ) (id approver : String) (db : Db) (t : Task)
    → db.disturbances ≡ []
    → find task_key id db.tasks ≡ some t
    → t.status ≡ awaiting_approval
    → approve now id approver db ≡ (
      ok (approved now approver t),
      record db {
        tasks = replace task_key id (with_columns (approved now approver t)) db.tasks;
        events =
            db.events
            ++ record {
              id = db.next_event;
              task_id = id;
              from_status = "awaiting_approval";
              to_status = "applying";
              created_at = now;
            }
              ∷ [];
        next_event = db.next_event + 1;
      },
    )
unfolding approve get_task query update_task append_task_event exec_ctx exec_by exec_rounds
    exec_once
approve_waiting now id approver db t calm there waits =
    let same : t.id ≡ id = find-key task_key id t db.tasks there in ground (arith, same)

-- An approval of a task in any other state is an error on an undisturbed database, and changes
-- nothing in it.
pub approve_not_waiting :
    (now : ℕ) (id approver : String) (db : Db) (t : Task)
    → db.disturbances ≡ []
    → find task_key id db.tasks ≡ some t
    → t.status ≢ awaiting_approval
    → approve now id approver db ≡ (err (illegal_transition t.status applying), db)
unfolding approve get_task query
approve_not_waiting now id approver db t calm there other =
    elim (Bool-cases (can_transition t.status applying)) [
      | inl allowed ↦
          absurd (
            other (eq_of_same_status t.status awaiting_approval (unfold can_transition in allowed)))
      | inr not_allowed ↦ ground (arith, not_allowed)
    ]

tasks-Changed :
    {now : ℕ} {id : String} {to : TaskStatus} {edit : Task → Task} {db : Db}
    {r : Result Error Task × Db} {e : Error}
    → Changed now id to edit db r
    → r.0 ≡ err e
    → (r.1.tasks ≡ db.tasks) × (r.1.events ≡ db.events)
tasks-Changed (refused x d) h = (refl, refl)
tasks-Changed (saved t d db' db'' there allowed x l) h = cc

-- A call of the service that returns an error has changed no task and logged no event, whatever
-- disturbs the database.
pub run_call_error :
    (c : Call) (db : Db) {e : Error}
    → (run_call c db).0 ≡ err e
    → ((run_call c db).1.tasks ≡ db.tasks) × ((run_call c db).1.events ≡ db.events)
unfolding run_call
run_call_error (approve_call now id approver) db h =
    tasks-Changed (change-Changed now id applying (λ t. record t { approver = approver }) db) h
run_call_error (reject_call now id approver reason) db h =
    tasks-Changed
      (change-Changed now id rejected
        (λ t. record t { approver = approver; reject_reason = reason }) db)
      h
run_call_error (status_call now id to) db h = tasks-Changed (change-Changed now id to (λ t. t) db) h
