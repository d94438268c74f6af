-- ===== src/Agent/Dispatch/Rows.antt =====
-- internal/agent: new tasks, rejections and reads of a task, and the state machine.
use cadenza.Prelude.{
  ℕ, String, ◌≡◌, refl, subst, Option, none, some, Result, [], ◌∷◌, ◌++◌, ◌>>=◌, Exec, pure, find,
  find-append_some, Keeps, Keeps-bind, arith, if◌then◌else◌,
}
use cadenza.Models.{Task, TaskEvent, status_text, same_status, other, pending}
use cadenza.Store.{Db, Error, Fault, as_error}
use cadenza.Store.Retry.{Ran, refused, applied, disturbed, exec_ctx-Ran}
use cadenza.Store.Tables.{task_key, insert_task, create_task, get_task, append_row_event}
use cadenza.Store.Tables.Frame.{
  Logged, dropped, logged, append_task_event-Logged, Got, missed, got, get_task-Got,
}
use cadenza.Task
use cadenza.Task.{record_event}
use cadenza.Task.Calls.{reject_call, run_call}
use cadenza.Task.Trace.{Lived}
use cadenza.Agent.{on_db, now, reject_task}
use cadenza.Agent.Dispatch.Lives.{Grown, Keeps-now, Keeps-call}

inserted : (t : Task) (db db' : Db) → insert_task t db ≡ some db' → db'.tasks ≡ db.tasks ++ t ∷ []
inserted t db db' h = go (find task_key t.id db.tasks) refl
  where
    go : (o : Option Task) → find task_key t.id db.tasks ≡ o → db'.tasks ≡ db.tasks ++ t ∷ []
    go none e = ground arith
    go (some u) e = ground arith

event_tasks :
    (e : TaskEvent) (db db' : Db) → append_row_event e db ≡ some db' → db.tasks ≡ db'.tasks
event_tasks e db db' h = ground arith

module _ (k : String) (t0 : Task) where
  abbrev Row : Db → Type 0
  Row db = Lived t0 (find task_key k db.tasks)

  Keeps-create_task : (t : Task) → Keeps Row (create_task t)
  unfolding create_task
  Keeps-create_task t = record { at = λ db g. go db (exec_ctx-Ran (insert_task t) db) g }
    where
      go :
          (db : Db) {r : Result Fault (Unit {0}) × Db}
          → Ran (insert_task t) db r
          → Row db
          → Row (as_error r).1
      go db (refused f d) g = g
      go db (applied d db' h) (t', there, path) = (
        t',
        rw (inserted t (disturbed db d) db' h) (find-append_some task_key k t t' db.tasks there),
        path,
      )

  Keeps-record_event : (time : ℕ) (id from to : String) → Keeps Row (record_event time id from to)
  unfolding record_event
  Keeps-record_event time id from to = record {
    at = λ db g. go db _ (append_task_event-Logged _ db) g;
  }
    where
      go : (db : Db) (e : TaskEvent) {db' : Db} → Logged e db db' → Row db → Row db'
      go db e (dropped d) g = g
      go db e (logged d db' h) g =
          subst (λ l. Lived t0 (find task_key k l)) (event_tasks e (disturbed db d) db' h) g

  Keeps-create : (time : ℕ) (t : Task) → Keeps Row (Task.create time t)
  unfolding Task.create
  Keeps-create time t =
      let t' = record t {
        created_at = time;
        updated_at = time;
        status = if same_status t.status (other "") then pending else t.status;
      } in
      Keeps-bind (create_task t') _ (Keeps-create_task t') (λ _.
        Keeps-bind (record_event time t'.id "" (status_text t'.status)) (λ _. pure t')
          (Keeps-record_event time t'.id "" (status_text t'.status))
          (λ _. record { at = λ db g. g }))

  Keeps-on_db : {A : Type 0} (m : Exec Db Error A) → Keeps Row m → Keeps (Grown k t0) (on_db m)
  Keeps-on_db m h = record { at = λ a g. h.at a.world.db g }

  pub Keeps-create_timed :
      (t : Task) → Keeps (Grown k t0) (do time ← now; on_db (Task.create time t))
  Keeps-create_timed t =
      Keeps-bind now (λ time. on_db (Task.create time t)) (Keeps-now k t0)
        (λ time. Keeps-on_db (Task.create time t) (Keeps-create time t))

  pub Keeps-get_task : (id : String) → Keeps (Grown k t0) (on_db (get_task id))
  Keeps-get_task id =
      Keeps-on_db (get_task id) (record { at = λ db g. go db (get_task-Got id db) g })
    where
      go : (db : Db) {r : Result Error Task × Db} → Got id db r → Row db → Row r.1
      go db (missed e d) g = g
      go db (got d t there) g = g

  pub Keeps-reject_task :
      (id approver reason : String) → Keeps (Grown k t0) (reject_task id approver reason)
  unfolding reject_task run_call
  Keeps-reject_task id approver reason =
      Keeps-bind now _ (Keeps-now k t0)
        (λ time. Keeps-call k t0 (reject_call time id approver reason))
