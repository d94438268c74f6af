-- ===== src/Agent/Dispatch/Guard.antt =====
-- internal/agent/tools.go: nothing is sent without an approval that was waited for.
use cadenza.Prelude.{String, ◌≡◌, ◌≢◌, refl, Bool, some, Result, err, find, continue, ◌>>◌, Exec}
use cadenza.Models.{Task, awaiting_approval, applying, approved, eq_of_same_status}
use cadenza.Store.{Db, Error}
use cadenza.Store.Tables.{task_key}
use cadenza.Task
use cadenza.Task.{can_transition}
use cadenza.Task.Calls.{Changed, refused, saved, change-Changed}
use cadenza.Agent.{Agent, next_reading, with_db, audit, approve_task, now}
use cadenza.Agent.Dispatch.{dispatch_approve, dispatch_by_type}

-- An error, with no task changed and nothing sent, held or recorded for any agent.
pub record IsRefused {A : Type 0} (a : Agent) (r : Result Error A × Agent) : Type 0 where
  pub e : Error
  pub is_err : r.0 ≡ err e
  pub tasks : r.1.world.db.tasks ≡ a.world.db.tasks
  pub versions : r.1.world.db.versions ≡ a.world.db.versions
  pub registry : r.1.world.registry ≡ a.world.registry
  pub outbox : r.1.world.outbox ≡ a.world.outbox
  pub waiting : r.1.world.waiting ≡ a.world.waiting

module _ (id approver : String) (a : Agent)
    (not_waiting : (t : Task)
      → find task_key id a.world.db.tasks ≡ some t
      → t.status ≢ awaiting_approval) where
  abbrev edit : Task → Task
  edit t = record t { approver = approver }

  abbrev started : Agent
  started = record a { clock = (next_reading a.clock).1 }

  approval-IsRefused :
      {A : Type 0} (f : Task → Exec Agent Error A) {r : Result Error Task × Db}
      → Changed (next_reading a.clock).0 id applying edit a.world.db r
      → IsRefused a (continue r.0 f (with_db r.1 started))
  approval-IsRefused f (refused e d) = record {
    e = e;
    is_err = refl;
    tasks = refl;
    versions = refl;
    registry = refl;
    outbox = refl;
    waiting = refl;
  }
  approval-IsRefused f (saved t d db' db'' there allowed x l) = absurd (
      not_waiting t there
        (eq_of_same_status t.status awaiting_approval (unfold can_transition in allowed)))

  -- Whatever disturbs the database, an approval of a task that does not wait for one, or that is
  -- not there, is an error: nothing is sent to any agent or held for one, no version is recorded,
  -- and no task changes.
  pub dispatch_approve-IsRefused :
      (hash : String → String) (covers : String → String → Bool)
      → IsRefused a (dispatch_approve hash covers id approver a)
  unfolding dispatch_approve approve_task now Task.approve
  dispatch_approve-IsRefused hash covers =
      approval-IsRefused
        (λ t. do audit approver approved id ""; dispatch_by_type hash covers t.type id t approver)
        (change-Changed (next_reading a.clock).0 id applying edit a.world.db)
