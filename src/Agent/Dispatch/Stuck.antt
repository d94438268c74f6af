-- ===== src/Agent/Dispatch/Stuck.antt =====
-- internal/agent/tools.go: an approval of a task that has nothing to send.
use cadenza.Prelude.{
  ℕ, String, ◌≡◌, Bool, [], some, err, find, find-replace, arith, eq_iff, eq_refl, on_some, ◌⊎◌,
}
use cadenza.Models.{Task, TaskType, awaiting_approval, applying, generate, optimize}
use cadenza.Store.{nothing_to_push, exec_once}
use cadenza.Store.Tables.{task_key, with_columns, append_audit}
use cadenza.Task
use cadenza.Task.Outcome.{approve_waiting}
use cadenza.Agent.{Agent, next_reading, audit, approve_task, now}
use cadenza.Agent.Dispatch.{dispatch_approve, dispatch_regular}

abbrev IsRegular : TaskType → Type 0
IsRegular k = (k ≡ generate) ⊎ (k ≡ optimize)

module _ (hash : String → String) (covers : String → String → Bool) (id approver : String)
    (a : Agent) (t : Task) (calm : a.world.db.disturbances ≡ [])
    (there : find task_key id a.world.db.tasks ≡ some t) (waits : t.status ≡ awaiting_approval)
    (regular : IsRegular t.type) (empty : t.generated_yaml ≡ "") where
  status_after :
      (time : ℕ)
      → on_some
          (λ (s : Task). s.status)
          (find task_key id (Task.approve time id approver a.world.db).1.tasks)
        ≡ some applying
  status_after time = rw (approve_waiting time id approver a.world.db t calm there waits) (
      ground (
        arith,
        find-replace task_key id id
            (with_columns (record t { status = applying; updated_at = time; approver = approver }))
            a.world.db.tasks,
        eq_refl id,
      ))

  -- On an undisturbed database, the approval of a task that was to be generated or optimised, and
  -- has no configuration, is an error, but the task is stored as being applied.
  pub dispatch_approve_empty :
      ((dispatch_approve hash covers id approver a).0 ≡ err nothing_to_push)
      × (on_some
            (λ (s : Task). s.status)
            (find task_key id (dispatch_approve hash covers id approver a).1.world.db.tasks)
          ≡ some applying)
  unfolding dispatch_approve approve_task now audit append_audit exec_once dispatch_regular
  dispatch_approve_empty =
      let time = (next_reading a.clock).0 in
      let done_ = approve_waiting time id approver a.world.db t calm there waits in
      let after = status_after time in
      rw done_ (
        ground (
          arith,
          calm,
          eq_iff t.generated_yaml "",
          find-replace task_key id id
              (with_columns
                (record t { status = applying; updated_at = time; approver = approver }))
              a.world.db.tasks,
          eq_refl id,
        ))
