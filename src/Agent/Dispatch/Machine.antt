-- ===== src/Agent/Dispatch/Machine.antt =====
-- internal/agent/tools.go: an approval with all that follows from it, and the state machine.
use cadenza.Prelude.{
  String, ◌≡◌, Bool, true, false, not, Bool-cases, inl, inr, some, [], ◌>>=◌, raise, find, Keeps,
  Keeps-bind, str_eq, ◌==◌, if◌then◌else◌,
}
use cadenza.Models.{Task, TaskType, generate, optimize, apply, upgrade, rollback, done, approved}
use cadenza.Store.{missing_argument, nothing_to_push, wrong_collector}
use cadenza.Store.Pages.{list_config_versions}
use cadenza.Store.Tables.{task_key}
use cadenza.Store.Tables.Others.{tasks-list_config_versions}
use cadenza.Task.Machine.{stay}
use cadenza.Task.Trace.{Lived}
use cadenza.Agent.{Agent, on_db, audit, approve_task, move_task}
use cadenza.Agent.Dispatch.{
  dispatch_rollback_content, dispatch_rollback, find_version, dispatch_by_type, dispatch_approve,
}
use cadenza.Agent.Dispatch.Lives.{
  Grown, Keeps-pure, Keeps-raise, Keeps-spares, Keeps-audit, Keeps-approve_task, Keeps-move_task,
}
use cadenza.Agent.Dispatch.Whole.{
  Keeps-dispatch_regular, Keeps-dispatch_rollback_content, Keeps-find_version,
}

module _ (k : String) (t0 : Task) (hash : String → String) (covers : String → String → Bool) where
  Keeps-chosen :
      (wrong : Bool) (t : Task) (yaml approver : String)
      → Keeps (Grown k t0) (
          if not wrong
          then raise wrong_collector
          else dispatch_rollback_content hash covers t yaml approver)
  Keeps-chosen true t yaml approver =
      Keeps-dispatch_rollback_content k t0 hash covers t yaml approver
  Keeps-chosen false t yaml approver = Keeps-raise k t0 wrong_collector

  Keeps-by_version :
      (t : Task) (approver : String)
      → Keeps (Grown k t0) (do
        versions ← on_db (list_config_versions t.target_instance_uid 0 0)
        target ← find_version t.rollback_version_id versions.0
        if not (str_eq target.collector_instance_uid t.target_instance_uid)
            then raise wrong_collector
            else dispatch_rollback_content hash covers t target.yaml approver)
  Keeps-by_version t approver =
      Keeps-bind (on_db (list_config_versions t.target_instance_uid 0 0)) _
        (Keeps-spares k t0 (list_config_versions t.target_instance_uid 0 0)
          (tasks-list_config_versions t.target_instance_uid 0 0))
        (λ versions.
          Keeps-bind (find_version t.rollback_version_id versions.0) _
            (Keeps-find_version k t0 hash covers t.rollback_version_id versions.0)
            (λ target.
              Keeps-chosen (str_eq target.collector_instance_uid t.target_instance_uid) t
                target.yaml approver))

  Keeps-dispatch_rollback :
      (t : Task) (approver : String) → Keeps (Grown k t0) (dispatch_rollback hash covers t approver)
  unfolding dispatch_rollback
  Keeps-dispatch_rollback t approver = elim (Bool-cases (str_eq t.target_instance_uid "")) [
    | inl e ↦ rw (e, if◌then◌else◌) (Keeps-raise k t0 missing_argument)
    | inr e ↦ elim (Bool-cases (t.rollback_version_id == 0)) [
      | inr v ↦ rw (e, v, if◌then◌else◌) (Keeps-by_version t approver)
      | inl v ↦ elim (Bool-cases (str_eq t.generated_yaml "")) [
        | inl y ↦ rw (e, v, y, if◌then◌else◌) (Keeps-raise k t0 nothing_to_push)
        | inr y ↦
            rw (e, v, y, if◌then◌else◌)
              (Keeps-dispatch_rollback_content k t0 hash covers t t.generated_yaml approver)
      ]
    ]
  ]

  Keeps-dispatch_by_type :
      (type : TaskType) (id : String) (t : Task) (approver : String)
      → Keeps (Grown k t0) (dispatch_by_type hash covers type id t approver)
  Keeps-dispatch_by_type upgrade id t approver =
      Keeps-bind (move_task id done) _ (Keeps-move_task k t0 id done) (λ _. Keeps-pure k t0 tt)
  Keeps-dispatch_by_type rollback id t approver = Keeps-dispatch_rollback t approver
  Keeps-dispatch_by_type generate id t approver =
      Keeps-dispatch_regular k t0 hash covers id t approver
  Keeps-dispatch_by_type optimize id t approver =
      Keeps-dispatch_regular k t0 hash covers id t approver
  Keeps-dispatch_by_type apply id t approver = Keeps-dispatch_regular k t0 hash covers id t approver

  pub Keeps-dispatch_approve :
      (id approver : String) → Keeps (Grown k t0) (dispatch_approve hash covers id approver)
  unfolding dispatch_approve
  Keeps-dispatch_approve id approver =
      Keeps-bind (approve_task id approver) _ (Keeps-approve_task k t0 id approver) (λ t.
        Keeps-bind (audit approver approved id "") _ (Keeps-audit k t0 approver approved id "")
          (λ _. Keeps-dispatch_by_type t.type id t approver))

-- After an approval with its whole dispatch, or its rollback, every stored task is still there, in a
-- state to which permitted transitions lead from the one before, whatever disturbs the database and
-- whatever the agents send while the dispatch waits for them.
pub dispatch_approve-Lived :
    (hash : String → String) (covers : String → String → Bool) (id approver : String) (a : Agent)
    (k : String) (t : Task)
    → find task_key k a.world.db.tasks ≡ some t
    → Lived t (find task_key k (dispatch_approve hash covers id approver a).1.world.db.tasks)
dispatch_approve-Lived hash covers id approver a k t there =
    (Keeps-dispatch_approve k t hash covers id approver).at a (t, there, ([], stay))
