-- ===== src/Agent/Generate/Lives.antt =====
-- internal/agent/tools.go: the tools that write configurations, and the state machine.
use cadenza.Prelude.{
  ℕ, String, ◌≡◌, refl, sym, ap, subst, inl, Bool, true, false, some, ok, Result, Keeps, Keeps-bind,
  Keeps-bind_known, Keeps-continue, ◌>>=◌, ◌>>◌, find, find-key, find-replace, replace, ◌∙◌,
  eq_refl,
}
use cadenza.Models.{Task, TaskStatus, awaiting_approval}
use cadenza.Store.{Db, Error}
use cadenza.Store.Tables.{task_key, with_columns, get_collector}
use cadenza.Store.Tables.Frame.{Updated, kept, written, update_task-Updated}
use cadenza.Store.Tables.Others.{tasks-get_collector, tasks-list_collectors}
use cadenza.Task.{set_status}
use cadenza.Task.Calls.{Changed, refused, saved, change-Changed, moved}
use cadenza.Task.Trace.{Lived, Lived-more, Follows-replace, tasks-Logged}
use cadenza.Opamp.Server.{World}
use cadenza.Agent.{Agent, now, move_task}
use cadenza.Agent.Versions.Base.{Readable, base_config_for-keeps, base_for_instance-keeps}
use cadenza.Agent.Dispatch.Lives.{Grown, Keeps-pure, Keeps-spares, Keeps-audit, Keeps-move_task}
use cadenza.Agent.Dispatch.Rows.{Keeps-create_timed}
use cadenza.Agent.Dispatch.Machine.{Keeps-dispatch_approve}
use cadenza.Agent.Generate.{store_yaml, finish}
use cadenza.Agent.Generate.Steps.{Steps}

-- The stored row with the id of a task is in the state of the task.
abbrev InStep : Task → Db → Type 0
InStep w db = (u : Task) × (find task_key w.id db.tasks ≡ some u) × (u.status ≡ w.status)

stored_row :
    (time : ℕ) (id : String) (to : TaskStatus) (db db' db'' : Db) (t : Task)
    → find task_key id db.tasks ≡ some t
    → db'.tasks ≡ replace task_key t.id (with_columns (moved time to (λ t. t) t)) db.tasks
    → db''.tasks ≡ db'.tasks
    → find task_key t.id db''.tasks ≡ some (with_columns (moved time to (λ t. t) t) t)
stored_row time id to db db' db'' t there e same =
    let f = with_columns (moved time to (λ t. t) t) in
    let at_id : find task_key t.id db.tasks ≡ some t =
      subst (λ j. find task_key j db.tasks ≡ some t) (sym (find-key task_key id t db.tasks there))
        there in
    rw (same, e, find-replace task_key t.id t.id f db.tasks (λ x. refl), eq_refl t.id, at_id) refl

moved-InStep :
    {time : ℕ} {id : String} {to : TaskStatus} {db : Db} {r : Result Error Task × Db} (w : Task)
    → Changed time id to (λ t. t) db r
    → r.0 ≡ ok w
    → InStep w r.1
moved-InStep w (refused e d) h = cc
moved-InStep {time} {id} {to} {db} w (saved t d db' db'' there allowed e l) h =
    let same : moved time to (λ t. t) t ≡ w = cc in
    subst (λ v. InStep v db'') same
      (
        with_columns (moved time to (λ t. t) t) t,
        stored_row time id to db db' db'' t there (ap (λ (s : Db). s.tasks) e) (tasks-Logged l),
        refl,
      )

module _ (k : String) (t0 : Task) where
  Grown-update :
      {time : ℕ} {x : Task} {db : Db} {r : Result Error Task × Db} (w : Task)
      → x.id ≡ w.id
      → x.status ≡ w.status
      → InStep w db
      → Lived t0 (find task_key k db.tasks)
      → Updated time x db r
      → Lived t0 (find task_key k r.1.tasks)
  Grown-update w same_id same_status known g (kept e d) = g
  Grown-update {time} {x} {db} w same_id same_status (u, there, in_step) g (written d db' e) =
      Lived-more t0 (find task_key k db.tasks) (find task_key k db'.tasks) g (
        rw (ap (λ (s : Db). s.tasks) e) (
          Follows-replace k w.id db.tasks u (record x { updated_at = time }) there
            (inl (same_status ∙ sym in_step)) same_id))

  Grown-store_yaml :
      (yaml : String) (w : Task) (a : Agent)
      → InStep w a.world.db
      → Grown k t0 a
      → Grown k t0 (store_yaml yaml w a).1
  unfolding store_yaml now
  Grown-store_yaml yaml w a known g =
      Grown-update w refl refl known g
        (update_task-Updated _ (record w { generated_yaml = yaml }) a.world.db)

  Keeps-finish :
      (hash : String → String) (covers : String → String → Bool) (require_approval : Bool)
      (t : Task)
      → Keeps (Grown k t0) (finish hash covers require_approval t)
  unfolding finish
  Keeps-finish hash covers true t = Keeps-pure k t0 t
  Keeps-finish hash covers false t =
      Keeps-bind _ _ (Keeps-dispatch_approve k t0 hash covers t.id "agent") (λ _. Keeps-pure k t0 t)

  move_task-InStep :
      (id : String) (to : TaskStatus) (a : Agent) (w : Task)
      → (move_task id to a).0 ≡ ok w
      → InStep w (move_task id to a).1.world.db
  unfolding move_task now set_status
  move_task-InStep id to a w h = moved-InStep w (change-Changed _ id to (λ t. t) a.world.db) h

  pub Keeps-delivers :
      (hash : String → String) (covers : String → String → Bool) (require_approval : Bool)
      (id yaml : String)
      → Keeps (Grown k t0) (do
        waiting ← move_task id awaiting_approval
        store_yaml yaml waiting
        finish hash covers require_approval waiting)
  Keeps-delivers hash covers require_approval id yaml =
      Keeps-bind_known (move_task id awaiting_approval) _ (λ w a. InStep w a.world.db)
        (Keeps-move_task k t0 id awaiting_approval) (move_task-InStep id awaiting_approval)
        (λ w a known g.
          (Keeps-continue (store_yaml yaml w a).0 _
              (λ _. Keeps-finish hash covers require_approval w)).at
            (store_yaml yaml w a).1 (Grown-store_yaml yaml w a known g))

  Tasks-Readable : Readable (λ (w : World). Lived t0 (find task_key k w.db.tasks))
  Tasks-Readable = record {
    one =
        λ uid w g. subst (λ l. Lived t0 (find task_key k l)) (sym (tasks-get_collector uid w.db)) g;
    all = λ w g. subst (λ l. Lived t0 (find task_key k l)) (sym (tasks-list_collectors 0 0 w.db)) g;
  }

  pub Lives-Steps : Steps (Grown k t0)
  Lives-Steps = record {
    creates = Keeps-create_timed k t0;
    audits = Keeps-audit k t0;
    moves = Keeps-move_task k t0;
    reads_collector = λ uid. Keeps-spares k t0 (get_collector uid) (tasks-get_collector uid);
    reads_base =
        λ target. record { at = λ a. base_config_for-keeps _ Tasks-Readable target a.world };
    reads_base_of =
        λ uid. record { at = λ a. base_for_instance-keeps _ Tasks-Readable uid a.world };
  }
