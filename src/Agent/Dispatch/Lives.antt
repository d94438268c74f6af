-- ===== src/Agent/Dispatch/Lives.antt =====
-- internal/agent/tools.go: a dispatch moves tasks as the state machine permits, and no other way.
use cadenza.Prelude.{
  ℕ, String, ◌≡◌, refl, sym, ap, subst, inl, Result, Exec, ◌>>=◌, pure, raise, continue,
  ignore_error, find, find-key, Keeps, Keeps-bind,
}
use cadenza.Models.{Task, TaskStatus, AuditAction}
use cadenza.Store.{Db, Error}
use cadenza.Store.Tables.{task_key, update_task, append_audit}
use cadenza.Store.Tables.Others.{tasks-append_audit}
use cadenza.Store.Tables.Frame.{
  Got, missed, got, get_task-Got, Updated, kept, written, update_task-Updated,
}
use cadenza.Task.Calls.{Call, approve_call, status_call, run_call}
use cadenza.Task.Trace.{Lived, Lived-more, Follows-replace, run_call-Follows}
use cadenza.Agent.{Agent, on_db, with_db, now, audit, approve_task, move_task, set_task_error}
use cadenza.Agent.Dispatch.Steps.{Same}

module _ (k : String) (t0 : Task) where
  -- The stored row with the key is one that the task `t0` can have become.
  abbrev pub Grown : Agent → Type 0
  Grown a = Lived t0 (find task_key k a.world.db.tasks)

  pub Grown-Same : (a a' : Agent) → Same a.world a'.world → Grown a → Grown a'
  Grown-Same a a' same g = subst (λ l. Lived t0 (find task_key k l)) (sym same) g

  pub Keeps-now : Keeps Grown now
  unfolding now
  Keeps-now = record { at = λ a g. g }

  pub Keeps-pure : {A : Type 0} (x : A) → Keeps Grown (pure {S = Agent} {E = Error} x)
  Keeps-pure x = record { at = λ a g. g }

  pub Keeps-raise : {A : Type 0} (e : Error) → Keeps Grown (raise {S = Agent} {E = Error} {A = A} e)
  Keeps-raise e = record { at = λ a g. g }

  pub Keeps-ignore :
      {A B : Type 0} (m : Exec Agent Error A) (b : B)
      → Keeps Grown m
      → Keeps Grown (ignore_error m b)
  Keeps-ignore m b h = record { at = h.at }

  pub Keeps-call : (c : Call) → Keeps Grown (on_db (run_call c))
  Keeps-call c = record {
    at = λ a g.
        Lived-more t0 (find task_key k a.world.db.tasks)
          (find task_key k (run_call c a.world.db).1.tasks) g (run_call-Follows c a.world.db k);
  }

  pub Keeps-spares :
      {A : Type 0} (m : Exec Db Error A)
      → ((db : Db) → (m db).1.tasks ≡ db.tasks)
      → Keeps Grown (on_db m)
  Keeps-spares m same = record {
    at = λ a g. Grown-Same a (with_db (m a.world.db).1 a) (same a.world.db) g;
  }

  pub Keeps-audit :
      (actor : String) (action : AuditAction) (subject detail : String)
      → Keeps Grown (audit actor action subject detail)
  unfolding audit
  Keeps-audit actor action subject detail = Keeps-bind now _ Keeps-now (λ t. Keeps-ignore _ tt (
      Keeps-spares
        (append_audit (record {
          id = 0;
          actor = actor;
          action = action;
          subject = subject;
          detail = detail;
          created_at = t;
        }))
        (tasks-append_audit _)))

  pub Keeps-approve_task : (id approver : String) → Keeps Grown (approve_task id approver)
  unfolding approve_task run_call
  Keeps-approve_task id approver =
      Keeps-bind now _ Keeps-now (λ t. Keeps-call (approve_call t id approver))

  pub Keeps-move_task : (id : String) (to : TaskStatus) → Keeps Grown (move_task id to)
  unfolding move_task run_call
  Keeps-move_task id to = Keeps-bind now _ Keeps-now (λ t. Keeps-call (status_call t id to))

  Grown-set_error :
      (id msg : String) (a : Agent) {r : Result Error Task × Db}
      → Got id a.world.db r
      → Grown a
      → Grown
          (continue r.0
            (λ t. do time ← now; on_db (update_task time (record t { error = msg })))
            (with_db r.1 a)).1
  unfolding now
  Grown-set_error id msg a (missed e d) g = g
  Grown-set_error id msg a (got d t there) g =
      go (update_task-Updated _ (record t { error = msg }) (record a.world.db { disturbances = d }))
    where
      go :
          {time : ℕ} {r : Result Error Task × Db}
          → Updated time (record t { error = msg }) (record a.world.db { disturbances = d }) r
          → Lived t0 (find task_key k r.1.tasks)
      go (kept e d') = g
      go {time} (written d' db' e) =
          Lived-more t0 (find task_key k a.world.db.tasks) (find task_key k db'.tasks) g (
            rw (ap (λ (s : Db). s.tasks) e) (
              Follows-replace k id a.world.db.tasks t (record t { error = msg; updated_at = time })
                there (inl refl) (find-key task_key id t a.world.db.tasks there)))

  pub Keeps-set_task_error : (id msg : String) → Keeps Grown (set_task_error id msg)
  unfolding set_task_error
  Keeps-set_task_error id msg = record {
    at = λ a g. Grown-set_error id msg a (get_task-Got id a.world.db) g;
  }
