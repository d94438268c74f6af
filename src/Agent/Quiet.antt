-- ===== src/Agent/Quiet.antt =====
-- internal/agent: steps that send nothing to an agent.
use cadenza.Prelude.{String, ◌≡◌, Exec, pure, raise, Keeps, Keeps-bind}
use cadenza.Models.{TaskStatus, AuditAction}
use cadenza.Store.{Db, Error}
use cadenza.Task.{set_status}
use cadenza.Opamp.Server.{World}
use cadenza.Agent.{Agent, on_db, now, audit, move_task}
use cadenza.Agent.Versions.Base.{Readable}

-- Nothing was sent, nothing more waits to be sent, and the registry is the same.
abbrev pub IsCalm : World → World → Type 0
IsCalm before w =
    (w.outbox ≡ before.outbox) × (w.waiting ≡ before.waiting) × (w.registry ≡ before.registry)

abbrev pub IsQuiet : Agent → Agent → Type 0
IsQuiet before a = IsCalm before.world a.world

module _ (before : Agent) where
  pub Keeps-on_db : {A : Type 0} (m : Exec Db Error A) → Keeps (IsQuiet before) (on_db m)
  Keeps-on_db m = record { at = λ a h. h }

  pub Keeps-now : Keeps (IsQuiet before) now
  unfolding now
  Keeps-now = record { at = λ a h. h }

  pub Keeps-pure : {A : Type 0} (x : A) → Keeps (IsQuiet before) (pure {E = Error} x)
  Keeps-pure x = record { at = λ a h. h }

  pub Keeps-raise : {A : Type 0} (e : Error) → Keeps (IsQuiet before) (raise {A = A} e)
  Keeps-raise e = record { at = λ a h. h }

  pub Keeps-audit :
      (actor : String) (action : AuditAction) (subject detail : String)
      → Keeps (IsQuiet before) (audit actor action subject detail)
  unfolding audit now
  Keeps-audit actor action subject detail = record { at = λ a h. h }

  pub Keeps-move_task : (id : String) (to : TaskStatus) → Keeps (IsQuiet before) (move_task id to)
  unfolding move_task
  Keeps-move_task id to =
      Keeps-bind now (λ t. on_db (set_status t id to)) Keeps-now
        (λ t. Keeps-on_db (set_status t id to))

-- The reads of the database send nothing.
pub Calm-Readable : (before : World) → Readable (IsCalm before)
Calm-Readable before = record { one = λ uid w h. h; all = λ w h. h }
