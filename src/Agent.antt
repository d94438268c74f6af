-- ===== src/Agent.antt =====
-- internal/agent: what the tools of the agent share. The server and the registry are there, as
-- cmd/server wires them.
pub mod Confirm
pub mod Gits
pub mod Subset
pub mod Versions
pub mod Dispatch
pub mod Quiet
pub mod Generate
pub mod Tools
pub mod Orchestrator
use cadenza.Prelude.{
  ℕ, String, Bool, true, false, List, [], ◌∷◌, Option, none, some, Result, ok, err, Exec, pure,
  continue, ◌>>=◌, ◌>>◌, ignore_error,
}
use cadenza.Models.{Task, TaskStatus, AuditAction}
use cadenza.Store.{Db, Error}
use cadenza.Store.Tables.{append_audit, get_task, update_task}
use cadenza.Opamp.Server.{World, AgentMessage, on_message}
use cadenza.Task
use cadenza.Task.{set_status}

-- What happens while a wait for a confirmation sleeps: messages that agents send, with the time
-- and the connection; how much longer than asked the sleep takes; whether the context is done.
pub record Round : Type 0 where
  pub messages : List (ℕ × (ℕ × AgentMessage))
  pub late : ℕ
  pub cancelled : Bool

-- Past the end of the lists nothing happens, and the clock shows the zero time.
pub record Agent : Type 0 where
  pub world : World
  pub rounds : List Round
  pub clock : List ℕ

abbrev pub next_reading : List ℕ → ℕ × List ℕ
next_reading [] = (0, [])
next_reading (t ∷ rest) = (t, rest)

abbrev pub with_db : Db → Agent → Agent
with_db db a = record a { world = record a.world { db = db } }

abbrev pub on_db : {A : Type 0} → Exec Db Error A → Exec Agent Error A
on_db m a = let (r, db) = m a.world.db in (r, with_db db a)

unfoldable pub now : Exec Agent Error ℕ
now a = let (t, rest) = next_reading a.clock in (ok t, record a { clock = rest })

unfoldable pub audit : String → AuditAction → String → String → Exec Agent Error (Unit {0})
unfolding now
audit actor action subject detail = do
  t ← now
  ignore_error
      (on_db (
        append_audit (record {
          id = 0;
          actor = actor;
          action = action;
          subject = subject;
          detail = detail;
          created_at = t;
        })))
      tt

unfoldable pub approve_task : String → String → Exec Agent Error Task
unfolding now
approve_task id approver = do t ← now; on_db (Task.approve t id approver)

unfoldable pub reject_task : String → String → String → Exec Agent Error Task
unfolding now
reject_task id approver reason = do t ← now; on_db (Task.reject t id approver reason)

unfoldable pub move_task : String → TaskStatus → Exec Agent Error Task
unfolding now
move_task id to = do t ← now; on_db (set_status t id to)

-- The read and the write of `setTaskError`; an error of either is dropped.
unfoldable pub set_task_error : String → String → Exec Agent Error (Unit {0})
unfolding now
set_task_error id msg =
    ignore_error
      (do t ← on_db (get_task id); time ← now; on_db (update_task time (record t { error = msg })))
      tt
