-- ===== src/Agent/Orchestrator/Lives.antt =====
-- internal/agent/orchestrator.go: a whole chat, and the state machine of the tasks.
use cadenza.Prelude.{String, ◌≡◌, List, [], ◌∷◌, some, All, find, Keeps}
use cadenza.Models.{Task}
use cadenza.Models.Chats.{ChatSession}
use cadenza.Store.Runs.{create_agent_run, update_agent_run}
use cadenza.Store.Chats.{append_message}
use cadenza.Store.Tables.{task_key}
use cadenza.Store.Tables.Others.{
  tasks-create_agent_run, tasks-update_agent_run, tasks-append_message,
}
use cadenza.Task.Machine.{stay}
use cadenza.Task.Trace.{Lived}
use cadenza.Agent.{Agent}
use cadenza.Agent.Dispatch.Lives.{Grown, Keeps-now, Keeps-spares}
use cadenza.Agent.Tools.{RequestedCall, Deps}
use cadenza.Agent.Tools.Lives.{Keeps-call}
use cadenza.Agent.Orchestrator.{Outside, chat}
use cadenza.Agent.Orchestrator.Steps.{Writes, Keeps-chat}

module _ (k : String) (t0 : Task) where
  pub Lives-Writes : Writes (Grown k t0)
  Lives-Writes = record {
    reads_clock = Keeps-now k t0;
    creates_run = λ r. Keeps-spares k t0 (create_agent_run r) (tasks-create_agent_run r);
    updates_run = λ r. Keeps-spares k t0 (update_agent_run r) (tasks-update_agent_run r);
    appends = λ id m. Keeps-spares k t0 (append_message id m) (tasks-append_message id m);
  }

  any_calls : (cs : List RequestedCall) → All (λ c. Unit {0}) cs
  any_calls [] = tt
  any_calls (c ∷ cs) = (tt, any_calls cs)

  pub Lives-chat :
      (d : Deps) (o : Outside) (prompt run_id : String) (sess : ChatSession) (message : String)
      → Keeps (Grown k t0) (chat d o prompt run_id sess message)
  Lives-chat d o prompt run_id sess message =
      Keeps-chat (Grown k t0) d o (λ c. Unit {0}) Lives-Writes
        (λ tool id session c _ _. Keeps-call k t0 d tool id session c)
        (λ messages m _. any_calls m.tool_calls) prompt run_id sess message

-- Whatever the language model answers in a chat and whichever tools it calls, with whatever
-- arguments, whatever disturbs the database and whatever agents send meanwhile, a task that is
-- stored is still there, in a state to which permitted transitions lead from the one before.
pub chat-Lived :
    (d : Deps) (o : Outside) (prompt run_id : String) (sess : ChatSession) (message : String)
    (a : Agent) (k : String) (t : Task)
    → find task_key k a.world.db.tasks ≡ some t
    → Lived t (find task_key k (chat d o prompt run_id sess message a).1.world.db.tasks)
chat-Lived d o prompt run_id sess message a k t there =
    (Lives-chat k t d o prompt run_id sess message).at a (t, there, ([], stay))
