-- ===== src/Agent/Orchestrator/Quiet.antt =====
-- internal/agent/orchestrator.go: a chat in which the model approves nothing.
use cadenza.Prelude.{String, ◌≡◌, refl, Bool, true, false, some, Option, none, subst}
use cadenza.Models.Chats.{ChatSession}
use cadenza.Store.Runs.{create_agent_run, update_agent_run}
use cadenza.Store.Chats.{append_message}
use cadenza.Agent.{Agent}
use cadenza.Agent.Quiet.{IsQuiet, Keeps-on_db, Keeps-now}
use cadenza.Agent.Tools.{RequestedCall, Tool, Deps, tool_named}
use cadenza.Agent.Tools.Quiet.{approves, Keeps-call}
use cadenza.Agent.Orchestrator.{Outside, chat}
use cadenza.Agent.Orchestrator.Steps.{Writes, AsksFor, Keeps-chat}

abbrev pub approves_by_name : Option Tool → Bool
approves_by_name none = false
approves_by_name (some tool) = approves tool

-- A call of any tool but the one that approves.
abbrev pub NotApproving : RequestedCall → Type 0
NotApproving c = approves_by_name (tool_named c.name) ≡ false

Quiet-Writes : (before : Agent) → Writes (IsQuiet before)
Quiet-Writes before = record {
  reads_clock = Keeps-now before;
  creates_run = λ r. Keeps-on_db before (create_agent_run r);
  updates_run = λ r. Keeps-on_db before (update_agent_run r);
  appends = λ id m. Keeps-on_db before (append_message id m);
}

-- Where approval is required, a chat in which the model never calls the tool that approves, but
-- any others with any arguments, sends nothing to an agent, leaves nothing to be sent, and does
-- not change the registry.
pub chat-IsQuiet :
    (d : Deps) (o : Outside) (prompt run_id : String) (sess : ChatSession) (message : String)
    (a : Agent)
    → d.require_approval ≡ true
    → AsksFor o.reply NotApproving
    → IsQuiet a (chat d o prompt run_id sess message a).1
chat-IsQuiet d o prompt run_id sess message a required asks =
    (Keeps-chat (IsQuiet a) d o NotApproving (Quiet-Writes a)
        (λ tool id session c found allowed.
          Keeps-call a d required tool id session c
            (subst (λ x. approves_by_name x ≡ false) found allowed))
        asks prompt run_id sess message).at
      a (refl, refl, refl)
