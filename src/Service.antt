-- ===== src/Service.antt =====
-- The whole service: what the console, the clients of MCP, the language model and the agents of the
-- collectors do to the one state that they share (internal/api, internal/mcp, internal/opampserver).
use cadenza.Prelude.{ℕ, String, ◌≡◌, true, List, [], ◌∷◌, Option, none, some, find}
use cadenza.Models.{Task}
use cadenza.Store.Tables.{task_key}
use cadenza.Task.Machine.{stay, may_become, Life-may_become}
use cadenza.Task.Trace.{Lived}
use cadenza.Opamp.Server.{AgentMessage, on_message}
use cadenza.Agent.{Agent}
use cadenza.Agent.Dispatch.Steps.{Same-on_message}
use cadenza.Agent.Dispatch.Lives.{Grown, Grown-Same}
use cadenza.Agent.Tools.{Arguments, Tool, Deps}
use cadenza.Agent.Tools.Lives.{Keeps-call}
use cadenza.Agent.Orchestrator.{Outside}
use cadenza.Mcp.{Codec, request_of, call_marshalled, handle_call}
use cadenza.Api.Sources.{Console, Site}
use cadenza.Api.Changes.Whole.{Request, serve, Grown-serve}

-- A request to the console, a call of a tool over MCP, or a message of an agent at a time over a
-- connection.
pub data Event : Type 0 where
  console_request : Request → Event
  tool_call : Tool → String → Arguments → Event
  agent_message : ℕ → ℕ → AgentMessage → Event

abbrev pub receive_message : ℕ → ℕ → AgentMessage → Agent → Agent
receive_message now conn msg a = record a { world = (on_message now conn msg a.world).1 }

module _ (d : Deps) (o : Outside) (prompt : String) (site : Site) (j : Codec) where
  unfoldable pub step : Event → Console → Console
  step (console_request r) c = serve d o prompt site r c
  step (tool_call tool new_id args) c = record c {
    agent = (handle_call d j tool new_id args c.agent).1;
  }
  step (agent_message now conn msg) c = record c { agent = receive_message now conn msg c.agent }

  pub run : List Event → Console → Console
  run [] c = c
  run (e ∷ es) c = run es (step e c)

  module _ (k : String) (t0 : Task) where
    Grown-handle_call :
        (tool : Tool) (new_id : String) (args : Arguments) (a : Agent)
        → Grown k t0 a
        → Grown k t0 (handle_call d j tool new_id args a).1
    unfolding handle_call
    Grown-handle_call tool new_id args a g = go (j.marshal args)
      where
        go : (o : Option String) → Grown k t0 (call_marshalled d j tool new_id o a).1
        go none = g
        go (some raw) = (Keeps-call k t0 d tool new_id "" (request_of j raw)).at a g

    Grown-step : (e : Event) (c : Console) → Grown k t0 c.agent → Grown k t0 (step e c).agent
    unfolding step
    Grown-step (console_request r) c g = Grown-serve d o prompt site k t0 r c g
    Grown-step (tool_call tool new_id args) c g = Grown-handle_call tool new_id args c.agent g
    Grown-step (agent_message now conn msg) c g =
        Grown-Same k t0 c.agent (receive_message now conn msg c.agent)
          (Same-on_message now conn msg c.agent.world) g

    Grown-run : (es : List Event) (c : Console) → Grown k t0 c.agent → Grown k t0 (run es c).agent
    unfolding run
    Grown-run [] c g = g
    Grown-run (e ∷ es) c g = Grown-run es (step e c) (Grown-step e c g)

run-Lived :
    (d : Deps) (o : Outside) (prompt : String) (site : Site) (j : Codec) (es : List Event)
    (c : Console) (k : String) (t : Task)
    → find task_key k c.agent.world.db.tasks ≡ some t
    → Lived t (find task_key k (run d o prompt site j es c).agent.world.db.tasks)
run-Lived d o prompt site j es c k t there =
    Grown-run d o prompt site j k t es c (t, there, ([], stay))

-- Where a task may stand later: it is still there, and its state is one that it may have by now.
abbrev pub Stands : Task → Option Task → Type 0
Stands t last = (t' : Task) × (last ≡ some t') × (may_become t.status t'.status ≡ true)

-- Over any sequence of requests to the console, calls of tools over MCP and messages of agents,
-- each handled to its end before the next begins, and whatever disturbs the database: a stored
-- task is never lost, one that is done or rejected keeps that state for good, and one that is no
-- longer pending is never pending again.
pub run-Stands :
    (d : Deps) (o : Outside) (prompt : String) (site : Site) (j : Codec) (es : List Event)
    (c : Console) (k : String) (t : Task)
    → find task_key k c.agent.world.db.tasks ≡ some t
    → Stands t (find task_key k (run d o prompt site j es c).agent.world.db.tasks)
run-Stands d o prompt site j es c k t there =
    let (t', here, (path, life)) = run-Lived d o prompt site j es c k t there in
    (t', here, Life-may_become life)
