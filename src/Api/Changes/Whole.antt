-- ===== src/Api/Changes/Whole.antt =====
-- internal/api: the requests that change tasks, and what they leave of a stored task.
use cadenza.Prelude.{String, Option}
use cadenza.Models.{Task}
use cadenza.Agent.Dispatch.Lives.{Grown, Keeps-spares}
use cadenza.Agent.Tools.{Deps}
use cadenza.Agent.Orchestrator.{Outside}
use cadenza.Agent.Orchestrator.Lives.{Lives-Writes, Lives-chat}
use cadenza.Store.Chats.{create_session, get_session}
use cadenza.Store.Tables.Others.{tasks-create_session, tasks-get_session}
use cadenza.Api.Chats.{ChatRequest, chat_request}
use cadenza.Api.Chats.Steps.{Sessions, Keeps-chat_request}
use cadenza.Api.Http.{Method}
use cadenza.Api.Changes.{
  RejectRequest, ApplyRequest, reject_request, approve_request, apply_request,
}
use cadenza.Api.Changes.Rollback.{RollbackRequest, rollback_request}
use cadenza.Api.Sources.{Console, Site, on_agent}
use cadenza.Api.Changes.Steps.{Held, Keeps-apply_request, Keeps-rollback_request}
use cadenza.Api.Changes.Lives.{
  Keeps-approve_request, Keeps-answer_apply, Keeps-reject_request, Grown-Steps,
}

-- The requests that change tasks, with the id that a new task, session or run gets.
pub data Request : Type 0 where
  approving : Method → String → Option String → String → Request
  rejecting : Method → String → Option RejectRequest → String → Request
  applying_yaml : String → Method → String → Option ApplyRequest → Request
  rolling_back : String → Method → String → Option RollbackRequest → Request
  chatting : String → String → Method → Option ChatRequest → Request

module _ (d : Deps) (o : Outside) (prompt : String) (site : Site) where
  unfoldable pub serve : Request → Console → Console
  serve (approving method username body id) c =
      (on_agent (approve_request d.hash d.covers method username body id) c).1
  serve (rejecting method username body id) c =
      (on_agent (reject_request method username body id) c).1
  serve (applying_yaml id method username body) c =
      (apply_request d.hash d.covers d.valid d.require_approval site id method username body c).1
  serve (rolling_back id method username body) c =
      (rollback_request d.valid site id method username body c).1
  serve (chatting new_id run_id method body) c =
      (on_agent (chat_request d o prompt new_id run_id method body) c).1

  module _ (k : String) (t0 : Task) where
    Lives-Sessions : Sessions (Grown k t0)
    Lives-Sessions = record {
      creates_session = λ s. Keeps-spares k t0 (create_session s) (tasks-create_session s);
      reads_session = λ id. Keeps-spares k t0 (get_session id) (tasks-get_session id);
    }

    pub Grown-serve :
        (r : Request) (c : Console) → Held (Grown k t0) c → Held (Grown k t0) (serve r c)
    unfolding serve
    Grown-serve (approving method username body id) c g =
        (Keeps-approve_request k t0 d.hash d.covers method username body id).at c.agent g
    Grown-serve (rejecting method username body id) c g =
        (Keeps-reject_request k t0 method username body id).at c.agent g
    Grown-serve (applying_yaml id method username body) c g =
        (Keeps-apply_request (Grown k t0) (Grown-Steps k t0) d.hash d.covers d.require_approval
            (Keeps-answer_apply k t0 d.hash d.covers d.require_approval) d.valid site id method
            username body).at
          c g
    Grown-serve (rolling_back id method username body) c g =
        (Keeps-rollback_request (Grown k t0) (Grown-Steps k t0) d.valid site id method username
            body).at
          c g
    Grown-serve (chatting new_id run_id method body) c g =
        (Keeps-chat_request (Grown k t0) d o prompt (Lives-Writes k t0) Lives-Sessions
            (Lives-chat k t0 d o prompt) new_id run_id method body).at
          c.agent g
