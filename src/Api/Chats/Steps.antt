-- ===== src/Api/Chats/Steps.antt =====
-- internal/api/handlers.go: what holds through the steps of a chat holds through its request.
use cadenza.Prelude.{String, not, Option, Keeps, Keeps-bind, Keeps-if, str_eq}
use cadenza.Models.Chats.{ChatSession}
use cadenza.Store.Chats.{create_session, get_session}
use cadenza.Agent.{Agent, on_db, now}
use cadenza.Agent.Tools.{Deps}
use cadenza.Agent.Orchestrator.{Outside, chat}
use cadenza.Agent.Orchestrator.Steps.{Writes}
use cadenza.Api.Http.{Method, is_post, always}
use cadenza.Api.Http.Steps.{Keeps-answer, Keeps-guard, Keeps-given, Keeps-tried}
use cadenza.Api.Chats.{
  ChatRequest, empty_session, open_session, resolve_session, user_says, chat_request,
}

-- What a request for a chat does beside the chat keeps a property of the state.
pub record Sessions (P : Agent → Type 0) : Type 0 where
  pub creates_session : (s : ChatSession) → Keeps P (on_db (create_session s))
  pub reads_session : (id : String) → Keeps P (on_db (get_session id))

module _ (P : Agent → Type 0) (d : Deps) (o : Outside) (prompt : String) (writes : Writes P)
    (sessions : Sessions P)
    (chats : (run_id : String) (sess : ChatSession) (message : String)
      → Keeps P (chat d o prompt run_id sess message)) where
  Keeps-open_session : (id : String) → Keeps P (open_session id)
  unfolding open_session
  Keeps-open_session id = Keeps-bind now _ writes.reads_clock (λ t.
      Keeps-bind (on_db (create_session (empty_session id t))) _
        (sessions.creates_session (empty_session id t)) (λ _. record { at = λ a p. p }))

  Keeps-resolve_session : (new_id id : String) → Keeps P (resolve_session new_id id)
  unfolding resolve_session
  Keeps-resolve_session new_id id =
      Keeps-if P (str_eq id "") (open_session new_id) (on_db (get_session id))
        (λ _. Keeps-open_session new_id) (λ _. sessions.reads_session id)

  Keeps-user_says : (id content : String) → Keeps P (user_says id content)
  unfolding user_says
  Keeps-user_says id content = Keeps-bind now _ writes.reads_clock (λ t. writes.appends id _)

  pub Keeps-chat_request :
      (new_id run_id : String) (method : Method) (body : Option ChatRequest)
      → Keeps P (chat_request d o prompt new_id run_id method body)
  unfolding chat_request
  Keeps-chat_request new_id run_id method body = Keeps-guard P (not (is_post method)) 405 _ (
      Keeps-given P 400 body _ (λ req. Keeps-guard P (str_eq req.message "") 400 _ (
        Keeps-tried P (always 404) (resolve_session new_id req.session_id) _
          (Keeps-resolve_session new_id req.session_id)
          (λ sess.
            Keeps-tried P (always 500) (user_says sess.id req.message) _
              (Keeps-user_says sess.id req.message)
              (λ _.
                Keeps-tried P (always 503) (chat d o prompt run_id sess req.message) _
                  (chats run_id sess req.message) (λ reply. Keeps-answer P _))))))
