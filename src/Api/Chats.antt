-- ===== src/Api/Chats.antt =====
-- internal/api/handlers.go: a message that a user sends to the assistant. A body that cannot be
-- decoded is `none`; the ids of a new session and of the run are arguments.
pub mod Steps
use cadenza.Prelude.{
  ℕ, String, Bool, true, false, not, [], Option, none, some, Exec, pure, ◌>>=◌, ◌>>◌, str_eq,
  if◌then◌else◌,
}
use cadenza.Models.Chats.{ChatMessage, ChatSession}
use cadenza.Store.{Error}
use cadenza.Store.Chats.{create_session, get_session, append_message}
use cadenza.Agent.{Agent, on_db, now}
use cadenza.Agent.Tools.{Deps}
use cadenza.Agent.Orchestrator.{Outside, chat}
use cadenza.Api.Http.{Method, is_post, refuse_if, or_refuse, refuse_as, always}

pub record ChatRequest : Type 0 where
  pub session_id : String
  pub message : String

pub record ChatReply : Type 0 where
  pub session_id : String
  pub reply : String

abbrev pub empty_session : String → ℕ → ChatSession
empty_session id t = record { id = id; messages = []; created_at = t }

unfoldable pub open_session : String → Exec Agent Error ChatSession
open_session id = do t ← now; on_db (create_session (empty_session id t)); pure (empty_session id t)

-- The session with an id, or a new one where the request names none.
unfoldable pub resolve_session : String → String → Exec Agent Error ChatSession
unfolding open_session
resolve_session new_id id = if str_eq id "" then open_session new_id else on_db (get_session id)

unfoldable pub user_says : String → String → Exec Agent Error (Unit {0})
user_says id content = do
  t ← now
  on_db (append_message id (record { id = 0; role = "user"; content = content; created_at = t }))

unfoldable pub chat_request :
    Deps → Outside → String → String → String → Method → Option ChatRequest → Exec Agent ℕ ChatReply
unfolding resolve_session user_says
chat_request d o prompt new_id run_id method body = do
  refuse_if (not (is_post method)) 405
  req ← or_refuse 400 body
  refuse_if (str_eq req.message "") 400
  sess ← refuse_as (always 404) (resolve_session new_id req.session_id)
  refuse_as (always 500) (user_says sess.id req.message)
  reply ← refuse_as (always 503) (chat d o prompt run_id sess req.message)
  pure (record { session_id = sess.id; reply = reply })
