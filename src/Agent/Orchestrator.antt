-- ===== src/Agent/Orchestrator.antt =====
-- internal/agent/orchestrator.go and sessionctx.go: a chat, in which the model calls tools until it
-- answers. What the model answers to a list of messages is a parameter, and so are the JSON of a
-- result, the text of an error and the ids of new tasks, by the number of messages so far.
pub mod Messages
pub mod Steps
pub mod Status
pub mod Ends
pub mod Lives
pub mod Quiet
use Prim.Native.Char.{len_utf8}
use Prim.Native.String.{◌++◌ as concat}
use cadenza.Prelude.{
  ℕ, zero, suc, ◌-◌, String, Bool, true, false, not, ◌&&◌, List, [], ◌∷◌, ◌++◌, map, length, drop,
  keep, ltb, leb, Option, none, some, Result, ok, err, Exec, pure, raise, ◌>>=◌, ◌>>◌, ignore_error,
  str_eq, if◌then◌else◌,
}
use cadenza.Models.Chats.{
  ChatMessage, ChatSession, AgentRun, RunStatus, running, run_done, run_failed, ToolCall,
}
use cadenza.Store.{Error, unknown_tool, unencodable, model_failed, empty_reply}
use cadenza.Store.Runs.{create_agent_run, update_agent_run}
use cadenza.Store.Chats.{append_message}
use cadenza.Agent.{Agent, on_db, now}
use cadenza.Agent.Tools.{RequestedCall, Tool, ToolResult, Deps, tool_named, call}

pub data Role : Type 0 where
  system user assistant tool_role : Role

-- A message of the conversation with the model.
pub record Message : Type 0 where
  pub role : Role
  pub content : String
  pub tool_calls : List RequestedCall
  pub tool_id : String
  pub tool_name : String

-- One response of a stream: an error, or the name of the model and the messages of its choices.
pub data ChatResponse : Type 0 where
  failed_response : ChatResponse
  response : String → List Message → ChatResponse

pub data ChatAnswer : Type 0 where
  unavailable : ChatAnswer
  stream : List ChatResponse → ChatAnswer

-- The last response of a stream in which none is an error.
unfoldable pub last_response : List ChatResponse → Option (String × List Message)
last_response [] = none
last_response (failed_response ∷ rest) = none
last_response (response model choices ∷ []) = some (model, choices)
last_response (response model choices ∷ next ∷ rest) = last_response (next ∷ rest)

unfoldable pub generate : ChatAnswer → Option (String × List Message)
unfolding last_response
generate unavailable = none
generate (stream responses) = last_response responses

unfoldable pub first_content : List Message → Option Message
first_content [] = none
first_content (m ∷ rest) = some m

abbrev pub max_history : ℕ
max_history = 20

abbrev pub max_iterations : ℕ
max_iterations = 6

abbrev pub plain_message : Role → String → Message
plain_message role content = record {
  role = role;
  content = content;
  tool_calls = [];
  tool_id = "";
  tool_name = "";
}

-- The last messages of a chat.
unfoldable pub recent : List ChatMessage → List ChatMessage
recent rows = if ltb max_history (length rows) then drop (length rows - max_history) rows else rows

-- The role of a stored message that is passed on.
abbrev pub role_of : String → Option Role
role_of s =
    if str_eq s "user" then some user else if str_eq s "assistant" then some assistant else none

abbrev pub with_role : Option Role → String → List Message → List Message
with_role none content rest = rest
with_role (some r) content rest = plain_message r content ∷ rest

unfoldable pub history : List ChatMessage → List Message
history [] = []
history (m ∷ rows) = with_role (role_of m.role) m.content (history rows)

-- The text of the system prompt is an argument.
unfoldable pub build_messages : String → ChatSession → String → List Message
unfolding recent history
build_messages prompt sess message =
    plain_message system prompt
    ∷ (history (recent sess.messages) ++ plain_message user message ∷ [])

-- The conversation within a chat, with the requests that the model was sent.
pub record Conversation : Type 0 where
  pub agent : Agent
  pub run : AgentRun
  pub messages : List Message
  pub requests : List (List Message)

abbrev pub Turn : Type 0 → Type 0
Turn A = Exec Conversation Error A

abbrev pub on_agent : {A : Type 0} → Exec Agent Error A → Turn A
on_agent m c = let (r, a) = m c.agent in (r, record c { agent = a })

abbrev pub set_run : (AgentRun → AgentRun) → Turn (Unit {0})
set_run f c = (ok tt, record c { run = f c.run })

abbrev pub finish_as : RunStatus → Turn (Unit {0})
finish_as s = set_run (λ r. record r { status = s })

abbrev pub say : Message → Turn (Unit {0})
say m c = (ok tt, record c { messages = c.messages ++ m ∷ [] })

-- A value, or the end of the run as failed.
unfoldable pub or_fail : {A : Type 0} → Error → Option A → Turn A
or_fail e none = do finish_as run_failed; raise e
or_fail e (some x) = pure x

abbrev pub limit_text : String
limit_text = "已达到最大工具迭代次数，请简化指令或拆分步骤后重试。"

-- The characters in the first bytes of a text, and the mark of what was cut. A character that the
-- cut would split is left out whole.
unfoldable pub cut_text : ℕ → String → String
cut_text n String.[] = ""
cut_text n (String.◌∷◌ c s) =
    let rest = cut_text (n - len_utf8 c) s in
    if leb (len_utf8 c) n then String.◌∷◌ c rest else "...(截断)"

-- What a chat uses beside the tools.
pub record Outside : Type 0 where
  pub reply : List Message → ChatAnswer
  pub encode : ToolResult → Option String
  pub describe : Error → String
  pub new_id : ℕ → String

abbrev pub record_call : ToolCall → Turn (Unit {0})
record_call x = set_run (λ r. record r { tool_calls = r.tool_calls ++ x ∷ [] })

abbrev pub started_call : RequestedCall → ℕ → ToolCall
started_call c t = record {
  name = c.name;
  arguments_json = c.raw;
  result_json = "";
  error = "";
  started_at = t;
  finished_at = 0;
}

-- The deferred end of a run; an error of the write is dropped.
unfoldable pub close_run : AgentRun → Exec Agent Error (Unit {0})
close_run run = do
  t ← now
  ignore_error (on_db (update_agent_run (record run { finished_at = t }))) tt

abbrev pub new_run : String → String → ℕ → AgentRun
new_run id session t = record {
  id = id;
  session_id = session;
  agent_type = "config_generator";
  tool_calls = [];
  status = running;
  model_used = "";
  started_at = t;
  finished_at = 0;
}

abbrev pub opened : AgentRun → List Message → Agent → Conversation
opened run messages a = record { agent = a; run = run; messages = messages; requests = [] }

abbrev pub tool_message : RequestedCall → String → Message
tool_message c content = record {
  role = tool_role;
  content = content;
  tool_calls = [];
  tool_id = c.id;
  tool_name = c.name;
}

module _ (d : Deps) (o : Outside) where
  -- An error of the tool, or of its lookup, is recorded.
  unfoldable pub refuse_call : ToolCall → Error → Turn String
  refuse_call x e = do record_call (record x { error = o.describe e }); raise e

  -- The text of a result is recorded whole and cut for the model; where it has none, the call is
  -- not recorded.
  unfoldable pub accept_call : ToolCall → ToolResult → Turn String
  unfolding cut_text
  accept_call x result = elim (o.encode result) [
    | none ↦ raise unencodable
    | some payload ↦ do
      t ← on_agent now
      record_call (record x { result_json = payload; finished_at = t })
      pure (cut_text 4000 payload)
  ]

  abbrev pub settle_call : ToolCall → Result Error ToolResult → Turn String
  settle_call x (ok result) = accept_call x result
  settle_call x (err e) = refuse_call x e

  abbrev pub call_found : Option Tool → RequestedCall → ToolCall → Turn String
  call_found none c x s = refuse_call x unknown_tool s
  call_found (some tool) c x s =
      let (r, a) = call d tool (o.new_id (length s.messages)) s.run.session_id c s.agent in
      settle_call x r (record s { agent = a })

  unfoldable pub call_tool : RequestedCall → Turn String
  unfolding refuse_call accept_call
  call_tool c = do t ← on_agent now; call_found (tool_named c.name) c (started_call c t)

  abbrev pub content_of : Result Error String → String
  content_of (ok text) = text
  content_of (err e) = concat "工具调用失败: " (o.describe e)

  -- A call whose error, if it has one, becomes the message for the model.
  unfoldable pub answer_call : RequestedCall → Turn (Unit {0})
  unfolding call_tool
  answer_call c s = let (r, s') = call_tool c s in say (tool_message c (content_of r)) s'

  unfoldable pub answer_calls : List RequestedCall → Turn (Unit {0})
  unfolding answer_call
  answer_calls [] = pure tt
  answer_calls (c ∷ calls) = answer_call c >> answer_calls calls

  abbrev pub ask : Turn ChatAnswer
  ask s = (ok (o.reply s.messages), record s { requests = s.requests ++ s.messages ∷ [] })

  abbrev pub answered : Message → Turn String
  answered m s =
      (do
        finish_as run_done
        t ← on_agent now
        ignore_error
            (on_agent (
              on_db (
                append_message s.run.session_id
                  (record { id = 0; role = "assistant"; content = m.content; created_at = t }))))
            tt
        pure m.content)
        s

  -- The loop of `Chat`, with the iterations that are left.
  unfoldable pub iterate : ℕ → Turn String
  unfolding generate first_content or_fail answer_calls
  iterate zero = do finish_as run_done; pure limit_text
  iterate (suc left) = do
    answer ← ask
    resp ← or_fail model_failed (generate answer)
    set_run (λ r. record r { model_used = resp.0 })
    m ← or_fail empty_reply (first_content resp.1)
    say m
    elim m.tool_calls [ [] ↦ answered m | c ∷ calls ↦ answer_calls (c ∷ calls) >> iterate left ]

  abbrev pub converse : AgentRun → List Message → Exec Agent Error String
  converse run messages a =
      let (r, c) = iterate max_iterations (opened run messages a) in
      (r, (close_run c.run c.agent).1)

  unfoldable pub chat : String → String → ChatSession → String → Exec Agent Error String
  unfolding iterate build_messages close_run
  chat prompt run_id sess message = do
    t ← now
    on_db (create_agent_run (new_run run_id sess.id t))
    converse (new_run run_id sess.id t) (build_messages prompt sess message)
