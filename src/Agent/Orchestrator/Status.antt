-- ===== src/Agent/Orchestrator/Status.antt =====
-- internal/agent/orchestrator.go: how a chat ends, and how it answers the calls of the model.
use mathlib.Core.List.{append-nil, append_assoc}
use cadenza.Prelude.{
  String, ◌≡◌, refl, sym, ap, ◌∙◌, List, [], ◌∷◌, ◌++◌, length, Option, none, some, Result, ok, err,
  ◌>>=◌, ◌>>◌, pure, raise, map,
}
use cadenza.Models.Chats.{ToolCall}
use cadenza.Store.{Error, unknown_tool, unencodable}
use cadenza.Agent.{Agent, now, next_reading}
use cadenza.Agent.Tools.{RequestedCall, Tool, ToolResult, Deps, tool_named, call}
use cadenza.Agent.Orchestrator.{
  Message, Conversation, Turn, Outside, on_agent, record_call, started_call, refuse_call,
  accept_call, settle_call, call_found, call_tool, tool_message, content_of, cut_text, answer_call,
  answer_calls,
}

-- A step that records a call and leaves the messages and the requests.
record Records (name : String) (s s' : Conversation) : Type 0 where
  pub messages : s'.messages ≡ s.messages
  pub requests : s'.requests ≡ s.requests
  pub call : ToolCall
  pub recorded : s'.run.tool_calls ≡ s.run.tool_calls ++ call ∷ []
  pub named : call.name ≡ name

-- The calls are answered in their order, each by one message with its id, and recorded in their
-- order under their names.
pub record Answers (cs : List RequestedCall) (s s' : Conversation) : Type 0 where
  pub answers : List Message
  pub messages : s'.messages ≡ s.messages ++ answers
  pub ids : map (λ (m : Message). m.tool_id) answers ≡ map (λ (c : RequestedCall). c.id) cs
  pub calls : List ToolCall
  pub recorded : s'.run.tool_calls ≡ s.run.tool_calls ++ calls
  pub named : map (λ (x : ToolCall). x.name) calls ≡ map (λ (c : RequestedCall). c.name) cs

-- The state of the server does not matter.
Records-from :
    {name : String} (a : Agent) (s s' : Conversation)
    → Records name (record s { agent = a }) s'
    → Records name s s'
Records-from a s s' r = record {
  messages = r.messages;
  requests = r.requests;
  call = r.call;
  recorded = r.recorded;
  named = r.named;
}

module _ (d : Deps) (o : Outside) where
  Records-refuse :
      (x : ToolCall) (e : Error) (s : Conversation) → Records x.name s (refuse_call d o x e s).1
  unfolding refuse_call
  Records-refuse x e s = record {
    messages = refl;
    requests = refl;
    call = _;
    recorded = refl;
    named = refl;
  }

  module _ (encodes : (r : ToolResult) → (t : String) × (o.encode r ≡ some t)) where
    Records-accept :
        (x : ToolCall) (r : ToolResult) (s : Conversation)
        → Records x.name s (accept_call d o x r s).1
    unfolding accept_call now
    Records-accept x r s = go (o.encode r) (encodes r)
      where
        go :
            (payload : Option String)
            → ((t : String) × (payload ≡ some t))
            → Records x.name s
                ((elim payload as (λ _. Turn String) [
                  | none ↦ raise unencodable
                  | some payload ↦ do
                    t ← on_agent now
                    record_call (record x { result_json = payload; finished_at = t })
                    pure (cut_text 4000 payload)
                ])
                  s).1
        go none (t, e) = cc
        go (some payload) e = record {
          messages = refl;
          requests = refl;
          call = _;
          recorded = refl;
          named = refl;
        }

    Records-found :
        (found : Option Tool) (c : RequestedCall) (x : ToolCall) (s : Conversation)
        → Records x.name s (call_found d o found c x s).1
    Records-found none c x s = Records-refuse x unknown_tool s
    Records-found (some tool) c x s =
        let m = call d tool (o.new_id (length s.messages)) s.run.session_id c in
        Records-from (m s.agent).1 s _ (settled (m s.agent).0 (record s { agent = (m s.agent).1 }))
      where
        settled :
            (r : Result Error ToolResult) (s1 : Conversation)
            → Records x.name s1 (settle_call d o x r s1).1
        settled (ok r) s1 = Records-accept x r s1
        settled (err e) s1 = Records-refuse x e s1

    Records-call_tool :
        (c : RequestedCall) (s : Conversation) → Records c.name s (call_tool d o c s).1
    unfolding call_tool now
    Records-call_tool c s =
        let (t, clock) = next_reading s.agent.clock in
        let a = record s.agent { clock = clock } in
        Records-from a s _
          (Records-found (tool_named c.name) c (started_call c t) (record s { agent = a }))

    -- The calls of a message, where every result has a text, are answered in their order by one
    -- message each, with the id of the call, whether they fail or not, and are recorded in the
    -- same order under their names, unknown ones among them.
    pub answer_calls-Answers :
        (cs : List RequestedCall) (s : Conversation) → Answers cs s (answer_calls d o cs s).1
    unfolding answer_calls answer_call
    answer_calls-Answers [] s = record {
      answers = [];
      messages = sym (append-nil s.messages);
      ids = refl;
      calls = [];
      recorded = sym (append-nil s.run.tool_calls);
      named = refl;
    }
    answer_calls-Answers (c ∷ cs) s =
        let first = Records-call_tool c s in
        let s1 = (answer_call d o c s).1 in
        let rest = answer_calls-Answers cs s1 in
        let reply = tool_message c (content_of d o (call_tool d o c s).0) in
        record {
          answers = reply ∷ rest.answers;
          messages =
              rest.messages
              ∙ ap (λ l. (l ++ reply ∷ []) ++ rest.answers) first.messages
              ∙ append_assoc s.messages (reply ∷ []) rest.answers;
          ids = ap (λ l. c.id ∷ l) rest.ids;
          calls = first.call ∷ rest.calls;
          recorded =
              rest.recorded
              ∙ ap (λ l. l ++ rest.calls) first.recorded
              ∙ append_assoc s.run.tool_calls (first.call ∷ []) rest.calls;
          named =
              ap (λ l. first.call.name ∷ l) rest.named
              ∙ ap (λ n. n ∷ map (λ (x : RequestedCall). x.name) cs) first.named;
        }
