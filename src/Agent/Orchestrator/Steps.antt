-- ===== src/Agent/Orchestrator/Steps.antt =====
-- internal/agent/orchestrator.go: what holds through the calls of tools holds through a chat.
use cadenza.Prelude.{
  ℕ, zero, suc, String, ◌≡◌, refl, List, [], ◌∷◌, Option, none, some, Result, ok, err, Exec, ◌>>=◌,
  ◌>>◌, pure, raise, ignore_error, sym, subst, length, All, Keeps, Keeps-bind, Keeps-bind_with,
}
use cadenza.Models.Chats.{ChatMessage, ChatSession, AgentRun, run_done, ToolCall}
use cadenza.Store.{Error, unknown_tool, unencodable, model_failed, empty_reply}
use cadenza.Store.Runs.{create_agent_run, update_agent_run}
use cadenza.Store.Chats.{append_message}
use cadenza.Agent.{Agent, on_db, now}
use cadenza.Agent.Tools.{RequestedCall, Tool, ToolResult, Deps, tool_named, call}
use cadenza.Agent.Orchestrator.{
  Message, ChatAnswer, Conversation, Turn, Outside, on_agent, set_run, say, or_fail, ask,
  record_call, refuse_call, accept_call, settle_call, call_found, call_tool, answer_call,
  answer_calls, answered, iterate, close_run, new_run, opened, converse, chat, generate,
  first_content, build_messages, started_call, cut_text, max_iterations,
}

-- The clock and what a chat itself writes keep a property of the state.
pub record Writes (P : Agent → Type 0) : Type 0 where
  pub reads_clock : Keeps P now
  pub creates_run : (r : AgentRun) → Keeps P (on_db (create_agent_run r))
  pub updates_run : (r : AgentRun) → Keeps P (on_db (update_agent_run r))
  pub appends : (id : String) (m : ChatMessage) → Keeps P (on_db (append_message id m))

-- The message that an answer gives the chat.
abbrev pub Chosen : ChatAnswer → Message → Type 0
Chosen answer m =
    (r : String × List Message) × (generate answer ≡ some r) × (first_content r.1 ≡ some m)

-- Every call that the model asks for is allowed.
abbrev pub AsksFor : (List Message → ChatAnswer) → (RequestedCall → Type 0) → Type 0
AsksFor reply Allowed =
    (messages : List Message) (m : Message) → Chosen (reply messages) m → All Allowed m.tool_calls

or_fail-eq :
    {A : Type 0} (e : Error) (x : Option A) (s : Conversation) (a : A)
    → (or_fail e x s).0 ≡ ok a
    → x ≡ some a
unfolding or_fail
or_fail-eq e none s a h = cc
or_fail-eq e (some x) s a h = cc

module _ (P : Agent → Type 0) (d : Deps) (o : Outside) (Allowed : RequestedCall → Type 0)
    (writes : Writes P)
    (calls : (tool : Tool) (id session : String) (c : RequestedCall)
      → tool_named c.name ≡ some tool
      → Allowed c
      → Keeps P (call d tool id session c)) where
  abbrev Inside : Conversation → Type 0
  Inside c = P c.agent

  Keeps-on_agent : {A : Type 0} (m : Exec Agent Error A) → Keeps P m → Keeps Inside (on_agent m)
  Keeps-on_agent m h = record { at = λ c p. h.at c.agent p }

  Keeps-or_fail : {A : Type 0} (e : Error) (x : Option A) → Keeps Inside (or_fail e x)
  unfolding or_fail
  Keeps-or_fail e none = record { at = λ c p. p }
  Keeps-or_fail e (some x) = record { at = λ c p. p }

  Keeps-refuse_call : (x : ToolCall) (e : Error) → Keeps Inside (refuse_call d o x e)
  unfolding refuse_call
  Keeps-refuse_call x e = record { at = λ c p. p }

  Keeps-accept_call : (x : ToolCall) (r : ToolResult) → Keeps Inside (accept_call d o x r)
  unfolding accept_call
  Keeps-accept_call x r = go (o.encode r)
    where
      go :
          (payload : Option String)
          → Keeps Inside (elim payload as (λ _. Turn String) [
            | none ↦ raise unencodable
            | some payload ↦ do
              t ← on_agent now
              record_call (record x { result_json = payload; finished_at = t })
              pure (cut_text 4000 payload)
          ])
      go none = record { at = λ c p. p }
      go (some payload) =
          Keeps-bind (on_agent now) _ (Keeps-on_agent now writes.reads_clock)
            (λ t. record { at = λ c p. p })

  Keeps-settle_call :
      (x : ToolCall) (r : Result Error ToolResult) → Keeps Inside (settle_call d o x r)
  Keeps-settle_call x (ok r) = Keeps-accept_call x r
  Keeps-settle_call x (err e) = Keeps-refuse_call x e

  Keeps-call_found :
      (found : Option Tool) (c : RequestedCall) (x : ToolCall)
      → tool_named c.name ≡ found
      → Allowed c
      → Keeps Inside (call_found d o found c x)
  Keeps-call_found none c x e allowed = record {
    at = λ s p. (Keeps-refuse_call x unknown_tool).at s p;
  }
  Keeps-call_found (some tool) c x e allowed = record {
    at = λ s p.
        let id = o.new_id (length s.messages) in
        let m = call d tool id s.run.session_id c in
        (Keeps-settle_call x (m s.agent).0).at (record s { agent = (m s.agent).1 })
          ((calls tool id s.run.session_id c e allowed).at s.agent p);
  }

  Keeps-call_tool : (c : RequestedCall) → Allowed c → Keeps Inside (call_tool d o c)
  unfolding call_tool
  Keeps-call_tool c allowed =
      Keeps-bind (on_agent now) _ (Keeps-on_agent now writes.reads_clock)
        (λ t. Keeps-call_found (tool_named c.name) c (started_call c t) refl allowed)

  Keeps-answer_calls :
      (cs : List RequestedCall) → All Allowed cs → Keeps Inside (answer_calls d o cs)
  unfolding answer_calls answer_call
  Keeps-answer_calls [] h = record { at = λ s p. p }
  Keeps-answer_calls (c ∷ cs) (allowed, h) =
      Keeps-bind (answer_call d o c) _ (record { at = λ s p. (Keeps-call_tool c allowed).at s p })
        (λ _. Keeps-answer_calls cs h)

  Keeps-answered : (m : Message) → Keeps Inside (answered d o m)
  Keeps-answered m = record {
    at = λ s p.
        (Keeps-bind (on_agent now) _ (Keeps-on_agent now writes.reads_clock) (λ t.
            Keeps-bind
              (ignore_error
                (on_agent (
                  on_db (
                    append_message s.run.session_id (record {
                      id = 0;
                      role = "assistant";
                      content = m.content;
                      created_at = t;
                    }))))
                tt)
              (λ _. pure m.content)
              (record { at = (Keeps-on_agent _ (writes.appends s.run.session_id _)).at })
              (λ _. record { at = λ s p. p }))).at
          (record s { run = record s.run { status = run_done } }) p;
  }

  module _ (asks : AsksFor o.reply Allowed) where
    Keeps-react :
        (left : ℕ) (m : Message) (cs : List RequestedCall)
        → All Allowed cs
        → Keeps Inside (iterate d o left)
        → Keeps Inside (elim cs as (λ _. Turn String) [
          | [] ↦ answered d o m
          | c ∷ calls ↦ answer_calls d o (c ∷ calls) >> iterate d o left
        ])
    Keeps-react left m [] h more = Keeps-answered m
    Keeps-react left m (c ∷ cs) h more =
        Keeps-bind (answer_calls d o (c ∷ cs)) _ (Keeps-answer_calls (c ∷ cs) h) (λ _. more)

    Keeps-iterate : (left : ℕ) → Keeps Inside (iterate d o left)
    unfolding iterate
    Keeps-iterate zero = record { at = λ s p. p }
    Keeps-iterate (suc left) =
        Keeps-bind_with (ask d o) _
          (λ answer. (m : Message) → Chosen answer m → All Allowed m.tool_calls)
          (record { at = λ s p. p })
          (λ s answer h m chosen.
            let same : o.reply s.messages ≡ answer = cc in
            asks s.messages m (subst (λ x. Chosen x m) (sym same) chosen))
          (λ answer polite.
            Keeps-bind_with (or_fail model_failed (generate answer)) _
              (λ resp. generate answer ≡ some resp) (Keeps-or_fail model_failed (generate answer))
              (λ s resp h. or_fail-eq model_failed (generate answer) s resp h)
              (λ resp got.
                Keeps-bind (set_run (λ r. record r { model_used = resp.0 })) _
                  (record { at = λ s p. p })
                  (λ _.
                    Keeps-bind_with (or_fail empty_reply (first_content resp.1)) _
                      (λ m. first_content resp.1 ≡ some m)
                      (Keeps-or_fail empty_reply (first_content resp.1))
                      (λ s m h. or_fail-eq empty_reply (first_content resp.1) s m h)
                      (λ m first.
                        Keeps-bind (say m) _ (record { at = λ s p. p })
                          (λ _.
                            Keeps-react left m m.tool_calls (polite m (resp, got, first))
                              (Keeps-iterate left))))))

    Keeps-close_run : (r : AgentRun) → Keeps P (close_run r)
    unfolding close_run
    Keeps-close_run r =
        Keeps-bind now _ writes.reads_clock
          (λ t. record { at = (writes.updates_run (record r { finished_at = t })).at })

    Keeps-converse :
        (run : AgentRun) (messages : List Message) → Keeps P (converse d o run messages)
    Keeps-converse run messages = record {
      at = λ a p.
          let c = (iterate d o max_iterations (opened run messages a)).1 in
          (Keeps-close_run c.run).at c.agent
            ((Keeps-iterate max_iterations).at (opened run messages a) p);
    }

    pub Keeps-chat :
        (prompt run_id : String) (sess : ChatSession) (message : String)
        → Keeps P (chat d o prompt run_id sess message)
    unfolding chat
    Keeps-chat prompt run_id sess message = Keeps-bind now _ writes.reads_clock (λ t.
        let run = new_run run_id sess.id t in
        Keeps-bind (on_db (create_agent_run run)) _ (writes.creates_run run)
          (λ _. Keeps-converse run (build_messages prompt sess message)))
