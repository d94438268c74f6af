-- ===== src/Agent/Orchestrator/Ends.antt =====
-- internal/agent/orchestrator.go: how often a chat asks the model, and the state of its run.
use cadenza.Prelude.{
  ℕ, zero, suc, ◌+◌, ◌≤◌, ◌<◌, String, ◌≡◌, refl, ap, ◌∙◌, List, [], ◌∷◌, ◌++◌, length,
  length-append, Option, none, some, Result, ok, err, ◌>>=◌, ◌>>◌, pure, raise, bind_cases, Keeps,
  Keeps-bind, arith,
}
use cadenza.Models.Chats.{RunStatus, run_done, run_failed, ToolCall}
use cadenza.Store.{Error, unencodable, model_failed, empty_reply}
use cadenza.Agent.{now}
use cadenza.Agent.Tools.{RequestedCall, Tool, ToolResult, Deps, tool_named, call}
use cadenza.Agent.Orchestrator.{
  Message, Conversation, Turn, Outside, on_agent, or_fail, ask, record_call, started_call,
  refuse_call, accept_call, settle_call, call_found, call_tool, cut_text, answer_call, answer_calls,
  answered, iterate, generate, first_content,
}

module _ (d : Deps) (o : Outside) (sent : List (List Message)) where
  abbrev Sent : Conversation → Type 0
  Sent c = c.requests ≡ sent

  Keeps-accept_call : (x : ToolCall) (r : ToolResult) → Keeps Sent (accept_call d o x r)
  unfolding accept_call now
  Keeps-accept_call x r = go (o.encode r)
    where
      go :
          (payload : Option String)
          → Keeps Sent (elim payload as (λ _. Turn String) [
            | none ↦ raise unencodable
            | some payload ↦ do
              t ← on_agent now
              record_call (record x { result_json = payload; finished_at = t })
              pure (cut_text 4000 payload)
          ])
      go none = record { at = λ c p. p }
      go (some payload) = record { at = λ c p. p }

  Keeps-call_found :
      (found : Option Tool) (c : RequestedCall) (x : ToolCall)
      → Keeps Sent (call_found d o found c x)
  unfolding refuse_call
  Keeps-call_found none c x = record { at = λ s p. p }
  Keeps-call_found (some tool) c x = record {
    at = λ s p.
        let m = call d tool (o.new_id (length s.messages)) s.run.session_id c in
        go (m s.agent).0 (record s { agent = (m s.agent).1 }) p;
  }
    where
      go :
          (r : Result Error ToolResult) (s : Conversation) → Sent s → Sent (settle_call d o x r s).1
      go (ok r) s p = (Keeps-accept_call x r).at s p
      go (err e) s p = p

  Keeps-call_tool : (c : RequestedCall) → Keeps Sent (call_tool d o c)
  unfolding call_tool now
  Keeps-call_tool c =
      Keeps-bind (on_agent now) _ (record { at = λ s p. p })
        (λ t. Keeps-call_found (tool_named c.name) c (started_call c t))

  Keeps-answer_calls : (cs : List RequestedCall) → Keeps Sent (answer_calls d o cs)
  unfolding answer_calls answer_call
  Keeps-answer_calls [] = record { at = λ s p. p }
  Keeps-answer_calls (c ∷ cs) =
      Keeps-bind (answer_call d o c) _ (record { at = λ s p. (Keeps-call_tool c).at s p })
        (λ _. Keeps-answer_calls cs)

answer_calls-ok :
    (d : Deps) (o : Outside) (cs : List RequestedCall) (s : Conversation)
    → (answer_calls d o cs s).0 ≡ ok tt
unfolding answer_calls answer_call
answer_calls-ok d o [] s = refl
answer_calls-ok d o (c ∷ cs) s = answer_calls-ok d o cs (answer_call d o c s).1

or_fail-requests :
    {A : Type 0} (e : Error) (x : Option A) (s : Conversation)
    → (or_fail e x s).1.requests ≡ s.requests
unfolding or_fail
or_fail-requests e none s = refl
or_fail-requests e (some x) s = refl

abbrev pub status_for : Result Error String → RunStatus
status_for (ok reply) = run_done
status_for (err e) = run_failed

-- The run is done if there is a reply and failed if not, and no more requests were sent than may
-- be, but one if one may be.
pub record Ends (left : ℕ) (s : Conversation) (r : Result Error String × Conversation)
    : Type 0 where
  pub settled : r.1.run.status ≡ status_for r.0
  pub most : length r.1.requests ≤ length s.requests + left
  pub grows : length s.requests ≤ length r.1.requests
  pub least : 0 < left → length s.requests < length r.1.requests

or_fail-Ends :
    {A : Type 0} (left : ℕ) (e : Error) (x : Option A) (s0 s : Conversation) (e' : Error)
    → length s.requests ≡ length s0.requests + 1
    → (or_fail e x s).0 ≡ err e'
    → Ends (suc left) s0 (err e', (or_fail e x s).1)
unfolding or_fail
or_fail-Ends left e none s0 s e' h failed = record {
  settled = refl;
  most = omega (arith, h);
  grows = omega (arith, h);
  least = λ _. omega (arith, h);
}
or_fail-Ends left e (some x) s0 s e' h failed = cc

module _ (d : Deps) (o : Outside) where
  later :
      (left : ℕ) (s0 s1 : Conversation) (r : Result Error String × Conversation)
      → length s1.requests ≡ length s0.requests + 1
      → Ends left s1 r
      → Ends (suc left) s0 r
  later left s0 s1 r h ends = record {
    settled = ends.settled;
    most = omega (arith, ends.most, h);
    grows = omega (arith, ends.grows, h);
    least = λ _. omega (arith, ends.grows, h);
  }

  react-Ends :
      (left : ℕ) (m : Message) (cs : List RequestedCall) (s0 s1 : Conversation)
      → length s1.requests ≡ length s0.requests + 1
      → ((s : Conversation) → Ends left s (iterate d o left s))
      → Ends (suc left) s0 (
          (elim cs as (λ _. Turn String) [
            | [] ↦ answered d o m
            | c ∷ calls ↦ answer_calls d o (c ∷ calls) >> iterate d o left
          ])
            s1)
  unfolding now
  react-Ends left m [] s0 s1 h more = record {
    settled = refl;
    most = omega (arith, h);
    grows = omega (arith, h);
    least = λ _. omega (arith, h);
  }
  react-Ends left m (c ∷ cs) s0 s1 h more =
      bind_cases (Ends (suc left) s0) (answer_calls d o (c ∷ cs)) _ s1
        (λ _ _.
          later left s0 (answer_calls d o (c ∷ cs) s1).1 _
            (ap length ((Keeps-answer_calls d o s1.requests (c ∷ cs)).at s1 refl) ∙ h)
            (more (answer_calls d o (c ∷ cs) s1).1))
        (λ e failed.
          let fine : (answer_calls d o (c ∷ cs) s1).0 ≡ ok tt = answer_calls-ok d o (c ∷ cs) s1 in
          cc)

  -- The loop with some iterations left: its run is done if it has a reply and failed if it has
  -- none, the model is asked at most once in each iteration, and at least once if there is one.
  pub iterate-Ends : (left : ℕ) (s : Conversation) → Ends left s (iterate d o left s)
  unfolding iterate
  iterate-Ends zero s = record {
    settled = refl;
    most = omega arith;
    grows = omega arith;
    least = λ h. absurd (omega (arith, h));
  }
  iterate-Ends (suc left) s =
      let asked = (ask d o s).1 in
      let one_more = length-append s.requests (s.messages ∷ []) in
      let found = generate (o.reply s.messages) in
      bind_cases (Ends (suc left) s) (or_fail model_failed found) _ asked
        (λ resp got.
          let s1 = (or_fail model_failed found asked).1 in
          let h1 = ap length (or_fail-requests model_failed found asked) ∙ one_more in
          let s2 = record s1 { run = record s1.run { model_used = resp.0 } } in
          let first = first_content resp.1 in
          bind_cases (Ends (suc left) s) (or_fail empty_reply first) _ s2
            (λ m got_m.
              let s3 = (or_fail empty_reply first s2).1 in
              let h3 = ap length (or_fail-requests empty_reply first s2) ∙ h1 in
              react-Ends left m m.tool_calls s (record s3 { messages = s3.messages ++ m ∷ [] }) h3
                (iterate-Ends left))
            (λ e failed. or_fail-Ends left empty_reply first s s2 e h1 failed))
        (λ e failed. or_fail-Ends left model_failed found s asked e one_more failed)
