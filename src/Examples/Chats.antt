-- ===== src/Examples/Chats.antt =====
-- internal/agent/orchestrator.go: chats with a language model.
use cadenza.Prelude.{
  ◌≡◌, refl, subst, String, true, List, [], ◌∷◌, ◌++◌, none, some, map, keep, All, arith,
}
use cadenza.Models.{awaiting_approval}
use cadenza.Models.Chats.{ChatMessage, ChatSession}
use cadenza.Agent.{Agent}
use cadenza.Agent.Quiet.{IsQuiet}
use cadenza.Agent.Generate.{Answer}
use cadenza.Agent.Generate as Generate
use cadenza.Agent.Tools.{text, RequestedCall, Deps, tool_named}
use cadenza.Agent.Orchestrator.{
  Message, assistant, system, user, stream, response, Outside, Conversation, plain_message, iterate,
  answer_calls, build_messages, chat, generate, first_content, max_iterations, opened, new_run,
  last_response, cut_text,
}
use cadenza.Agent.Orchestrator.Messages.{Window, speaks, spoken, build_messages-Window}
use cadenza.Agent.Orchestrator.Status.{Answers, answer_calls-Answers}
use cadenza.Agent.Orchestrator.Ends.{Ends, iterate-Ends}
use cadenza.Agent.Orchestrator.Steps.{AsksFor}
use cadenza.Agent.Orchestrator.Quiet.{NotApproving, chat-IsQuiet}
use cadenza.Examples.{empty_world, task_in, db_with}

abbrev server : Agent
server = record {
  world = record empty_world { db = db_with (task_in awaiting_approval) };
  rounds = [];
  clock = 20 ∷ 30 ∷ [];
}

abbrev deps : Deps
deps = record {
  llm = λ id n desc context. Generate.stream (Generate.choices ("receivers: {}" ∷ []) ∷ []);
  valid = λ yaml. true;
  hash = λ yaml. yaml;
  covers = λ want have. true;
  require_approval = true;
  repository = λ id. none;
}

abbrev approve_call : RequestedCall
approve_call = record {
  id = "c1";
  name = "approve_task";
  raw = "{\"task_id\": \"t1\"}";
  parsed = some (("task_id", text "t1") ∷ []);
}

abbrev generate_call : RequestedCall
generate_call = record {
  id = "c2";
  name = "generate_config";
  raw = "{\"target\": \"edge\", \"description\": \"metrics\"}";
  parsed = some (("target", text "edge") ∷ ("description", text "metrics") ∷ []);
}

abbrev odd_call : RequestedCall
odd_call = record { id = "c3"; name = "restart"; raw = ""; parsed = none }

abbrev asking : List RequestedCall → Message
asking calls = record {
  role = assistant;
  content = "";
  tool_calls = calls;
  tool_id = "";
  tool_name = "";
}

-- A model that asks for the same calls again and again.
abbrev outside : List RequestedCall → Outside
outside calls = record {
  reply = λ messages. stream (response "deepseek-chat" (asking calls ∷ []) ∷ []);
  encode = λ r. some "{}";
  describe = λ e. "error";
  new_id = λ n. "t2";
}

abbrev line : String → ChatMessage
line role = record { id = 1; role = role; content = "hello"; created_at = 4 }

abbrev session : ChatSession
session = record {
  id = "s1";
  messages = line "user" ∷ line "tool" ∷ line "assistant" ∷ [];
  created_at = 3;
}

abbrev begun : Conversation
begun = opened (new_run "r1" "s1" 5) (plain_message user "hello" ∷ []) server

asks_for_generation : AsksFor (outside (generate_call ∷ [])).reply NotApproving
unfolding generate last_response first_content tool_named
asks_for_generation messages m (r, answered, first) =
    let same : asking (generate_call ∷ []) ≡ m = ground (arith, answered, first) in
    subst (λ (x : Message). All NotApproving x.tool_calls) same (refl, tt)

chat-IsQuiet_example :
    IsQuiet server
      (chat deps (outside (generate_call ∷ [])) "be brief" "r1" session "go on" server).1
chat-IsQuiet_example =
    chat-IsQuiet deps (outside (generate_call ∷ [])) "be brief" "r1" session "go on" server refl
      asks_for_generation

answer_calls-Answers_example :
    Answers
      (approve_call ∷ odd_call ∷ [])
      begun
      (answer_calls deps (outside []) (approve_call ∷ odd_call ∷ []) begun).1
answer_calls-Answers_example =
    answer_calls-Answers deps (outside []) (λ r. ("{}", refl)) (approve_call ∷ odd_call ∷ []) begun

iterate-Ends_example :
    Ends max_iterations begun (iterate deps (outside (odd_call ∷ [])) max_iterations begun)
iterate-Ends_example = iterate-Ends deps (outside (odd_call ∷ [])) max_iterations begun

build_messages-Window_example :
    (shown : List ChatMessage) × Window session.messages shown
    × (build_messages "be brief" session "go on"
        ≡ plain_message system "be brief"
          ∷ (map spoken (keep speaks shown) ++ plain_message user "go on" ∷ []))
build_messages-Window_example = build_messages-Window "be brief" session "go on"

-- 1, 2 and 3 bytes, of which the first two characters fit in 4.
cut_inside : cut_text 4 "aé漢b" ≡ "aé...(截断)"
unfolding cut_text
cut_inside = refl

cut_nothing : cut_text 7 "aé漢b" ≡ "aé漢b"
unfolding cut_text
cut_nothing = refl
