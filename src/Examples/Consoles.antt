-- ===== src/Examples/Consoles.antt =====
-- internal/api: requests to the console.
use cadenza.Prelude.{
  ◌≡◌, refl, subst, trim_space, Option, String, Bool, true, false, List, [], ◌∷◌, none, some, ok,
  find, map, Bytes, bytes, bytes_eq, decimal, arith,
}
use cadenza.Models.{awaiting_approval, done}
use cadenza.Store.Tables.{task_key}
use cadenza.Agent.{Agent}
use cadenza.Api.Http.{post, get}
use cadenza.Api.Params.{page_params, non_negative_int64, int_param_in_range}
use cadenza.Api.Params.Printed.{params-decimal}
use cadenza.Api.Changes.{ApplyRequest, apply_request}
use cadenza.Api.Changes.Rollback.{RollbackRequest, rollback_request}
use cadenza.Api.Sources.{Console, Site}
use cadenza.Api.Sources.Safe.{
  AreSafe, RepoUse, apply, query, tool_read, reader, use_all, use_all-AreSafe,
}
use cadenza.Api.Gits.Safe.{for_status, for_file}
use cadenza.Git.Repo.Safe.{is_option, PrintsNames}
use cadenza.Api.Changes.Whole.{Request, approving, rejecting, chatting}
use cadenza.Agent.Generate as Generate
use cadenza.Agent.Tools.{Deps, text, approve_tool, git_config, handle_get_git_config}
use cadenza.Agent.Gits.{read_config}
use cadenza.Git.{
  validate_ref, matches_ref_pattern, validate_pathspec, expand_pathspec, replace_from, contains_any,
  among, clean, split_slash, clean_parts, join_slash,
}
use cadenza.Git.Repo.{show_file, resolve, run as run_git}
use cadenza.Opamp.Server.{AgentMessage}
use cadenza.Mcp.{Codec}
use cadenza.Service.{Event, console_request, tool_call, agent_message, run, Stands, run-Stands}
use cadenza.Agent.Orchestrator.{Outside, plain_message, assistant, stream, response}
use cadenza.Agent.Quiet.{IsQuiet}
use cadenza.Api.Changes.Quiet.{changes-IsQuiet}
use cadenza.Api.Access.{is_listed, star, cors_middleware}
use cadenza.Api.Access.Origins.{cors_middleware-listed}
use cadenza.Examples.{empty_world, task_in, db_with}

abbrev server : Agent
server = record {
  world = record empty_world { db = db_with (task_in awaiting_approval) };
  rounds = [];
  clock = 20 ∷ 30 ∷ [];
}

abbrev console : Console
console = record {
  agent = server;
  repo = record { dir = bytes "/srv/fleet"; cached = none; cached_at = 0; commands = [] };
}

-- A repository that answers every command with the name of a commit.
abbrev site : Site
site = record {
  git = λ n args. some (bytes "0123456789abcdef");
  enabled = true;
  settings = record { git_ref = bytes "main"; git_config_pathspec = bytes "{uid}.yaml" };
  text = λ s. "a: 1";
}

abbrev same_text : String → String
same_text yaml = yaml

abbrev covers_all : String → String → Bool
covers_all want have = true

abbrev all_valid : String → Bool
all_valid yaml = true

abbrev requests : List Request
requests =
    rejecting post "amy" (some (record { approver = ""; reason = "no" })) "t1"
    ∷ chatting "s2" "r2" post (some (record { session_id = ""; message = "go on" }))
    ∷ approving post "amy" none "t1"
    ∷ []

abbrev deps : Deps
deps = record {
  llm = λ id n desc context. Generate.unavailable;
  valid = all_valid;
  hash = same_text;
  covers = covers_all;
  require_approval = true;
  repository = λ id. none;
}

abbrev outside : Outside
outside = record {
  reply = λ messages. stream (response "deepseek-chat" (plain_message assistant "done" ∷ []) ∷ []);
  encode = λ r. some "{}";
  describe = λ e. "error";
  new_id = λ n. "t2";
}

abbrev wanted : ApplyRequest
wanted = record {
  collector_instance_uid = "0a";
  yaml = "a: 1";
  note = "";
  session_id = "";
  git_ref = "main";
}

abbrev back : RollbackRequest
back = record {
  collector_instance_uid = "0a";
  version_id = 1;
  session_id = "";
  git_ref = "";
  git_commit = "";
}

changes-IsQuiet_example :
    IsQuiet server
      (apply_request same_text covers_all all_valid true site "t2" post "amy"
        (some wanted)
        console).1.agent
    × IsQuiet server (rollback_request all_valid site "t2" post "amy" (some back) console).1.agent
changes-IsQuiet_example =
    changes-IsQuiet same_text covers_all all_valid site "t2" post "amy" (some wanted) (some back)
      console

params-decimal_example :
    (page_params (record { page = some (decimal 2); page_size = some (decimal 50) })
      ≡ ok (some (2, 50)))
    × (non_negative_int64 (decimal 77) ≡ some 77)
    × (int_param_in_range (decimal 50) 1 100 ≡ some 50)
params-decimal_example =
    params-decimal 2 50 77 (omega arith) (omega arith) (omega arith) (omega arith) (omega arith)

abbrev origin : Bytes
origin = bytes "https://a.example"

cors_middleware-listed_example :
    ((cors_middleware (origin ∷ []) get origin).allow_origin ≡ some origin)
    × (is_listed origin (origin ∷ []) ≡ true)
    × (bytes_eq origin [] ≡ false)
    × (is_listed star (origin ∷ []) ≡ false)
unfolding cors_middleware is_listed bytes_eq
cors_middleware-listed_example = cors_middleware-listed (origin ∷ []) get origin refl

abbrev asked : List RepoUse
asked =
    query (for_status get (bytes "--output=x") 5 6)
    ∷ apply "t2" post "amy" (some wanted)
    ∷ query (for_file get (record { ref = []; path = []; instance_uid = bytes "0a" }))
    ∷ tool_read "0a" "--output=x"
    ∷ tool_read "0a" ""
    ∷ []

same_output : (s t : Bytes) → ◌≡◌ {A = Option Bytes} (some s) (some t) → s ≡ t
same_output s t h = cc

site-PrintsNames : PrintsNames site.git
unfolding trim_space
site-PrintsNames n dir arg out h =
    subst (λ (s : Bytes). is_option (trim_space s) ≡ false)
      (same_output (bytes "0123456789abcdef") out h) refl

use_all-AreSafe_example : AreSafe (use_all deps site asked console)
use_all-AreSafe_example = use_all-AreSafe deps site site-PrintsNames asked console tt

-- The tool reads the file of the agent at the ref that is configured.
read_by_tool :
    (handle_get_git_config (some (reader deps site, console.repo)) "0a" "" server).0
    ≡ ok (
        git_config (record {
          instance_uid = "0a";
          ref = bytes "main";
          git_commit = bytes "0123456789abcdef";
          git_path = bytes "0a.yaml";
          yaml = "a: 1";
        }))
unfolding handle_get_git_config read_config show_file resolve run_git validate_ref
    matches_ref_pattern validate_pathspec expand_pathspec replace_from bytes_eq contains_any among
    clean split_slash clean_parts join_slash trim_space
read_by_tool = refl

abbrev json : Codec
json = record {
  marshal = λ args. some "{}";
  unmarshal = λ raw. some (("task_id", text "t1") ∷ []);
  encode = λ r. some "{}";
  describe = λ e. "error";
}

abbrev hello : AgentMessage
hello = record {
  instance_uid = "0a";
  capabilities = 0;
  description = none;
  health = none;
  effective = none;
  remote_status = none;
}

abbrev settled : Console
settled = record console {
  agent = record server { world = record empty_world { db = db_with (task_in done) } };
}

abbrev events : List Event
events =
    agent_message 7 1 hello
    ∷ tool_call approve_tool "t3" (("task_id", text "t1") ∷ [])
    ∷ map console_request requests

run-Stands_example :
    Stands (task_in done) (
      find task_key "t1"
        (run deps outside "be brief" site json events settled).agent.world.db.tasks)
unfolding find
run-Stands_example =
    run-Stands deps outside "be brief" site json events settled "t1" (task_in done) refl
