-- ===== src/Agent/Tools.antt =====
-- internal/agent/tools.go: the tools by their names, as the model of a chat and the clients of MCP
-- call them, and those that only read. Of a call, `parsed` is what
-- decoding its arguments gives, and nothing where that fails.
pub mod Reads
pub mod Lives
pub mod Quiet
use cadenza.Prelude.{
  ℕ, String, Bool, true, false, not, ◌&&◌, ◌||◌, List, [], ◌∷◌, Option, none, some, Result, ok, err,
  Exec, pure, raise, ◌>>=◌, ◌>>◌, keep, map, str_eq, if◌then◌else◌, Bytes, bytes,
}
use cadenza.Models.{Task, TaskStatus, awaiting_approval, done, Collector, CollectorStatus}
use cadenza.Models.Chats.{TaskFilter}
use cadenza.Store.{
  Error, missing_argument, nothing_to_push, git_disabled, git_unread, bad_arguments,
}
use cadenza.Git.{GitError}
use cadenza.Git.Repo.{Repo}
use cadenza.Agent.Gits.{GitReader, GitConfig, read_config}
use cadenza.Store.Pages.{list_collectors}
use cadenza.Store.Lists.{list_tasks}
use cadenza.Store.Tables.{get_collector, get_task}
use cadenza.Diff.Unified.{unified}
use cadenza.Agent.{Agent, on_db}
use cadenza.Agent.Dispatch.{handle_approve, handle_reject, handle_apply_config}
use cadenza.Agent.Generate.{Answer, handle_generate_config, handle_optimize_config, handle_upgrade}

-- A value among the arguments: a text, or one of another type.
pub data Argument : Type 0 where
  text : String → Argument
  other_value : Argument

abbrev pub Arguments : Type 0
Arguments = List (String × Argument)

abbrev pub text_of : Argument → String
text_of (text s) = s
text_of other_value = ""

unfoldable pub get_string : Arguments → String → String
get_string [] key = ""
get_string ((k, v) ∷ args) key =
    let rest = get_string args key in if str_eq k key then text_of v else rest

pub record RequestedCall : Type 0 where
  pub id : String
  pub name : String
  pub raw : String
  pub parsed : Option Arguments

abbrev pub or_bad : Option Arguments → Exec Agent Error Arguments
or_bad none = raise bad_arguments
or_bad (some args) = pure args

unfoldable pub arguments_of : RequestedCall → Exec Agent Error Arguments
arguments_of c = if str_eq c.raw "" || str_eq c.raw "null" then pure [] else or_bad c.parsed

pub data Tool : Type 0 where
  list_collectors_tool get_config_tool generate_tool optimize_tool apply_tool : Tool
  upgrade_tool approve_tool reject_tool list_pending_tool task_diff_tool git_config_tool : Tool

-- The tools under their names.
abbrev pub tools : List (String × Tool)
tools =
    ("list_collectors", list_collectors_tool)
    ∷ ("get_collector_config", get_config_tool)
    ∷ ("generate_config", generate_tool)
    ∷ ("optimize_config", optimize_tool)
    ∷ ("apply_config", apply_tool)
    ∷ ("upgrade_collector", upgrade_tool)
    ∷ ("approve_task", approve_tool)
    ∷ ("reject_task", reject_tool)
    ∷ ("list_pending_tasks", list_pending_tool)
    ∷ ("get_task_diff", task_diff_tool)
    ∷ ("get_git_config", git_config_tool)
    ∷ []

pub tool_among : List (String × Tool) → String → Option Tool
tool_among [] name = none
tool_among ((n, t) ∷ rest) name =
    let others = tool_among rest name in if str_eq n name then some t else others

unfoldable pub tool_named : String → Option Tool
unfolding tool_among
tool_named name = tool_among tools name

pub record CollectorView : Type 0 where
  pub instance_uid : String
  pub hostname : String
  pub version : String
  pub status : CollectorStatus
  pub group_id : String

-- What a tool returns, without the messages that are the same each time.
pub data ToolResult : Type 0 where
  collector_views : List CollectorView → ToolResult
  collector_config : String → String → CollectorStatus → String → ToolResult
  task_result : String → TaskStatus → ToolResult
  pushed_to : ℕ → ToolResult
  pending_tasks : List Task → ToolResult
  task_diff : String → String → String → String → Bytes → Bool → ToolResult
  git_config : GitConfig → ToolResult

abbrev pub view_of : Collector → CollectorView
view_of c = record {
  instance_uid = c.instance_uid;
  hostname = c.hostname;
  version = c.version;
  status = c.status;
  group_id = c.group_id;
}

abbrev pub in_group : String → Collector → Bool
in_group group c = not (not (str_eq group "") && not (str_eq c.group_id group))

unfoldable pub handle_list_collectors : String → Exec Agent Error ToolResult
handle_list_collectors group = do
  all ← on_db (list_collectors 0 0)
  pure (collector_views (map view_of (keep (in_group group) all.0)))

unfoldable pub handle_get_config : String → Exec Agent Error ToolResult
handle_get_config uid = if str_eq uid "" then raise missing_argument else do
  c ← on_db (get_collector uid)
  pure (collector_config c.instance_uid c.version c.status c.effective_config)

unfoldable pub handle_list_pending : Exec Agent Error ToolResult
handle_list_pending = do
  found ← on_db (
      list_tasks
        (record {
          status = some awaiting_approval;
          type = none;
          target = "";
          session_id = "";
          since = 0;
          until = 0;
        })
        0 0)
  pure (pending_tasks found.0)

unfoldable pub task_base_source : Task → String
task_base_source t = if str_eq t.base_yaml "" then "" else t.base_source

abbrev pub diff_of_task : Task → Exec Agent Error ToolResult
diff_of_task t =
    if str_eq t.generated_yaml ""
    then raise nothing_to_push
    else pure (
        task_diff t.id t.base_yaml (task_base_source t) t.generated_yaml
          (unified (bytes t.base_yaml) (bytes t.generated_yaml)) (not (str_eq t.base_yaml "")))

unfoldable pub handle_get_task_diff : String → Exec Agent Error ToolResult
unfolding task_base_source
handle_get_task_diff id =
    if str_eq id "" then raise missing_argument else do t ← on_db (get_task id); diff_of_task t

abbrev pub shown_config : Result GitError GitConfig → Exec Agent Error ToolResult
shown_config (ok found) = pure (git_config found)
shown_config (err e) = raise git_unread

-- The repository as the call finds it, where the server has one. Its commands change nothing in it.
abbrev pub read_shown : Option (GitReader × Repo) → String → String → Exec Agent Error ToolResult
read_shown none uid asked = raise git_disabled
read_shown (some (g, repo)) uid asked = shown_config (read_config g uid asked repo).0

unfoldable pub handle_get_git_config :
    Option (GitReader × Repo) → String → String → Exec Agent Error ToolResult
unfolding read_config
handle_get_git_config found uid asked =
    if str_eq uid "" then raise missing_argument else read_shown found uid asked

-- What the tools use beside the state: what the model answers to an attempt for a task, the
-- validator, the digest, the comparison of configurations, the setting, and the repository as the
-- call with an id finds it.
pub record Deps : Type 0 where
  pub llm : String → ℕ → String → String → Answer
  pub valid : String → Bool
  pub hash : String → String
  pub covers : String → String → Bool
  pub require_approval : Bool
  pub repository : String → Option (GitReader × Repo)

-- A task that waits, or has been dispatched where no approval is required.
abbrev pub shown : Bool → Task → Exec Agent Error ToolResult
shown true t = pure (task_result t.id t.status)
shown false t = pure (task_result t.id done)

module _ (d : Deps) where
  -- The handler of a tool, with the id that a new task gets and the session of the chat.
  unfoldable pub handle : Tool → String → String → Arguments → Exec Agent Error ToolResult
  handle list_collectors_tool id session args = handle_list_collectors (get_string args "group")
  handle get_config_tool id session args = handle_get_config (get_string args "instance_uid")
  handle generate_tool id session args = do
    t ←
        handle_generate_config (d.llm id) d.valid d.hash d.covers d.require_approval id session
          (get_string args "target") (get_string args "description")
    shown d.require_approval t
  handle optimize_tool id session args = do
    t ←
        handle_optimize_config (d.llm id) d.valid d.hash d.covers d.require_approval id session
          (get_string args "instance_uid") (get_string args "goal")
    shown d.require_approval t
  handle apply_tool id session args = do
    n ←
        handle_apply_config d.hash d.valid d.require_approval (get_string args "target")
          (get_string args "yaml")
    pure (pushed_to n)
  handle upgrade_tool id session args = do
    t ← handle_upgrade id session (get_string args "target") (get_string args "version")
    pure (task_result t.id t.status)
  handle approve_tool id session args = do
    handle_approve d.hash d.covers (get_string args "task_id") (get_string args "approver")
    pure (task_result (get_string args "task_id") done)
  handle reject_tool id session args = do
    t ←
        handle_reject (get_string args "task_id") (get_string args "approver")
          (get_string args "reason")
    pure (task_result t.id t.status)
  handle list_pending_tool id session args = handle_list_pending
  handle task_diff_tool id session args = handle_get_task_diff (get_string args "task_id")
  handle git_config_tool id session args =
      handle_get_git_config (d.repository id) (get_string args "instance_uid")
        (get_string args "ref")

  unfoldable pub call : Tool → String → String → RequestedCall → Exec Agent Error ToolResult
  unfolding arguments_of handle
  call tool id session c = do args ← arguments_of c; handle tool id session args
