-- ===== src/Agent/Tools/Reads.antt =====
-- internal/agent/tools.go: the tools that only read.
use cadenza.Prelude.{
  String, Bool, true, false, ◌||◌, [], Option, none, some, Result, ok, err, Keeps, Keeps-bind,
  Keeps-if, keep, map, str_eq,
}
use cadenza.Models.{Task}
use cadenza.Models.Chats.{TaskFilter}
use cadenza.Store.{missing_argument, nothing_to_push, bad_arguments, git_disabled, git_unread}
use cadenza.Git.{GitError}
use cadenza.Git.Repo.{Repo}
use cadenza.Agent.Gits.{GitReader, GitConfig, read_config}
use cadenza.Store.Pages.{list_collectors}
use cadenza.Store.Lists.{list_tasks}
use cadenza.Store.Tables.{get_collector, get_task}
use cadenza.Agent.{Agent, on_db}
use cadenza.Agent.Generate.Steps.{Keeps-value, Keeps-error}
use cadenza.Agent.Tools.{
  Arguments, RequestedCall, collector_views, collector_config, pending_tasks, view_of, in_group,
  arguments_of, or_bad, handle_list_collectors, handle_get_config, handle_list_pending,
  diff_of_task, handle_get_task_diff, handle_get_git_config, read_shown, shown_config, git_config,
  shown,
}

-- The reads of the tools keep a property of the state.
pub record Reads (P : Agent → Type 0) : Type 0 where
  pub all_collectors : Keeps P (on_db (list_collectors 0 0))
  pub one_collector : (uid : String) → Keeps P (on_db (get_collector uid))
  pub tasks : (f : TaskFilter) → Keeps P (on_db (list_tasks f 0 0))
  pub one_task : (id : String) → Keeps P (on_db (get_task id))

module _ (P : Agent → Type 0) where
  Keeps-or_bad : (parsed : Option Arguments) → Keeps P (or_bad parsed)
  Keeps-or_bad none = Keeps-error P bad_arguments
  Keeps-or_bad (some args) = Keeps-value P args

  pub Keeps-arguments_of : (c : RequestedCall) → Keeps P (arguments_of c)
  unfolding arguments_of
  Keeps-arguments_of c =
      Keeps-if P (str_eq c.raw "" || str_eq c.raw "null") _ _ (λ _. Keeps-value P [])
        (λ _. Keeps-or_bad c.parsed)

  Keeps-shown_config : (r : Result GitError GitConfig) → Keeps P (shown_config r)
  Keeps-shown_config (ok found) = Keeps-value P (git_config found)
  Keeps-shown_config (err e) = Keeps-error P git_unread

  Keeps-read_shown :
      (found : Option (GitReader × Repo)) (uid asked : String)
      → Keeps P (read_shown found uid asked)
  Keeps-read_shown none uid asked = Keeps-error P git_disabled
  Keeps-read_shown (some (g, repo)) uid asked = Keeps-shown_config (read_config g uid asked repo).0

  pub Keeps-handle_get_git_config :
      (found : Option (GitReader × Repo)) (uid asked : String)
      → Keeps P (handle_get_git_config found uid asked)
  unfolding handle_get_git_config
  Keeps-handle_get_git_config found uid asked =
      Keeps-if P (str_eq uid "") _ _ (λ _. Keeps-error P missing_argument)
        (λ _. Keeps-read_shown found uid asked)

  Keeps-diff_of_task : (t : Task) → Keeps P (diff_of_task t)
  Keeps-diff_of_task t =
      Keeps-if P (str_eq t.generated_yaml "") _ _ (λ _. Keeps-error P nothing_to_push)
        (λ _. Keeps-value P _)

  pub Keeps-shown : (require_approval : Bool) (t : Task) → Keeps P (shown require_approval t)
  Keeps-shown true t = Keeps-value P _
  Keeps-shown false t = Keeps-value P _

  module _ (reads : Reads P) where
    pub Keeps-handle_list_collectors : (group : String) → Keeps P (handle_list_collectors group)
    unfolding handle_list_collectors
    Keeps-handle_list_collectors group =
        Keeps-bind (on_db (list_collectors 0 0)) _ reads.all_collectors
          (λ all. Keeps-value P (collector_views (map view_of (keep (in_group group) all.0))))

    pub Keeps-handle_get_config : (uid : String) → Keeps P (handle_get_config uid)
    unfolding handle_get_config
    Keeps-handle_get_config uid =
        Keeps-if P (str_eq uid "") _ _ (λ _. Keeps-error P missing_argument)
          (λ _. Keeps-bind (on_db (get_collector uid)) _ (reads.one_collector uid) (λ c.
            Keeps-value P (collector_config c.instance_uid c.version c.status c.effective_config)))

    pub Keeps-handle_list_pending : Keeps P handle_list_pending
    unfolding handle_list_pending
    Keeps-handle_list_pending =
        Keeps-bind _ _ (reads.tasks _) (λ found. Keeps-value P (pending_tasks found.0))

    pub Keeps-handle_get_task_diff : (id : String) → Keeps P (handle_get_task_diff id)
    unfolding handle_get_task_diff
    Keeps-handle_get_task_diff id =
        Keeps-if P (str_eq id "") _ _ (λ _. Keeps-error P missing_argument)
          (λ _. Keeps-bind (on_db (get_task id)) _ (reads.one_task id) Keeps-diff_of_task)
