-- ===== src/Agent/Tools/Quiet.antt =====
-- internal/agent/tools.go: the tools that leave the agents alone where approval is required.
use cadenza.Prelude.{
  String, ◌≡◌, sym, subst, Bool, true, false, Keeps, Keeps-bind, Keeps-if, str_eq, if◌then◌else◌,
}
use cadenza.Models.{reject_action}
use cadenza.Store.{missing_argument, approval_required}
use cadenza.Store.Pages.{list_collectors}
use cadenza.Store.Lists.{list_tasks}
use cadenza.Store.Tables.{get_collector, get_task}
use cadenza.Task
use cadenza.Agent.{Agent, now, audit, reject_task}
use cadenza.Agent.Dispatch.{handle_reject, handle_apply_config}
use cadenza.Agent.Quiet.{IsQuiet, Keeps-on_db, Keeps-now, Keeps-audit}
use cadenza.Agent.Generate.{handle_generate_config, handle_optimize_config, handle_upgrade}
use cadenza.Agent.Generate.Steps.{
  Keeps-value, Keeps-error, Keeps-handle_upgrade, Keeps-handle_generate_config,
  Keeps-handle_optimize_config,
}
use cadenza.Agent.Generate.Quiet.{Quiet-Steps, Keeps-delivers}
use cadenza.Agent.Tools.Reads.{
  Reads, Keeps-handle_list_collectors, Keeps-handle_get_config, Keeps-handle_list_pending,
  Keeps-handle_get_task_diff, Keeps-handle_get_git_config, Keeps-shown, Keeps-arguments_of,
}
use cadenza.Agent.Tools.{
  Arguments, RequestedCall, Tool, list_collectors_tool, get_config_tool, generate_tool,
  optimize_tool, apply_tool, upgrade_tool, approve_tool, reject_tool, list_pending_tool,
  task_diff_tool, git_config_tool, task_result, pushed_to, arguments_of, Deps, handle, call,
  get_string,
}

abbrev pub approves : Tool → Bool
approves approve_tool = true
approves _ = false

module _ (before : Agent) where
  Quiet-Reads : Reads (IsQuiet before)
  Quiet-Reads = record {
    all_collectors = Keeps-on_db before (list_collectors 0 0);
    one_collector = λ uid. Keeps-on_db before (get_collector uid);
    tasks = λ f. Keeps-on_db before (list_tasks f 0 0);
    one_task = λ id. Keeps-on_db before (get_task id);
  }

  Keeps-reject_task :
      (id approver reason : String) → Keeps (IsQuiet before) (reject_task id approver reason)
  unfolding reject_task
  Keeps-reject_task id approver reason =
      Keeps-bind now _ (Keeps-now before)
        (λ t. Keeps-on_db before (Task.reject t id approver reason))

  Keeps-handle_reject :
      (id approver reason : String) → Keeps (IsQuiet before) (handle_reject id approver reason)
  unfolding handle_reject
  Keeps-handle_reject id approver reason =
      let who = if str_eq approver "" then "user" else approver in
      Keeps-if (IsQuiet before) (str_eq id "") _ _
        (λ _. Keeps-error (IsQuiet before) missing_argument)
        (λ _. Keeps-bind (reject_task id who reason) _ (Keeps-reject_task id who reason) (λ t.
          Keeps-bind (audit who reject_action id reason) _
            (Keeps-audit before who reject_action id reason) (λ _. Keeps-value (IsQuiet before) t)))

  module _ (d : Deps) (required : d.require_approval ≡ true) where
    Keeps-generating :
        (id session target desc : String)
        → Keeps (IsQuiet before) (
            handle_generate_config
              (d.llm id)
              d.valid
              d.hash
              d.covers
              d.require_approval
              id
              session
              target
              desc)
    Keeps-generating id session target desc =
        subst
          (λ b.
            Keeps (IsQuiet before)
              (handle_generate_config (d.llm id) d.valid d.hash d.covers b id session target desc))
          (sym required)
          (Keeps-handle_generate_config (IsQuiet before) (Quiet-Steps before) (d.llm id) d.valid
            d.hash d.covers true (Keeps-delivers before d.hash d.covers) id session target desc)

    Keeps-optimizing :
        (id session uid goal : String)
        → Keeps (IsQuiet before) (
            handle_optimize_config
              (d.llm id)
              d.valid
              d.hash
              d.covers
              d.require_approval
              id
              session
              uid
              goal)
    Keeps-optimizing id session uid goal =
        subst
          (λ b.
            Keeps (IsQuiet before)
              (handle_optimize_config (d.llm id) d.valid d.hash d.covers b id session uid goal))
          (sym required)
          (Keeps-handle_optimize_config (IsQuiet before) (Quiet-Steps before) (d.llm id) d.valid
            d.hash d.covers true (Keeps-delivers before d.hash d.covers) id session uid goal)

    Keeps-applying :
        (target yaml : String)
        → Keeps (IsQuiet before) (handle_apply_config d.hash d.valid d.require_approval target yaml)
    unfolding handle_apply_config
    Keeps-applying target yaml =
        subst (λ b. Keeps (IsQuiet before) (handle_apply_config d.hash d.valid b target yaml))
          (sym required) (Keeps-error (IsQuiet before) approval_required)

    Keeps-handle :
        (tool : Tool) (id session : String) (args : Arguments)
        → approves tool ≡ false
        → Keeps (IsQuiet before) (handle d tool id session args)
    unfolding handle
    Keeps-handle list_collectors_tool id session args h =
        Keeps-handle_list_collectors (IsQuiet before) Quiet-Reads (get_string args "group")
    Keeps-handle get_config_tool id session args h =
        Keeps-handle_get_config (IsQuiet before) Quiet-Reads (get_string args "instance_uid")
    Keeps-handle generate_tool id session args h =
        let target = get_string args "target" in
        let desc = get_string args "description" in
        Keeps-bind
          (handle_generate_config (d.llm id) d.valid d.hash d.covers d.require_approval id session
            target desc)
          _ (Keeps-generating id session target desc)
          (Keeps-shown (IsQuiet before) d.require_approval)
    Keeps-handle optimize_tool id session args h =
        let uid = get_string args "instance_uid" in
        let goal = get_string args "goal" in
        Keeps-bind
          (handle_optimize_config (d.llm id) d.valid d.hash d.covers d.require_approval id session
            uid goal)
          _ (Keeps-optimizing id session uid goal) (Keeps-shown (IsQuiet before) d.require_approval)
    Keeps-handle apply_tool id session args h =
        let target = get_string args "target" in
        let yaml = get_string args "yaml" in
        Keeps-bind (handle_apply_config d.hash d.valid d.require_approval target yaml) _
          (Keeps-applying target yaml) (λ n. Keeps-value (IsQuiet before) (pushed_to n))
    Keeps-handle upgrade_tool id session args h =
        let target = get_string args "target" in
        let version = get_string args "version" in
        Keeps-bind (handle_upgrade id session target version) _
          (Keeps-handle_upgrade (IsQuiet before) (Quiet-Steps before) id session target version)
          (λ t. Keeps-value (IsQuiet before) (task_result t.id t.status))
    Keeps-handle approve_tool id session args h = cc
    Keeps-handle reject_tool id session args h =
        let task_id = get_string args "task_id" in
        let approver = get_string args "approver" in
        let reason = get_string args "reason" in
        Keeps-bind (handle_reject task_id approver reason) _
          (Keeps-handle_reject task_id approver reason)
          (λ t. Keeps-value (IsQuiet before) (task_result t.id t.status))
    Keeps-handle list_pending_tool id session args h =
        Keeps-handle_list_pending (IsQuiet before) Quiet-Reads
    Keeps-handle task_diff_tool id session args h =
        Keeps-handle_get_task_diff (IsQuiet before) Quiet-Reads (get_string args "task_id")
    Keeps-handle git_config_tool id session args h =
        Keeps-handle_get_git_config (IsQuiet before) (d.repository id)
          (get_string args "instance_uid") (get_string args "ref")

    pub Keeps-call :
        (tool : Tool) (id session : String) (c : RequestedCall)
        → approves tool ≡ false
        → Keeps (IsQuiet before) (call d tool id session c)
    unfolding call
    Keeps-call tool id session c h =
        Keeps-bind (arguments_of c) _ (Keeps-arguments_of (IsQuiet before) c)
          (λ args. Keeps-handle tool id session args h)
