-- ===== src/Agent/Tools/Lives.antt =====
-- internal/agent/tools.go: whatever tool is called, tasks move as the state machine permits.
use cadenza.Prelude.{
  String, Bool, not, ◌||◌, List, [], ◌∷◌, Keeps, Keeps-bind, Keeps-if, length, str_eq,
  if◌then◌else◌,
}
use cadenza.Models.{Task, done, Collector, applied, reject_action}
use cadenza.Store.{missing_argument, approval_required, invalid_config}
use cadenza.Store.Pages.{list_collectors}
use cadenza.Store.Lists.{list_tasks}
use cadenza.Store.Tables.{get_collector}
use cadenza.Store.Tables.Others.{tasks-get_collector, tasks-list_collectors, tasks-list_tasks}
use cadenza.Opamp.Push.{push_config}
use cadenza.Agent.Versions.{record_config_version}
use cadenza.Agent.{Agent, audit, reject_task}
use cadenza.Agent.Dispatch.{
  handle_approve, handle_reject, handle_apply_config, apply_all, applying_all, target_collectors,
}
use cadenza.Agent.Dispatch.Lives.{
  Grown, Grown-Same, Keeps-pure, Keeps-raise, Keeps-spares, Keeps-audit,
}
use cadenza.Agent.Dispatch.Steps.{Same-record_config_version, Same-push_config}
use cadenza.Agent.Dispatch.Rows.{Keeps-get_task, Keeps-reject_task}
use cadenza.Agent.Dispatch.Whole.{Keeps-target_collectors}
use cadenza.Agent.Dispatch.Machine.{Keeps-dispatch_approve}
use cadenza.Agent.Generate.{handle_generate_config, handle_optimize_config, handle_upgrade}
use cadenza.Agent.Generate.Steps.{
  Keeps-value, Keeps-handle_upgrade, Keeps-handle_generate_config, Keeps-handle_optimize_config,
}
use cadenza.Agent.Generate.Lives.{Lives-Steps, Keeps-delivers}
use cadenza.Agent.Tools.Reads.{
  Reads, Keeps-handle_list_collectors, Keeps-handle_get_config, Keeps-handle_list_pending,
  Keeps-handle_get_task_diff, Keeps-handle_get_git_config, Keeps-shown, Keeps-arguments_of,
}
use cadenza.Agent.Tools.{
  list_collectors_tool, get_config_tool, generate_tool, optimize_tool, apply_tool, upgrade_tool,
  approve_tool, reject_tool, list_pending_tool, task_diff_tool, git_config_tool, pushed_to,
  task_result, Arguments, RequestedCall, Tool, arguments_of, Deps, handle, call, get_string,
}

module _ (k : String) (t0 : Task) where
  Keeps-handle_reject :
      (id approver reason : String) → Keeps (Grown k t0) (handle_reject id approver reason)
  unfolding handle_reject
  Keeps-handle_reject id approver reason =
      let who = if str_eq approver "" then "user" else approver in
      Keeps-if (Grown k t0) (str_eq id "") _ _ (λ _. Keeps-raise k t0 missing_argument)
        (λ _. Keeps-bind (reject_task id who reason) _ (Keeps-reject_task k t0 id who reason) (λ t.
          Keeps-bind (audit who reject_action id reason) _
            (Keeps-audit k t0 who reject_action id reason) (λ _. Keeps-pure k t0 t)))

  Keeps-handle_approve :
      (hash : String → String) (covers : String → String → Bool) (id approver : String)
      → Keeps (Grown k t0) (handle_approve hash covers id approver)
  unfolding handle_approve
  Keeps-handle_approve hash covers id approver =
      Keeps-if (Grown k t0) (str_eq id "") _ _ (λ _. Keeps-raise k t0 missing_argument)
        (λ _. Keeps-dispatch_approve k t0 hash covers id _)

  Grown-apply_all :
      (hash : String → String) (valid : String → Bool) (yaml : String) (rows : List Collector)
      (a : Agent)
      → Grown k t0 a
      → Grown k t0 (apply_all hash valid yaml rows a)
  unfolding apply_all
  Grown-apply_all hash valid yaml [] a g = g
  Grown-apply_all hash valid yaml (c ∷ rows) a g =
      let a1 = record a { world = (push_config c.instance_uid yaml a.world).1 } in
      let a2 = record_config_version hash c.instance_uid yaml a1 in
      Grown-apply_all hash valid yaml rows a2 (
        Grown-Same k t0 a1 a2 (Same-record_config_version hash c.instance_uid yaml a1)
          (Grown-Same k t0 a a1 (Same-push_config c.instance_uid yaml a.world) g))

  Keeps-handle_apply_config :
      (hash : String → String) (valid : String → Bool) (require_approval : Bool)
      (target yaml : String)
      → Keeps (Grown k t0) (handle_apply_config hash valid require_approval target yaml)
  unfolding handle_apply_config
  Keeps-handle_apply_config hash valid require_approval target yaml =
      Keeps-if (Grown k t0) require_approval _ _ (λ _. Keeps-raise k t0 approval_required)
        (λ _.
          Keeps-if (Grown k t0) (str_eq target "" || str_eq yaml "") _ _
            (λ _. Keeps-raise k t0 missing_argument)
            (λ _.
              Keeps-if (Grown k t0) (not (valid yaml)) _ _ (λ _. Keeps-raise k t0 invalid_config)
                (λ _.
                  Keeps-bind (target_collectors target) _ (Keeps-target_collectors k t0 target)
                    (λ rows.
                      Keeps-bind (applying_all hash valid yaml rows) _
                        (record { at = Grown-apply_all hash valid yaml rows })
                        (λ _.
                          Keeps-bind (audit "agent" applied target (hash yaml)) _
                            (Keeps-audit k t0 "agent" applied target (hash yaml))
                            (λ _. Keeps-pure k t0 (length rows)))))))

  Lives-Reads : Reads (Grown k t0)
  Lives-Reads = record {
    all_collectors = Keeps-spares k t0 (list_collectors 0 0) (tasks-list_collectors 0 0);
    one_collector = λ uid. Keeps-spares k t0 (get_collector uid) (tasks-get_collector uid);
    tasks = λ f. Keeps-spares k t0 (list_tasks f 0 0) (tasks-list_tasks f 0 0);
    one_task = Keeps-get_task k t0;
  }

  module _ (d : Deps) where
    Keeps-handle :
        (tool : Tool) (id session : String) (args : Arguments)
        → Keeps (Grown k t0) (handle d tool id session args)
    unfolding handle
    Keeps-handle list_collectors_tool id session args =
        Keeps-handle_list_collectors (Grown k t0) Lives-Reads (get_string args "group")
    Keeps-handle get_config_tool id session args =
        Keeps-handle_get_config (Grown k t0) Lives-Reads (get_string args "instance_uid")
    Keeps-handle generate_tool id session args =
        Keeps-bind
          (handle_generate_config (d.llm id) d.valid d.hash d.covers d.require_approval id session
            (get_string args "target") (get_string args "description"))
          _
          (Keeps-handle_generate_config (Grown k t0) (Lives-Steps k t0) (d.llm id) d.valid d.hash
            d.covers d.require_approval (Keeps-delivers k t0 d.hash d.covers d.require_approval) id
            session (get_string args "target") (get_string args "description"))
          (Keeps-shown (Grown k t0) d.require_approval)
    Keeps-handle optimize_tool id session args =
        Keeps-bind
          (handle_optimize_config (d.llm id) d.valid d.hash d.covers d.require_approval id session
            (get_string args "instance_uid") (get_string args "goal"))
          _
          (Keeps-handle_optimize_config (Grown k t0) (Lives-Steps k t0) (d.llm id) d.valid d.hash
            d.covers d.require_approval (Keeps-delivers k t0 d.hash d.covers d.require_approval) id
            session (get_string args "instance_uid") (get_string args "goal"))
          (Keeps-shown (Grown k t0) d.require_approval)
    Keeps-handle apply_tool id session args =
        Keeps-bind
          (handle_apply_config d.hash d.valid d.require_approval (get_string args "target")
            (get_string args "yaml"))
          _
          (Keeps-handle_apply_config d.hash d.valid d.require_approval (get_string args "target")
            (get_string args "yaml"))
          (λ n. Keeps-value (Grown k t0) (pushed_to n))
    Keeps-handle upgrade_tool id session args =
        Keeps-bind
          (handle_upgrade id session (get_string args "target") (get_string args "version")) _
          (Keeps-handle_upgrade (Grown k t0) (Lives-Steps k t0) id session
            (get_string args "target") (get_string args "version"))
          (λ t. Keeps-value (Grown k t0) (task_result t.id t.status))
    Keeps-handle approve_tool id session args =
        Keeps-bind
          (handle_approve d.hash d.covers (get_string args "task_id") (get_string args "approver"))
          _
          (Keeps-handle_approve d.hash d.covers (get_string args "task_id")
            (get_string args "approver"))
          (λ _. Keeps-value (Grown k t0) (task_result (get_string args "task_id") done))
    Keeps-handle reject_tool id session args =
        Keeps-bind
          (handle_reject (get_string args "task_id") (get_string args "approver")
            (get_string args "reason"))
          _
          (Keeps-handle_reject (get_string args "task_id") (get_string args "approver")
            (get_string args "reason"))
          (λ t. Keeps-value (Grown k t0) (task_result t.id t.status))
    Keeps-handle list_pending_tool id session args =
        Keeps-handle_list_pending (Grown k t0) Lives-Reads
    Keeps-handle task_diff_tool id session args =
        Keeps-handle_get_task_diff (Grown k t0) Lives-Reads (get_string args "task_id")
    Keeps-handle git_config_tool id session args =
        Keeps-handle_get_git_config (Grown k t0) (d.repository id) (get_string args "instance_uid")
          (get_string args "ref")

    pub Keeps-call :
        (tool : Tool) (id session : String) (c : RequestedCall)
        → Keeps (Grown k t0) (call d tool id session c)
    unfolding call
    Keeps-call tool id session c =
        Keeps-bind (arguments_of c) _ (Keeps-arguments_of (Grown k t0) c)
          (Keeps-handle tool id session)
