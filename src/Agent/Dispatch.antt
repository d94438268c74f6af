-- ===== src/Agent/Dispatch.antt =====
-- internal/agent/tools.go: the tools that approve, dispatch, roll back, apply and reject. The
-- arguments of a tool are texts, empty where they are missing.
pub mod Guard
pub mod Stuck
pub mod Steps
pub mod Lives
pub mod Rows
pub mod Whole
pub mod Machine
use Prim.Native.String.{◌++◌ as concat}
use cadenza.Prelude.{
  ℕ, zero, suc, String, Bool, true, false, not, ◌||◌, List, [], ◌∷◌, Option, none, some, Result, ok,
  err, Exec, pure, raise, continue, ◌>>=◌, ◌>>◌, ignore_error, keep, length, str_eq, ◌==◌,
  if◌then◌else◌,
}
use cadenza.Models.{
  Task, TaskType, generate, optimize, apply, upgrade, rollback, TaskStatus, done, failed, Collector,
  ConfigVersion, approved, reject_action, applied, rolled_back,
}
use cadenza.Store.{
  Error, missing_argument, no_match, nothing_to_push, version_missing, wrong_collector,
  approval_required, invalid_config, rollback_failed,
}
use cadenza.Store.Pages.{list_collectors, list_config_versions}
use cadenza.Agent.{Agent, on_db, audit, approve_task, reject_task, move_task, set_task_error}
use cadenza.Agent.Confirm.{push_and_confirm}
use cadenza.Agent.Versions.{record_config_version}
use cadenza.Opamp.Push.{push_config}

abbrev pub is_target : String → Collector → Bool
is_target target c = str_eq c.instance_uid target || str_eq c.group_id target

abbrev pub some_match : List Collector → Exec Agent Error (List Collector)
some_match [] = raise no_match
some_match (c ∷ rows) = pure (c ∷ rows)

unfoldable pub target_collectors : String → Exec Agent Error (List Collector)
target_collectors target =
    if str_eq target ""
    then raise missing_argument
    else do all ← on_db (list_collectors 0 0); some_match (keep (is_target target) all.0)

-- What is done after an error that the caller gets.
abbrev pub on_error :
    {A : Type 0} → Exec Agent Error (Unit {0}) → Exec Agent Error A → Exec Agent Error A
on_error cleanup m a =
    let (r, a') = m a in elim r [ ok x ↦ (ok x, a') | err e ↦ (err e, (cleanup a').1) ]

unfoldable pub mark_task_failed : String → String → Exec Agent Error (Unit {0})
unfolding move_task set_task_error
mark_task_failed id reason = ignore_error (do move_task id failed; set_task_error id reason) tt

abbrev pub fail_task : String → Exec Agent Error (Unit {0})
fail_task id = ignore_error (move_task id failed) tt

module _ (hash : String → String) (covers : String → String → Bool) where
  -- One push of the loop: whether it is to be reported as unconfirmed. A failed push is skipped.
  unfoldable pub push_one : String → Collector → Agent → Bool × Agent
  push_one yaml c a =
      let (r, a') = push_and_confirm hash covers c.instance_uid yaml a in
      elim r [
        | err e ↦ (false, a')
        | ok was_confirmed ↦ (not was_confirmed, record_config_version hash c.instance_uid yaml a')
      ]

  unfoldable pub push_all : String → List Collector → Agent → List String × Agent
  unfolding push_one
  push_all yaml [] a = ([], a)
  push_all yaml (c ∷ rows) a =
      let (missed, a1) = push_one yaml c a in
      let (rest, a2) = push_all yaml rows a1 in (if missed then c.instance_uid ∷ rest else rest, a2)

  -- The loop of pushes.
  abbrev pub pushing : String → List Collector → Exec Agent Error (List String)
  pushing yaml rows a = let (uids, a') = push_all yaml rows a in (ok uids, a')

join : List String → String
join [] = ""
join (s ∷ []) = s
join (s ∷ t ∷ rest) = concat s (concat "," (join (t ∷ rest)))

-- The warning on a task whose agents did not confirm.
unfoldable pub report_unconfirmed : String → String → List String → Exec Agent Error (Unit {0})
unfolding join
report_unconfirmed id approver [] = pure tt
report_unconfirmed id approver (uid ∷ uids) = do
  set_task_error id (concat "已下发，但未收到生效确认（Agent 未回报新配置）: " (join (uid ∷ uids)))
  audit approver applied id (concat "生效确认超时: " (join (uid ∷ uids)))

abbrev pub recording : (String → String) → String → String → Exec Agent Error (Unit {0})
recording hash uid yaml a = (ok tt, record_config_version hash uid yaml a)

abbrev pub write_failed : String
write_failed = "完成任务状态写入失败"

abbrev pub rollback_write_failed : String
rollback_write_failed = "完成回滚状态写入失败"

abbrev pub unconfirmed_rollback : String
unconfirmed_rollback = "已回滚下发，但未收到生效确认（Agent 未回报新配置）"

module _ (hash : String → String) (covers : String → String → Bool) where
  unfoldable pub dispatch_regular : String → Task → String → Exec Agent Error (Unit {0})
  unfolding push_all mark_task_failed
  dispatch_regular id t approver = if str_eq t.generated_yaml "" then raise nothing_to_push else do
    collectors ← on_error (fail_task id) (target_collectors t.target_group_id)
    missed ← pushing hash covers t.generated_yaml collectors
    on_error (mark_task_failed id write_failed) (move_task id done)
    audit approver applied id (hash t.generated_yaml)
    report_unconfirmed id approver missed

  -- The text of the audit names the commit where there is one.
  abbrev pub rollback_detail : Task → String → String
  rollback_detail t yaml =
      if str_eq t.git_commit ""
      then hash yaml
      else concat "git 溯源 commit=" (
          concat t.git_commit (
            concat " path=" (
              concat t.git_path
                (concat " ref=" (concat t.git_ref (concat "; hash=" (hash yaml)))))))

  unfoldable pub dispatch_rollback_content : Task → String → String → Exec Agent Error (Unit {0})
  unfolding mark_task_failed
  dispatch_rollback_content t yaml approver = do
    was_confirmed ←
        on_error (fail_task t.id) (push_and_confirm hash covers t.target_instance_uid yaml)
    recording hash t.target_instance_uid yaml
    on_error (mark_task_failed t.id rollback_write_failed) (move_task t.id done)
    audit approver rolled_back t.id (rollback_detail t yaml)
    if was_confirmed
        then pure tt
        else do set_task_error t.id unconfirmed_rollback; audit approver rolled_back t.id "生效确认超时"

abbrev pub find_version : ℕ → List ConfigVersion → Exec Agent Error ConfigVersion
find_version id [] = raise version_missing
find_version id (v ∷ rows) = if v.id == id then pure v else find_version id rows

module _ (hash : String → String) (covers : String → String → Bool) where
  unfoldable pub dispatch_rollback : Task → String → Exec Agent Error (Unit {0})
  unfolding dispatch_rollback_content
  dispatch_rollback t approver =
      if str_eq t.target_instance_uid ""
      then raise missing_argument
      else if t.rollback_version_id == 0
      then (if str_eq t.generated_yaml ""
          then raise nothing_to_push
          else dispatch_rollback_content hash covers t t.generated_yaml approver)
      else do
        versions ← on_db (list_config_versions t.target_instance_uid 0 0)
        target ← find_version t.rollback_version_id versions.0
        if not (str_eq target.collector_instance_uid t.target_instance_uid)
            then raise wrong_collector
            else dispatch_rollback_content hash covers t target.yaml approver

  -- The rest of `DispatchApprove`, by the type of the task.
  abbrev pub dispatch_by_type : TaskType → String → Task → String → Exec Agent Error (Unit {0})
  dispatch_by_type upgrade id t approver = do move_task id done; pure tt
  dispatch_by_type rollback id t approver = dispatch_rollback t approver
  dispatch_by_type _ id t approver = dispatch_regular hash covers id t approver

  unfoldable pub dispatch_approve : String → String → Exec Agent Error (Unit {0})
  unfolding dispatch_regular dispatch_rollback
  dispatch_approve id approver = do
    t ← approve_task id approver
    audit approver approved id ""
    dispatch_by_type t.type id t approver

  unfoldable pub handle_approve : String → String → Exec Agent Error (Unit {0})
  unfolding dispatch_approve
  handle_approve id approver =
      if str_eq id ""
      then raise missing_argument
      else dispatch_approve id (if str_eq approver "" then "user" else approver)

unfoldable pub handle_reject : String → String → String → Exec Agent Error Task
handle_reject id approver reason =
    let who = if str_eq approver "" then "user" else approver in
    if str_eq id ""
    then raise missing_argument
    else do t ← reject_task id who reason; audit who reject_action id reason; pure t

module _ (hash : String → String) (valid : String → Bool) where
  -- The loop of `handleApplyConfig`; an error of a push is only logged.
  unfoldable pub apply_all : String → List Collector → Agent → Agent
  apply_all yaml [] a = a
  apply_all yaml (c ∷ rows) a =
      let a1 = record a { world = (push_config c.instance_uid yaml a.world).1 } in
      apply_all yaml rows (record_config_version hash c.instance_uid yaml a1)

  abbrev pub applying_all : String → List Collector → Exec Agent Error (Unit {0})
  applying_all yaml rows a = (ok tt, apply_all yaml rows a)

  unfoldable pub handle_apply_config : Bool → String → String → Exec Agent Error ℕ
  unfolding apply_all
  handle_apply_config require_approval target yaml =
      if require_approval
      then raise approval_required
      else if str_eq target "" || str_eq yaml ""
      then raise missing_argument
      else if not (valid yaml)
      then raise invalid_config
      else do
        collectors ← target_collectors target
        applying_all yaml collectors
        audit "agent" applied target (hash yaml)
        pure (length collectors)
