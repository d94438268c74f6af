-- ===== src/Api/Changes.antt =====
-- internal/api/handlers.go and internal/api/apply.go: the requests that change tasks. A body that
-- cannot be decoded is `none`; a new id is an argument.
pub mod Rollback
pub mod Steps
pub mod Lives
pub mod Whole
pub mod Quiet
use Prim.Native.String.{◌++◌ as concat}
use cadenza.Prelude.{
  ℕ, String, Bool, true, false, not, ◌||◌, List, [], ◌∷◌, Option, none, some, Exec, pure, ◌>>=◌,
  ◌>>◌, ignore_error, ltb, length, take, Bytes, decimal, str_eq, ◌==◌, if◌then◌else◌,
}
use cadenza.Models.{
  Task, TaskType, apply, rollback, awaiting_approval, Collector, ConfigVersion, applied,
  rolled_back,
}
use cadenza.Store.{Error}
use cadenza.Store.Pages.{list_config_versions}
use cadenza.Store.Tables.{get_collector, get_task}
use cadenza.Task
use cadenza.Opamp.Registry
use cadenza.Agent.{Agent, on_db, now, audit, reject_task}
use cadenza.Agent.Versions.{reported_base}
use cadenza.Agent.Dispatch.{dispatch_approve}
use cadenza.Api.Sources.{Console, on_agent, Site, Source, own_source, git_source}
use cadenza.Api.Http.{
  Method, is_post, refuse_if, or_refuse, refuse_as, always, missing_or_bad, approver_of,
  number_text,
}

unfoldable pub create_now : Task → Exec Agent Error Task
unfolding now
create_now t = do time ← now; on_db (Task.create time t)

pub record RejectRequest : Type 0 where
  pub approver : String
  pub reason : String

pub record ApplyRequest : Type 0 where
  pub collector_instance_uid : String
  pub yaml : String
  pub note : String
  pub session_id : String
  pub git_ref : String

abbrev pub body_approver : Option String → String
body_approver none = "user"
body_approver (some name) = if str_eq name "" then "user" else name

-- The handler of a rejection; the service writes no audit.
unfoldable pub reject_request :
    Method → String → Option RejectRequest → String → Exec Agent ℕ (ℕ × Task)
reject_request method username body id = do
  refuse_if (not (is_post method)) 405
  req ← or_refuse 400 body
  t ← refuse_as missing_or_bad (reject_task id (approver_of username req.approver) req.reason)
  pure (200, t)

-- The configuration that an instance starts from, and where it is known from.
unfoldable pub base_for_collector : Collector → Agent → String × String
base_for_collector c a =
    elim (reported_base (Registry.reported_effective c.instance_uid a.world.registry)) [
      | some yaml ↦ (yaml, "reported")
      | none ↦ if str_eq c.effective_config "" then ("", "") else (c.effective_config, "store")
    ]

abbrev pub base_of : Collector → Exec Agent ℕ (String × String)
base_of c a = pure (base_for_collector c a) a

-- The task of an application or a rollback, before it is created.
abbrev pub draft : String → TaskType → Task
draft id type = record {
  id = id;
  type = type;
  status = awaiting_approval;
  require_approval = true;
  input = "";
  generated_yaml = "";
  base_yaml = "";
  git_commit = "";
  git_path = "";
  git_ref = "";
  base_source = "";
  session_id = "";
  target_group_id = "";
  target_instance_uid = "";
  rollback_version_id = 0;
  approvers = [];
  approver = "";
  reject_reason = "";
  model_used = "";
  error = "";
  created_at = 0;
  updated_at = 0;
}

unfoldable pub apply_draft : Bool → String → ApplyRequest → Source → String × String → Task
apply_draft require_approval id req source base = record (draft id apply) {
  require_approval = require_approval;
  input = if str_eq req.note "" then concat "直接下发配置到 " req.collector_instance_uid else req.note;
  session_id = req.session_id;
  generated_yaml = source.yaml;
  base_yaml = base.0;
  base_source = base.1;
  git_commit = source.git_commit;
  git_path = source.git_path;
  git_ref = req.git_ref;
  target_instance_uid = req.collector_instance_uid;
  target_group_id = req.collector_instance_uid;
}

unfoldable pub audit_apply :
    (String → String) → String → String → String → String → Exec Agent Error (Unit {0})
audit_apply hash actor id uid yaml =
    audit actor applied id (concat "编辑器提交配置 uid=" (concat uid (concat " hash=" (hash yaml))))

abbrev pub origin_detail : Source → String → String
origin_detail source ref =
    concat "git 溯源 commit="
      (concat source.git_commit (concat " path=" (concat source.git_path (concat " ref=" ref))))

-- The record of where a configuration is from.
unfoldable pub audit_origin : String → String → Source → String → Exec Agent Error (Unit {0})
audit_origin actor id source ref =
    if str_eq source.git_commit ""
    then pure tt
    else audit actor applied id (origin_detail source ref)

module _ (hash : String → String) (covers : String → String → Bool) where
  -- The handler of an approval.
  unfoldable pub approve_request :
      Method → String → Option String → String → Exec Agent ℕ (ℕ × Unit {0})
  approve_request method username body id = do
    refuse_if (not (is_post method)) 405
    done ←
        refuse_as missing_or_bad
          (dispatch_approve hash covers id (approver_of username (body_approver body)))
    pure (200, done)

  -- What follows the creation of the task: it waits, or is dispatched at once.
  unfoldable pub answer_apply : Bool → String → Task → Exec Agent ℕ (ℕ × Task)
  answer_apply true approver t = pure (201, t)
  answer_apply false approver t = do
    refuse_as (always 502) (dispatch_approve hash covers t.id approver)
    updated ← refuse_as (always 500) (on_db (get_task t.id))
    pure (200, updated)

  -- What follows once the configuration is known.
  unfoldable pub submit_apply :
      (String → Bool) → Bool → String → String → ApplyRequest → Source → Exec Agent ℕ (ℕ × Task)
  unfolding answer_apply
  submit_apply valid require_approval id username req source = do
    refuse_if (str_eq source.yaml "") 400
    target ← refuse_as (always 404) (on_db (get_collector req.collector_instance_uid))
    base ← base_of target
    refuse_if (not (valid source.yaml)) 400
    t ← refuse_as (always 500) (create_now (apply_draft require_approval id req source base))
    refuse_as (always 500)
        (audit_apply hash (approver_of username "") t.id req.collector_instance_uid source.yaml)
    refuse_as (always 500) (audit_origin (approver_of username "") t.id source req.git_ref)
    answer_apply require_approval (approver_of username "") t

  unfoldable pub apply_request :
      (String → Bool)
      → Bool
      → Site
      → String
      → Method
      → String
      → Option ApplyRequest
      → Exec Console ℕ (ℕ × Task)
  unfolding submit_apply
  apply_request valid require_approval site id method username body = do
    refuse_if (not (is_post method)) 405
    req ← or_refuse 400 body
    refuse_if (str_eq req.collector_instance_uid "") 400
    source ←
        if str_eq req.git_ref ""
        then pure (own_source req.yaml)
        else git_source site req.collector_instance_uid req.git_ref
    on_agent (submit_apply valid require_approval id username req source)
