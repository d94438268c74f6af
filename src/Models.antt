-- ===== src/Models.antt =====
-- internal/store/models.go: the records that the components exchange. A time is the number of
-- nanoseconds since the zero time of Go, so 0 is the zero time.
mod Status
pub mod Chats
unfoldable pub use Status.*
use cadenza.Prelude.{ℕ, String, Bool, List, Option}

pub record Collector : Type 0 where
  pub instance_uid : String
  pub hostname : String
  pub version : String
  pub last_seen_at : ℕ
  pub status : CollectorStatus
  pub effective_config : String
  pub group_id : String

pub record ConfigVersion : Type 0 where
  pub id : ℕ
  pub collector_instance_uid : String
  pub yaml : String
  pub hash : String
  pub validated : Bool
  pub created_at : ℕ

pub data TaskType : Type 0 where
  generate optimize apply upgrade rollback : TaskType

pub record Task : Type 0 where
  pub id : String
  pub type : TaskType
  pub status : TaskStatus
  pub require_approval : Bool
  pub input : String
  pub generated_yaml : String
  pub base_yaml : String
  pub git_commit : String
  pub git_path : String
  pub git_ref : String
  pub base_source : String
  pub session_id : String
  pub target_group_id : String
  pub target_instance_uid : String
  pub rollback_version_id : ℕ
  pub approvers : List String
  pub approver : String
  pub reject_reason : String
  pub model_used : String
  pub error : String
  pub created_at : ℕ
  pub updated_at : ℕ

pub record TaskEvent : Type 0 where
  pub id : ℕ
  pub task_id : String
  pub from_status : String
  pub to_status : String
  pub created_at : ℕ

pub data AuditAction : Type 0 where
  generated approved reject_action applied upgraded rolled_back : AuditAction

pub record AuditLog : Type 0 where
  pub id : ℕ
  pub actor : String
  pub action : AuditAction
  pub subject : String
  pub detail : String
  pub created_at : ℕ
