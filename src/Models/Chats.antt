-- ===== src/Models/Chats.antt =====
-- internal/store/models.go and internal/store/store.go: groups, chats, runs of an agent, and the
-- filters of the lists. A filter that is not set is `none`, the empty text or the zero time.
use cadenza.Prelude.{ℕ, String, List, Option}
use cadenza.Models.{TaskStatus, TaskType, AuditAction}

pub record CollectorGroup : Type 0 where
  pub id : String
  pub name : String
  pub selector : String

pub record ChatMessage : Type 0 where
  pub id : ℕ
  pub role : String
  pub content : String
  pub created_at : ℕ

pub record ChatSession : Type 0 where
  pub id : String
  pub messages : List ChatMessage
  pub created_at : ℕ

pub record SessionSummary : Type 0 where
  pub id : String
  pub created_at : ℕ
  pub message_count : ℕ
  pub last_message_at : ℕ
  pub first_message : String
  pub last_message : String

pub data RunStatus : Type 0 where
  running run_done run_failed : RunStatus

pub record ToolCall : Type 0 where
  pub name : String
  pub arguments_json : String
  pub result_json : String
  pub error : String
  pub started_at : ℕ
  pub finished_at : ℕ

pub record AgentRun : Type 0 where
  pub id : String
  pub session_id : String
  pub agent_type : String
  pub tool_calls : List ToolCall
  pub status : RunStatus
  pub model_used : String
  pub started_at : ℕ
  pub finished_at : ℕ

pub record TaskFilter : Type 0 where
  pub status : Option TaskStatus
  pub type : Option TaskType
  pub target : String
  pub session_id : String
  pub since : ℕ
  pub until : ℕ

pub record AuditFilter : Type 0 where
  pub since_id : ℕ
  pub actor : String
  pub action : Option AuditAction
  pub subject : String
  pub from : ℕ
  pub to : ℕ

-- A row of the table of messages.
pub record MessageRow : Type 0 where
  pub session_id : String
  pub message : ChatMessage
