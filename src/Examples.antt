-- ===== src/Examples.antt =====
-- Concrete data for the runs that show that the theorems apply.
mod Stores
mod Lives
mod Diffs
mod Models
mod Logins
mod Agents
mod Dispatches
mod Statistics
mod Gits
mod Consoles
mod Tools
mod Settings
mod Chats
mod Validators
mod Schemas
use cadenza.Prelude.{String, true, [], ◌∷◌, none}
use cadenza.Models.{
  Task, TaskStatus, generate, awaiting_approval, pending, Collector, healthy, offline,
}
use cadenza.Store.{Db}
use cadenza.Opamp.Server.{World, AgentMessage}

abbrev pub empty_db : Db
empty_db = record {
  collectors = [];
  versions = [];
  tasks = [];
  events = [];
  audits = [];
  groups = [];
  sessions = [];
  messages = [];
  runs = [];
  next_version = 1;
  next_event = 1;
  next_audit = 1;
  next_message = 1;
  disturbances = [];
}

abbrev pub task_in : TaskStatus → Task
task_in s = record {
  id = "t1";
  type = generate;
  status = s;
  require_approval = true;
  input = "collect host metrics";
  generated_yaml = "receivers: {}";
  base_yaml = "";
  git_commit = "";
  git_path = "";
  git_ref = "";
  base_source = "";
  session_id = "";
  target_group_id = "edge";
  target_instance_uid = "";
  rollback_version_id = 0;
  approvers = [];
  approver = "";
  reject_reason = "";
  model_used = "";
  error = "";
  created_at = 5;
  updated_at = 5;
}

abbrev pub db_with : Task → Db
db_with t = record empty_db { tasks = t ∷ [] }

abbrev pub collector_a : Collector
collector_a = record {
  instance_uid = "0a";
  hostname = "host";
  version = "0.1";
  last_seen_at = 10;
  status = offline;
  effective_config = "a: 1";
  group_id = "edge";
}

abbrev pub empty_world : World
empty_world = record {
  db = empty_db;
  registry = record {
    collectors = [];
    conns = λ k. none;
    caps = λ k. none;
    rep_hash = λ k. none;
    rep_eff = λ k. none;
    offline_after = 100;
  };
  waiting = λ k. none;
  outbox = [];
  send_outcomes = [];
}

abbrev pub quiet_message : String → AgentMessage
quiet_message uid = record {
  instance_uid = uid;
  capabilities = 1024;
  description = none;
  health = none;
  effective = none;
  remote_status = none;
}
