-- ===== src/Demo/History.antt =====
-- internal/demo/demo.go: the tasks of the demo data, with their events, the audit and the messages.
use Prim.Native.String.{◌++◌ as concat}
use cadenza.Prelude.{ℕ, ◌-◌, ◌*◌, String, true, List, [], ◌∷◌}
use cadenza.Models.{
  Task, TaskEvent, AuditLog, generate, apply, awaiting_approval, done, rejected, applied, generated,
  reject_action,
}
use cadenza.Models.Chats.{ChatMessage}
use cadenza.Demo.Data.{Ids, minute, yaml_v1, yaml_v2}

abbrev plain_task : String → Task
plain_task id = record {
  id = id;
  type = generate;
  status = awaiting_approval;
  require_approval = true;
  input = "";
  generated_yaml = "";
  base_yaml = "";
  git_commit = "";
  git_path = "";
  git_ref = "";
  base_source = "";
  session_id = "";
  target_group_id = "";
  target_instance_uid = "";
  rollback_version_id = 0;
  approvers = [];
  approver = "";
  reject_reason = "";
  model_used = "";
  error = "";
  created_at = 0;
  updated_at = 0;
}

unfoldable pub demo_tasks : Ids → ℕ → List Task
unfolding yaml_v1 yaml_v2
demo_tasks ids now =
    record (plain_task ids.waiting) {
      input = "为 demo-gateway-1 增加 memory_limiter（演示，等待审批）";
      generated_yaml = yaml_v2;
      target_group_id = "demo-gateway-1";
      model_used = "demo-model";
      session_id = ids.session;
      created_at = now - 60 * minute;
      updated_at = now - 55 * minute;
    }
    ∷ record (plain_task ids.finished) {
      type = apply;
      status = done;
      input = "直接下发基础配置到 demo-gateway-1";
      generated_yaml = yaml_v1;
      target_group_id = "demo-gateway-1";
      target_instance_uid = "demo-gateway-1";
      approver = "admin";
      created_at = now - 180 * minute;
      updated_at = now - 180 * minute;
    }
    ∷ record (plain_task ids.refused) {
      status = rejected;
      input = "为 demo-api-1 启用 tail sampling（演示，被拒绝）";
      generated_yaml = yaml_v2;
      target_group_id = "demo-api-1";
      approver = "admin";
      session_id = ids.session;
      reject_reason = "当前环境无 tail_sampling 需求，先不加";
      model_used = "demo-model";
      created_at = now - 120 * minute;
      updated_at = now - 100 * minute;
    }
    ∷ []

abbrev event : String → String → String → ℕ → TaskEvent
event id from to time = record {
  id = 0;
  task_id = id;
  from_status = from;
  to_status = to;
  created_at = time;
}

unfoldable pub demo_events : Ids → ℕ → List TaskEvent
demo_events ids now =
    event ids.waiting "" "pending" (now - 60 * minute)
    ∷ event ids.waiting "pending" "generating" (now - 58 * minute)
    ∷ event ids.waiting "generating" "validating" (now - 56 * minute)
    ∷ event ids.waiting "validating" "awaiting_approval" (now - 55 * minute)
    ∷ event ids.finished "" "pending" (now - 180 * minute)
    ∷ event ids.finished "pending" "awaiting_approval" (now - 180 * minute)
    ∷ event ids.finished "awaiting_approval" "applying" (now - 179 * minute)
    ∷ event ids.finished "applying" "done" (now - 178 * minute)
    ∷ event ids.refused "" "pending" (now - 120 * minute)
    ∷ event ids.refused "pending" "awaiting_approval" (now - 119 * minute)
    ∷ event ids.refused "awaiting_approval" "rejected" (now - 100 * minute)
    ∷ []

unfoldable pub demo_audit : (String → String) → Ids → ℕ → List AuditLog
unfolding yaml_v1
demo_audit hash ids now =
    record {
      id = 0;
      actor = "admin";
      action = applied;
      subject = "demo-gateway-1";
      detail = concat "下发配置 hash=" (hash yaml_v1);
      created_at = now - 180 * minute;
    }
    ∷ record {
      id = 0;
      actor = "admin";
      action = generated;
      subject = "demo-api-1";
      detail = "生成配置 target=demo-api-1";
      created_at = now - 120 * minute;
    }
    ∷ record {
      id = 0;
      actor = "admin";
      action = reject_action;
      subject = ids.refused;
      detail = "当前环境无 tail_sampling 需求，先不加";
      created_at = now - 100 * minute;
    }
    ∷ record {
      id = 0;
      actor = "agent";
      action = generated;
      subject = ids.waiting;
      detail = "生成配置 target=demo-gateway-1";
      created_at = now - 55 * minute;
    }
    ∷ []

abbrev message : String → String → ℕ → ChatMessage
message role content time = record { id = 0; role = role; content = content; created_at = time }

unfoldable pub demo_messages : ℕ → List ChatMessage
demo_messages now =
    message "user" "帮我给 demo-gateway-1 增加内存限制，避免 OOM" (now - 30 * minute)
    ∷ message "assistant" "已生成带 memory_limiter 的配置并通过校验，已创建任务等待审批（演示数据）。" (now - 29 * minute)
    ∷ []
