-- ===== src/Demo/Data.antt =====
-- internal/demo/demo.go: the collectors of the demo data, their versions and the session.
use Prim.Native.String.{◌++◌ as concat}
use cadenza.Prelude.{ℕ, ◌-◌, ◌*◌, ◌^◌, String, true, List, [], ◌∷◌}
use cadenza.Models.{Collector, ConfigVersion, healthy, unhealthy, offline, unknown}
use cadenza.Models.Chats.{CollectorGroup, ChatSession}

-- The new ids, of the session and of the three tasks.
pub record Ids : Type 0 where
  pub session : String
  pub waiting : String
  pub finished : String
  pub refused : String

abbrev pub second : ℕ
second = 10 ^ 9

abbrev pub minute : ℕ
minute = 60 * second

-- The lines, each with its end.
text_of_lines : List String → String
text_of_lines [] = ""
text_of_lines (line ∷ lines) = concat line (concat "\n" (text_of_lines lines))

unfoldable pub yaml_v1 : String
unfolding text_of_lines
yaml_v1 = text_of_lines (
    "receivers:" ∷ "  otlp:" ∷ "    protocols:" ∷ "      grpc:" ∷ "      http:" ∷ "exporters:"
    ∷ "  debug:" ∷ "    verbosity: basic" ∷ "service:" ∷ "  pipelines:" ∷ "    traces:"
    ∷ "      receivers: [otlp]" ∷ "      exporters: [debug]" ∷ "    metrics:"
    ∷ "      receivers: [otlp]" ∷ "      exporters: [debug]" ∷ [])

unfoldable pub yaml_v2 : String
unfolding text_of_lines
yaml_v2 = text_of_lines (
    "receivers:" ∷ "  otlp:" ∷ "    protocols:" ∷ "      grpc:" ∷ "      http:" ∷ "processors:"
    ∷ "  memory_limiter:" ∷ "    check_interval: 1s" ∷ "    limit_mib: 512" ∷ "exporters:"
    ∷ "  debug:" ∷ "    verbosity: basic" ∷ "service:" ∷ "  pipelines:" ∷ "    traces:"
    ∷ "      receivers: [otlp]" ∷ "      processors: [memory_limiter]" ∷ "      exporters: [debug]"
    ∷ "    metrics:" ∷ "      receivers: [otlp]" ∷ "      processors: [memory_limiter]"
    ∷ "      exporters: [debug]" ∷ [])

unfoldable pub demo_collectors : ℕ → List Collector
unfolding yaml_v1 yaml_v2
demo_collectors now =
    record {
      instance_uid = "demo-gateway-1";
      hostname = "demo-gateway-1";
      version = "0.156.0";
      last_seen_at = now - 30 * second;
      status = healthy;
      effective_config = yaml_v2;
      group_id = "grp-demo";
    }
    ∷ record {
      instance_uid = "demo-api-1";
      hostname = "demo-api-1";
      version = "0.156.0";
      last_seen_at = now - 45 * second;
      status = healthy;
      effective_config = yaml_v1;
      group_id = "grp-demo";
    }
    ∷ record {
      instance_uid = "demo-worker-1";
      hostname = "demo-worker-1";
      version = "0.156.0";
      last_seen_at = now - 10 * second;
      status = unhealthy;
      effective_config = yaml_v1;
      group_id = "";
    }
    ∷ record {
      instance_uid = "demo-legacy-1";
      hostname = "demo-legacy-1";
      version = "0.120.0";
      last_seen_at = now - 180 * minute;
      status = offline;
      effective_config = yaml_v1;
      group_id = "";
    }
    ∷ record {
      instance_uid = "demo-agent-1";
      hostname = "demo-agent-1";
      version = "0.156.0";
      last_seen_at = now - 5 * second;
      status = unknown;
      effective_config = "";
      group_id = "";
    }
    ∷ []

abbrev pub demo_group : CollectorGroup
demo_group = record { id = "grp-demo"; name = "演示分组（网关/API）"; selector = "{\"env\":\"demo\"}" }

unfoldable pub demo_versions : (String → String) → ℕ → List ConfigVersion
unfolding yaml_v1 yaml_v2
demo_versions hash now =
    record {
      id = 0;
      collector_instance_uid = "demo-gateway-1";
      yaml = yaml_v1;
      hash = hash yaml_v1;
      validated = true;
      created_at = now - 120 * minute;
    }
    ∷ record {
      id = 0;
      collector_instance_uid = "demo-gateway-1";
      yaml = yaml_v2;
      hash = hash yaml_v2;
      validated = true;
      created_at = now - 30 * minute;
    }
    ∷ []

abbrev pub demo_session : Ids → ℕ → ChatSession
demo_session ids now = record { id = ids.session; messages = []; created_at = now - 30 * minute }
