-- ===== src/Api/Stats/Requests.antt =====
-- internal/api/stats.go: the requests for the figures of the dashboard.
use cadenza.Prelude.{
  ℕ, ◌-◌, ◌+◌, ◌*◌, ◌^◌, String, not, [], ◌∷◌, Exec, pure, ◌>>=◌, ◌>>◌, Bytes, ◌==◌, str_eq,
  if◌then◌else◌,
}
use cadenza.Models.Chats.{TaskFilter}
use cadenza.Store.{Db}
use cadenza.Store.Lists.{
  list_tasks, list_task_events, Counts, count_collectors_by_status, count_tasks_by_status,
}
use cadenza.Store.Chats.{count_sessions}
use cadenza.Api.Http.{Method, is_get, refuse_if, or_refuse, refuse_as, always}
use cadenza.Api.Params.{int_param_in_range}
use cadenza.Api.Reads.{tasks_of_session}
use cadenza.Api.Stats.{OpsStats, compute_ops_stats}

abbrev pub day : ℕ
day = 24 * 3600 * 10 ^ 9

abbrev pub window_or_default : ℕ → ℕ
window_or_default days = if days == 0 then 7 else days

abbrev pub tasks_since : ℕ → TaskFilter
tasks_since since = record (tasks_of_session "") { since = since }

unfoldable pub stats_ops_request : Method → Bytes → ℕ → Exec Db ℕ OpsStats
stats_ops_request method window_days now = do
  refuse_if (not (is_get method)) 405
  days ← or_refuse 400 (int_param_in_range window_days 1 90)
  let since = now - window_or_default days * day
  events ← refuse_as (always 500) (list_task_events since)
  tasks ← refuse_as (always 500) (list_tasks (tasks_since since) 0 0)
  pure (compute_ops_stats (window_or_default days) tasks.0 events)

pub record CollectorsStats : Type 0 where
  pub total : ℕ
  pub healthy : ℕ
  pub unhealthy : ℕ
  pub offline : ℕ
  pub unknown : ℕ

pub record TasksStats : Type 0 where
  pub total : ℕ
  pub pending : ℕ
  pub generating : ℕ
  pub validating : ℕ
  pub awaiting_approval : ℕ
  pub applying : ℕ
  pub done : ℕ
  pub rejected : ℕ
  pub failed : ℕ

pub record StatsResponse : Type 0 where
  pub collectors : CollectorsStats
  pub tasks : TasksStats
  pub sessions_total : ℕ

-- An entry of a map, or 0.
unfoldable pub count_of : Counts → String → ℕ
count_of [] k = 0
count_of ((j, n) ∷ counts) k = let rest = count_of counts k in if str_eq j k then n else rest

unfoldable pub sum_of : Counts → ℕ
sum_of [] = 0
sum_of ((j, n) ∷ counts) = n + sum_of counts

abbrev pub response_of : Counts → Counts → ℕ → StatsResponse
response_of by_collector by_task sessions = record {
  sessions_total = sessions;
  collectors = record {
    total = sum_of by_collector;
    healthy = count_of by_collector "healthy";
    unhealthy = count_of by_collector "unhealthy";
    offline = count_of by_collector "offline";
    unknown = count_of by_collector "unknown";
  };
  tasks = record {
    total = sum_of by_task;
    pending = count_of by_task "pending";
    generating = count_of by_task "generating";
    validating = count_of by_task "validating";
    awaiting_approval = count_of by_task "awaiting_approval";
    applying = count_of by_task "applying";
    done = count_of by_task "done";
    rejected = count_of by_task "rejected";
    failed = count_of by_task "failed";
  };
}

unfoldable pub stats_request : Method → Exec Db ℕ StatsResponse
unfolding count_of sum_of
stats_request method = do
  refuse_if (not (is_get method)) 405
  by_collector ← refuse_as (always 500) count_collectors_by_status
  by_task ← refuse_as (always 500) count_tasks_by_status
  sessions ← refuse_as (always 500) count_sessions
  pure (response_of by_collector by_task sessions)
