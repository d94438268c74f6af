-- ===== src/Api/Reads.antt =====
-- internal/api/handlers.go and internal/api/sessions.go: the requests that read. The filter of a list is an argument, `none` where the query is refused.
pub mod Walk
use cadenza.Prelude.{
  ℕ, ◌-◌, ◌+◌, ◌*◌, ◌^◌, String, Bool, true, false, not, ◌&&◌, List, [], ◌∷◌, Option, none, some,
  Result, ok, err, Exec, pure, raise, ◌>>=◌, ◌>>◌, Bytes, bytes, ltb, ◌==◌, str_eq, if◌then◌else◌,
}
use cadenza.Models.{
  Task, Collector, ConfigVersion, AuditLog, CollectorStatus, healthy, unhealthy, offline, unknown,
  unset, TaskStatus, pending, generating, validating, awaiting_approval, applying, done, rejected,
  failed, other,
}
use cadenza.Models.Chats.{TaskFilter, AuditFilter, ChatMessage, ChatSession, SessionSummary}
use cadenza.Store.{Db, Error}
use cadenza.Store.Pages.{list_collectors, list_config_versions}
use cadenza.Store.Tables.{get_task, get_collector}
use cadenza.Store.Lists.{
  list_tasks, list_audit, list_task_events, Counts, count_collectors_by_status,
  count_tasks_by_status,
}
use cadenza.Store.Chats.{
  create_session, get_session, session_exists, list_messages, list_sessions, count_sessions,
}
use cadenza.Diff.Unified.{unified}
use cadenza.Api.Http.{Method, get, post, is_get, is_post, refuse_if, or_refuse, refuse_as, always}
use cadenza.Api.Params.{
  PageQuery, page_params, non_negative_int64, int_param_in_range, max_page_size,
}
use cadenza.Api.Stats.{OpsStats, compute_ops_stats}

-- The answer to a list: a page with the number of all rows, or the rows alone.
pub data Listing (A : Type 0) : Type 0 where
  page_response : List A → ℕ → ℕ → ℕ → Listing A
  bare : List A → Listing A

abbrev pub checked_page : Result (Unit {0}) (Option (ℕ × ℕ)) → Exec Db ℕ (Option (ℕ × ℕ))
checked_page (ok p) = pure p
checked_page (err e) = raise 400

-- The part that the handlers of lists share.
unfoldable pub paged :
    {A : Type 0} → PageQuery → (ℕ → ℕ → Exec Db Error (List A × ℕ)) → Exec Db ℕ (Listing A)
paged q list = do
  page ← checked_page (page_params q)
  elim page [
    | some (n, size) ↦ do
      rows ← refuse_as (always 500) (list n size)
      pure (page_response rows.0 rows.1 n size)
    | none ↦ do rows ← refuse_as (always 500) (list 0 0); pure (bare rows.0)
  ]

unfoldable pub list_collectors_request : Method → PageQuery → Exec Db ℕ (Listing Collector)
unfolding paged
list_collectors_request method q = do refuse_if (not (is_get method)) 405; paged q list_collectors

unfoldable pub list_versions_request :
    Method → PageQuery → String → Exec Db ℕ (Listing ConfigVersion)
unfolding paged
list_versions_request method q uid = do
  refuse_if (not (is_get method)) 405
  paged q (list_config_versions uid)

unfoldable pub list_tasks_request :
    Method → Option TaskFilter → PageQuery → Exec Db ℕ (Listing Task)
unfolding paged
list_tasks_request method filter q = do
  refuse_if (not (is_get method)) 405
  f ← or_refuse 400 filter
  paged q (list_tasks f)

unfoldable pub list_audit_request :
    Method → Option AuditFilter → PageQuery → Exec Db ℕ (Listing AuditLog)
unfolding paged
list_audit_request method filter q = do
  refuse_if (not (is_get method)) 405
  f ← or_refuse 400 filter
  paged q (list_audit f)

unfoldable pub get_task_request : Method → String → Exec Db ℕ Task
get_task_request method id = do
  refuse_if (not (is_get method)) 405
  refuse_as (always 404) (get_task id)

pub record TaskDiff : Type 0 where
  pub task_id : String
  pub base_yaml : String
  pub base_source : String
  pub generated_yaml : String
  pub diff : Bytes
  pub has_base : Bool

abbrev pub base_source_of : Task → String
base_source_of t = if str_eq t.base_yaml "" then "" else t.base_source

-- The two configurations of a task and their difference; text is ASCII here.
unfoldable pub get_task_diff_request : Method → String → Exec Db ℕ TaskDiff
get_task_diff_request method id = do
  refuse_if (not (is_get method)) 405
  t ← refuse_as (always 404) (get_task id)
  refuse_if (str_eq t.generated_yaml "") 409
  pure (record {
    task_id = t.id;
    base_yaml = t.base_yaml;
    base_source = base_source_of t;
    generated_yaml = t.generated_yaml;
    diff = unified (bytes t.base_yaml) (bytes t.generated_yaml);
    has_base = not (str_eq t.base_yaml "");
  })

unfoldable pub get_collector_request : Method → String → Exec Db ℕ Collector
get_collector_request method uid = do
  refuse_if (not (is_get method)) 405
  refuse_as (always 404) (get_collector uid)

unfoldable pub list_sessions_request : PageQuery → Exec Db ℕ (Listing SessionSummary)
unfolding paged
list_sessions_request q = paged q list_sessions

-- The new id and the time are arguments.
unfoldable pub create_session_request : String → ℕ → Method → Exec Db ℕ String
create_session_request id now method = do
  refuse_if (not (is_post method)) 405
  refuse_as (always 500) (create_session (record { id = id; messages = []; created_at = now }))
  pure id

abbrev pub tasks_of_session : String → TaskFilter
tasks_of_session id = record {
  status = none;
  type = none;
  target = "";
  session_id = id;
  since = 0;
  until = 0;
}

unfoldable pub list_session_tasks_request : Method → PageQuery → String → Exec Db ℕ (Listing Task)
unfolding paged
list_session_tasks_request method q id = do
  refuse_if (not (is_get method)) 405
  exists ← refuse_as (always 500) (session_exists id)
  refuse_if (not exists) 404
  paged q (list_tasks (tasks_of_session id))

-- The parameters of a request for messages, empty where they are missing.
pub record MessagesQuery : Type 0 where
  pub before_id : Bytes
  pub after_id : Bytes
  pub limit : Bytes

unfoldable pub list_session_messages_request :
    Method → MessagesQuery → String → Exec Db ℕ (List ChatMessage × ℕ)
list_session_messages_request method q id = do
  refuse_if (not (is_get method)) 405
  exists ← refuse_as (always 500) (session_exists id)
  refuse_if (not exists) 404
  before ← or_refuse 400 (non_negative_int64 q.before_id)
  after ← or_refuse 400 (non_negative_int64 q.after_id)
  refuse_if (ltb 0 before && ltb 0 after) 400
  limit ← or_refuse 400 (int_param_in_range q.limit 1 max_page_size)
  refuse_as (always 500) (list_messages id before after limit)

unfoldable pub get_session_request : Method → String → Exec Db ℕ ChatSession
get_session_request method id = do
  refuse_if (not (is_get method)) 405
  refuse_as (always 404) (get_session id)
