-- ===== src/Store/Lists.antt =====
-- internal/store/sqlstore.go: the filtered lists and the counts. A time is compared by its second:
-- substr(created_at,1,19) is of fixed width.
pub mod Walk
use cadenza.Prelude.{
  ℕ, ◌+◌, ◌*◌, ◌/◌, ◌^◌, String, Bool, true, false, ◌&&◌, ◌||◌, List, [], ◌∷◌, Option, none, some,
  Exec, ◌>>=◌, pure, keep, map, length, str_eq, ltb, leb, ◌==◌, if◌then◌else◌,
}
use cadenza.Models.{
  Task, TaskStatus, TaskType, generate, optimize, apply, upgrade, rollback, same_status,
  status_text, status_word, TaskEvent, AuditLog, AuditAction, generated, approved, reject_action,
  applied, upgraded, rolled_back, Collector, CollectorStatus, healthy, unhealthy, offline, unknown,
  unset,
}
use cadenza.Models.Chats.{TaskFilter, AuditFilter}
use cadenza.Store.{Db, Error, query}
use cadenza.Store.Pages.{page_of, comes_after}
use mathlib.Core.List.{reverse}

abbrev pub second_of : ℕ → ℕ
second_of t = t / 10 ^ 9

-- A time within [from, to + 1s) by the second, where a bound that is 0 is not set.
unfoldable pub within : ℕ → ℕ → ℕ → Bool
within from to t =
    (from == 0 || leb (second_of from) (second_of t))
    && (to == 0 || ltb (second_of t) (second_of to + 1))

-- A condition on a text, left out where the text is empty.
unfoldable pub matches : String → String → Bool
matches wanted s = str_eq wanted "" || str_eq s wanted

pub same_type : TaskType → TaskType → Bool
same_type generate generate = true
same_type optimize optimize = true
same_type apply apply = true
same_type upgrade upgrade = true
same_type rollback rollback = true
same_type _ _ = false

pub same_action : AuditAction → AuditAction → Bool
same_action generated generated = true
same_action approved approved = true
same_action reject_action reject_action = true
same_action applied applied = true
same_action upgraded upgraded = true
same_action rolled_back rolled_back = true
same_action _ _ = false

abbrev pub if_set : {A : Type 0} → Option A → (A → Bool) → Bool
if_set none test = true
if_set (some a) test = test a

-- The conditions of ListTasks.
unfoldable pub task_passes : TaskFilter → Task → Bool
unfolding within matches same_type
task_passes f t =
    if_set f.status (same_status t.status)
    && if_set f.type (same_type t.type)
    && (matches f.target t.target_instance_uid || str_eq t.target_group_id f.target)
    && matches f.session_id t.session_id
    && within f.since f.until t.created_at

-- ORDER BY substr(created_at,1,19) DESC, id DESC
abbrev pub task_before : Task → Task → Bool
task_before t u =
    ltb (second_of u.created_at) (second_of t.created_at)
    || second_of u.created_at == second_of t.created_at && comes_after t.id u.id

pub insert_task_row : Task → List Task → List Task
insert_task_row t [] = t ∷ []
insert_task_row t (u ∷ rows) =
    let rest = insert_task_row t rows in if task_before u t then u ∷ rest else t ∷ u ∷ rows

pub sort_tasks : List Task → List Task
unfolding insert_task_row
sort_tasks [] = []
sort_tasks (t ∷ rows) = insert_task_row t (sort_tasks rows)

unfoldable pub list_tasks : TaskFilter → ℕ → ℕ → Exec Db Error (List Task × ℕ)
unfolding task_passes sort_tasks page_of
list_tasks f page size = do
  total ← query (λ db. length (keep (task_passes f) db.tasks))
  rows ← query (λ db. page_of page size (sort_tasks (keep (task_passes f) db.tasks)))
  pure (rows, total)

-- The rows of events and of the audit stand in the order of their ids.
unfoldable pub list_task_events : ℕ → Exec Db Error (List TaskEvent)
unfolding within
list_task_events since =
    query (λ db. keep (λ (e : TaskEvent). within since 0 e.created_at) db.events)

-- The conditions of ListAudit.
unfoldable pub audit_passes : AuditFilter → AuditLog → Bool
unfolding within matches same_action
audit_passes f a =
    (f.since_id == 0 || ltb f.since_id a.id)
    && matches f.actor a.actor
    && if_set f.action (same_action a.action)
    && matches f.subject a.subject
    && within f.from f.to a.created_at

unfoldable pub list_audit : AuditFilter → ℕ → ℕ → Exec Db Error (List AuditLog × ℕ)
unfolding audit_passes page_of
list_audit f page size = do
  total ← query (λ db. length (keep (audit_passes f) db.audits))
  rows ← query (λ db. page_of page size (reverse (keep (audit_passes f) db.audits)))
  pure (rows, total)

abbrev pub Counts : Type 0
Counts = List (String × ℕ)

-- One more row in the group of a text.
unfoldable pub count_one : String → Counts → Counts
count_one k [] = (k, 1) ∷ []
count_one k ((j, n) ∷ counts) =
    let rest = count_one k counts in if str_eq j k then (j, n + 1) ∷ counts else (j, n) ∷ rest

-- The groups of a column, each with its number of rows.
unfoldable pub count_grouped : List String → Counts
unfolding count_one
count_grouped [] = []
count_grouped (k ∷ ks) = count_one k (count_grouped ks)

unfoldable pub count_collectors_by_status : Exec Db Error Counts
unfolding count_grouped
count_collectors_by_status =
    query (λ db. count_grouped (map (λ (c : Collector). status_word c.status) db.collectors))

unfoldable pub count_tasks_by_status : Exec Db Error Counts
unfolding count_grouped
count_tasks_by_status =
    query (λ db. count_grouped (map (λ (t : Task). status_text t.status) db.tasks))

unfoldable pub ping : Exec Db Error (Unit {0})
ping = query (λ db. tt)
