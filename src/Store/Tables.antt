-- ===== src/Store/Tables.antt =====
-- internal/store/sqlstore.go: the operations of `sqlStore` that the services call.
pub mod Frame
pub mod Others
use cadenza.Prelude.{
  ℕ, zero, suc, ◌+◌, String, Bool, true, false, Option, none, some, List, [], ◌∷◌, ◌++◌, Result, ok,
  err, Exec, pure, raise, continue, ◌>>=◌, find, replace, if◌then◌else◌, str_eq, keep,
}
use cadenza.Models.{Task, TaskEvent, TaskStatus, ConfigVersion, Collector, AuditLog}
use cadenza.Store.{
  Fault, Error, not_found, database, Db, Statement, exec_once, exec_ctx, as_error, query,
  or_not_found,
}

abbrev pub task_key : Task → String
task_key t = t.id

abbrev pub collector_key : Collector → String
collector_key c = c.instance_uid

-- INSERT INTO tasks; the primary key refuses an id that is there.
abbrev pub insert_task : Task → Statement
insert_task t db = elim (find task_key t.id db.tasks) [
  | none ↦ some (record db { tasks = db.tasks ++ t ∷ [] })
  | some _ ↦ none
]

unfoldable pub create_task : Task → Exec Db Error (Unit {0})
create_task t db = as_error (exec_ctx (insert_task t) db)

-- The columns that UPDATE tasks sets: all but the id and the time of creation.
abbrev pub with_columns : Task → Task → Task
with_columns t old = record t { id = old.id; created_at = old.created_at }

abbrev pub set_task : Task → Statement
set_task t db = some (record db { tasks = replace task_key t.id (with_columns t) db.tasks })

abbrev pub stamped : ℕ → Task → Task
stamped now t = record t { updated_at = now }

-- The task that the caller passed has its time changed; that is the value returned.
unfoldable pub update_task : ℕ → Task → Exec Db Error Task
update_task now t db =
    continue (as_error (exec_ctx (set_task (stamped now t)) db)).0 (λ _. pure (stamped now t))
      (exec_ctx (set_task (stamped now t)) db).1

unfoldable pub get_task : String → Exec Db Error Task
get_task id = do found ← query (λ db. find task_key id db.tasks); or_not_found found

abbrev pub append_row_event : TaskEvent → Statement
append_row_event e db = some (record db {
  events = db.events ++ record e { id = db.next_event } ∷ [];
  next_event = db.next_event + 1;
})

unfoldable pub append_task_event : TaskEvent → Exec Db Error (Unit {0})
append_task_event e db = as_error (exec_ctx (append_row_event e) db)

abbrev pub append_row_audit : AuditLog → Statement
append_row_audit a db = some (record db {
  audits = db.audits ++ record a { id = db.next_audit } ∷ [];
  next_audit = db.next_audit + 1;
})

unfoldable pub append_audit : AuditLog → Exec Db Error (Unit {0})
append_audit a db = as_error (exec_once (append_row_audit a) db)

abbrev pub insert_version : ConfigVersion → Statement
insert_version v db = some (record db {
  versions = db.versions ++ record v { id = db.next_version } ∷ [];
  next_version = db.next_version + 1;
})

unfoldable pub create_config_version : ConfigVersion → Exec Db Error (Unit {0})
create_config_version v db = as_error (exec_once (insert_version v) db)

-- INSERT … ON CONFLICT(instance_uid) DO UPDATE, which sets every other column.
abbrev pub put_collector : Collector → Statement
put_collector c db = elim (find collector_key c.instance_uid db.collectors) [
  | none ↦ some (record db { collectors = db.collectors ++ c ∷ [] })
  | some _ ↦
      some (record db { collectors = replace collector_key c.instance_uid (λ _. c) db.collectors })
]

unfoldable pub upsert_collector : Collector → Exec Db Error (Unit {0})
upsert_collector c db = as_error (exec_once (put_collector c) db)

unfoldable pub get_collector : String → Exec Db Error Collector
get_collector uid = do
  found ← query (λ db. find collector_key uid db.collectors)
  or_not_found found
