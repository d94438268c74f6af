-- ===== src/Store/Tables/Frame.antt =====
-- internal/store/sqlstore.go: what each operation leaves of the tables, whatever disturbs it.
use cadenza.Prelude.{
  ℕ, String, ◌≡◌, refl, Option, none, some, Result, ok, err, List, find, replace, continue, pure,
  [], ◌∷◌,
}
use cadenza.Models.{Task, TaskEvent}
use cadenza.Store.{Fault, Error, not_found, database, Db, as_error, query, read, or_not_found}
use cadenza.Store.Retry.{Ran, refused, applied, disturbed, exec_ctx-Ran}
use cadenza.Store.Tables.{
  task_key, with_columns, stamped, set_task, append_row_event, get_task, update_task,
  append_task_event,
}

-- A read changes no table, and returns the row that it found.
pub data Got (id : String) (db : Db) : Result Error Task × Db → Type 0 where
  missed : (e : Error) (d : List (Option Fault)) → Got id db (err e, disturbed db d)
  got :
      (d : List (Option Fault)) (t : Task)
      → find task_key id db.tasks ≡ some t
      → Got id db (ok t, disturbed db d)

pub get_task-Got : (id : String) (db : Db) → Got id db (get_task id db)
unfolding get_task query
get_task-Got id db = go db.disturbances (find task_key id db.tasks) refl refl
  where
    here :
        (d : List (Option Fault)) (o : Option Task)
        → find task_key id db.tasks ≡ o
        → Got id db (or_not_found o (disturbed db d))
    here d none e = missed not_found d
    here d (some t) e = got d t e

    go :
        (l : List (Option Fault)) (o : Option Task)
        → find task_key id db.tasks ≡ o
        → l ≡ db.disturbances
        → Got id db (
            continue
              (read l (λ s. find task_key id s.tasks) db).0
              or_not_found
              (read l (λ s. find task_key id s.tasks) db).1)
    go [] o e h = here db.disturbances (find task_key id db.tasks) refl
    go (none ∷ rest) o e h = here rest (find task_key id db.tasks) refl
    go (some f ∷ rest) o e h = missed (database f) rest

-- An update is refused and changes no row, or it replaces the rows with its id.
pub data Updated (now : ℕ) (t : Task) (db : Db) : Result Error Task × Db → Type 0 where
  kept : (e : Error) (d : List (Option Fault)) → Updated now t db (err e, disturbed db d)
  written :
      (d : List (Option Fault)) (db' : Db)
      → db' ≡ record (disturbed db d) {
        tasks = replace task_key t.id (with_columns (stamped now t)) db.tasks;
      }
      → Updated now t db (ok (stamped now t), db')

pub update_task-Updated : (now : ℕ) (t : Task) (db : Db) → Updated now t db (update_task now t db)
unfolding update_task
update_task-Updated now t db = go (exec_ctx-Ran (set_task (stamped now t)) db)
  where
    go :
        {r : Result Fault (Unit {0}) × Db}
        → Ran (set_task (stamped now t)) db r
        → Updated now t db (continue (as_error r).0 (λ _. pure (stamped now t)) r.1)
    go (refused f d) = kept (database f) d
    go (applied d db' h) = written d db' (cc)

-- An event is appended, or nothing changes.
pub data Logged (e : TaskEvent) (db : Db) : Db → Type 0 where
  dropped : (d : List (Option Fault)) → Logged e db (disturbed db d)
  logged :
      (d : List (Option Fault)) (db' : Db)
      → append_row_event e (disturbed db d) ≡ some db'
      → Logged e db db'

pub append_task_event-Logged : (e : TaskEvent) (db : Db) → Logged e db (append_task_event e db).1
unfolding append_task_event
append_task_event-Logged e db = go (exec_ctx-Ran (append_row_event e) db)
  where
    go :
        {r : Result Fault (Unit {0}) × Db}
        → Ran (append_row_event e) db r
        → Logged e db (as_error r).1
    go (refused f d) = dropped d
    go (applied d db' h) = logged d db' h
