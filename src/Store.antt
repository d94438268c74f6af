-- ===== src/Store.antt =====
-- internal/store/sqlstore.go: the tables, and the statements as functions on them. What the
-- database does beside them is a list of disturbances: each statement sent takes the next one, and
-- none is left undisturbed; past the end of the list nothing fails. A disturbance comes before the
-- statement takes effect; one that takes effect and then reports an error, as where the connection
-- is lost, is left out here, and Store/Retry/Once.antt is about it.
pub mod Retry
pub mod Tables
pub mod Pages
pub mod Groups
pub mod Chats
pub mod Lists
pub mod Runs
use cadenza.Prelude.{
  ℕ, zero, suc, ◌+◌, String, Bool, true, false, Option, none, some, List, [], ◌∷◌, ◌++◌, Result, ok,
  err, Exec, pure, raise, continue, ◌>>=◌, find, replace, if◌then◌else◌, str_eq,
}
use cadenza.Models.Chats.{CollectorGroup, ChatSession, MessageRow, AgentRun}
use cadenza.Models.{Task, TaskEvent, TaskStatus, ConfigVersion, Collector, AuditLog, same_status}

-- What can go wrong with one statement: a lock that another writer holds, the same with the
-- context done while the store waits to try again, and any other failure.
pub data Fault : Type 0 where
  busy busy_cancelled broken : Fault

pub data Error : Type 0 where
  not_found : Error
  database : Fault → Error
  illegal_transition : TaskStatus → TaskStatus → Error
  missing_argument no_match nothing_to_push no_server bad_instance_uid version_missing : Error
  wrong_collector approval_required invalid_config rollback_failed generation_failed : Error
  git_disabled git_unread bad_arguments unknown_tool unencodable model_failed empty_reply : Error

pub record Db : Type 0 where
  pub collectors : List Collector
  pub versions : List ConfigVersion
  pub tasks : List Task
  pub events : List TaskEvent
  pub audits : List AuditLog
  pub groups : List CollectorGroup
  pub sessions : List ChatSession
  pub messages : List MessageRow
  pub runs : List AgentRun
  pub next_version : ℕ
  pub next_event : ℕ
  pub next_audit : ℕ
  pub next_message : ℕ
  pub disturbances : List (Option Fault)

-- One statement: the tables after it, or nothing where a constraint refuses it.
abbrev pub Statement : Type 0
Statement = Db → Option Db

abbrev pub settle : Option Db → Db → Result Fault (Unit {0}) × Db
settle none db = (err broken, db)
settle (some db') db = (ok tt, db')

-- A statement against the next disturbance, which comes before the statement takes effect.
abbrev pub send : List (Option Fault) → Statement → Db → Result Fault (Unit {0}) × Db
send [] st db = settle (st db) db
send (none ∷ rest) st db = let db' = record db { disturbances = rest } in settle (st db') db'
send (some f ∷ rest) st db = (err f, record db { disturbances = rest })

-- ExecContext
unfoldable pub exec_once : Statement → Exec Db Fault (Unit {0})
exec_once st db = send db.disturbances st db

-- The loop of `execCtx` over a way to send the statement, with the rounds that are left and the
-- error of the last round.
unfoldable pub exec_rounds :
    {S : Type 0} → ℕ → Fault → Exec S Fault (Unit {0}) → Exec S Fault (Unit {0})
exec_rounds zero last once s = (err last, s)
exec_rounds (suc n) last once s =
    let (r, s') = once s in
    elim r [
      | ok u ↦ (ok u, s')
      | err f ↦ elim f [ busy ↦ exec_rounds n busy once s' | other ↦ (err other, s') ]
    ]

-- `execCtx` over any driver.
unfoldable pub exec_by : {S : Type 0} → Exec S Fault (Unit {0}) → Exec S Fault (Unit {0})
unfolding exec_rounds
exec_by once = exec_rounds 3 broken once

unfoldable pub exec_ctx : Statement → Exec Db Fault (Unit {0})
unfolding exec_by exec_once
exec_ctx st = exec_by (exec_once st)

-- A failed statement as an error of the store.
abbrev pub as_error : {A : Type 0} → Result Fault A × Db → Result Error A × Db
as_error (ok a, db) = (ok a, db)
as_error (err f, db) = (err (database f), db)

abbrev pub read : {A : Type 0} → List (Option Fault) → (Db → A) → Db → Result Error A × Db
read [] f db = (ok (f db), db)
read (none ∷ rest) f db = (ok (f db), record db { disturbances = rest })
read (some e ∷ rest) f db = (err (database e), record db { disturbances = rest })

-- QueryContext and QueryRowContext, with the scan of what they return.
unfoldable pub query : {A : Type 0} → (Db → A) → Exec Db Error A
query f db = read db.disturbances f db

abbrev pub or_not_found : {A : Type 0} → Option A → Exec Db Error A
or_not_found none = raise not_found
or_not_found (some a) = pure a
