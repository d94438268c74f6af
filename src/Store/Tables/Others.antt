-- ===== src/Store/Tables/Others.antt =====
-- internal/store/sqlstore.go: the operations that leave the tasks as they are.
use mathlib.Core.List.{reverse}
use cadenza.Prelude.{
  keep, length, ℕ, String, ◌≡◌, refl, ◌∙◌, Option, none, some, Result, ok, err, List, [], ◌∷◌,
  continue, pure, ◌>>=◌, find, arith, bind_cases,
}
use cadenza.Models.{Collector, ConfigVersion, AuditLog}
use cadenza.Store.{Fault, Error, Db, Statement, exec_once, as_error, query, read, or_not_found}
use cadenza.Store.Retry.{Ran, refused, applied, disturbed, exec_once-Ran, exec_ctx-Ran}
use cadenza.Store.Pages.{page_of, sort_by_uid, versions_of, list_collectors, list_config_versions}
use cadenza.Models.Chats.{TaskFilter, AgentRun, ChatMessage, ChatSession}
use cadenza.Store.Runs.{run_key, insert_run, set_run, create_agent_run, update_agent_run}
use cadenza.Store.Chats.{
  insert_message, append_message, session_key, insert_session, create_session, messages_of,
  get_session,
}
use cadenza.Store.Lists.{list_tasks, task_passes, sort_tasks}
use cadenza.Store.Tables.{
  append_row_audit, append_audit, insert_version, create_config_version, put_collector,
  upsert_collector, get_collector, collector_key,
}

-- A statement that leaves the tasks as they are.
abbrev Spares : Statement → Type 0
Spares st = (db db' : Db) → st db ≡ some db' → db'.tasks ≡ db.tasks

tasks-exec_once :
    (st : Statement) (db : Db) → Spares st → (as_error (exec_once st db)).1.tasks ≡ db.tasks
tasks-exec_once st db spares = go (exec_once-Ran st db)
  where
    go : {r : Result Fault (Unit {0}) × Db} → Ran st db r → (as_error r).1.tasks ≡ db.tasks
    go (refused f d) = refl
    go (applied d t h) = spares (disturbed db d) t h

pub tasks-query : {A : Type 0} (f : Db → A) (db : Db) → (query f db).1.tasks ≡ db.tasks
unfolding query
tasks-query f db = go db.disturbances
  where
    go : (l : List (Option Fault)) → (read l f db).1.tasks ≡ db.tasks
    go [] = refl
    go (none ∷ rest) = refl
    go (some e ∷ rest) = refl

pub tasks-append_audit : (x : AuditLog) (db : Db) → (append_audit x db).1.tasks ≡ db.tasks
unfolding append_audit
tasks-append_audit x db = tasks-exec_once (append_row_audit x) db (λ s s' h. ground arith)

pub tasks-create_config_version :
    (v : ConfigVersion) (db : Db) → (create_config_version v db).1.tasks ≡ db.tasks
unfolding create_config_version
tasks-create_config_version v db = tasks-exec_once (insert_version v) db (λ s s' h. ground arith)

pub tasks-upsert_collector : (c : Collector) (db : Db) → (upsert_collector c db).1.tasks ≡ db.tasks
unfolding upsert_collector
tasks-upsert_collector c db = tasks-exec_once (put_collector c) db (λ s s' h. ground arith)

tasks-or_not_found :
    {A : Type 0} (r : Result Error (Option A)) (db : Db)
    → (continue r or_not_found db).1.tasks ≡ db.tasks
tasks-or_not_found (ok none) db = refl
tasks-or_not_found (ok (some a)) db = refl
tasks-or_not_found (err e) db = refl

pub tasks-get_collector : (uid : String) (db : Db) → (get_collector uid db).1.tasks ≡ db.tasks
unfolding get_collector
tasks-get_collector uid db =
    let f = λ (db : Db). find collector_key uid db.collectors in
    tasks-or_not_found (query f db).0 (query f db).1 ∙ tasks-query f db

-- Two reads, and what is made of them.
tasks-two_reads :
    {A B C : Type 0} (f : Db → A) (g : Db → B) (h : A → B → C) (db : Db)
    → ((query f >>= λ x. query g >>= λ y. pure (h x y)) db).1.tasks ≡ db.tasks
tasks-two_reads {A} {B} {C} f g h db = first (query f db).0 (query f db).1 (tasks-query f db)
  where
    second :
        (x : A) (r : Result Error B) (db2 : Db)
        → db2.tasks ≡ db.tasks
        → (continue r (λ y. pure {S = Db} {E = Error} (h x y)) db2).1.tasks ≡ db.tasks
    second x (ok y) db2 e = e
    second x (err z) db2 e = e

    first :
        (r : Result Error A) (db1 : Db)
        → db1.tasks ≡ db.tasks
        → (continue r (λ x. query g >>= λ y. pure (h x y)) db1).1.tasks ≡ db.tasks
    first (ok x) db1 e = second x (query g db1).0 (query g db1).1 (tasks-query g db1 ∙ e)
    first (err x) db1 e = e

pub tasks-list_collectors :
    (page size : ℕ) (db : Db) → (list_collectors page size db).1.tasks ≡ db.tasks
unfolding list_collectors
tasks-list_collectors page size db =
    tasks-two_reads (λ db. length db.collectors)
      (λ db. page_of page size (sort_by_uid db.collectors)) (λ total rows. (rows, total)) db

pub tasks-list_config_versions :
    (uid : String) (page size : ℕ) (db : Db)
    → (list_config_versions uid page size db).1.tasks ≡ db.tasks
unfolding list_config_versions
tasks-list_config_versions uid page size db =
    tasks-two_reads (λ db. length (versions_of uid db))
      (λ db. page_of page size (reverse (versions_of uid db))) (λ total rows. (rows, total)) db

pub tasks-list_tasks :
    (f : TaskFilter) (page size : ℕ) (db : Db) → (list_tasks f page size db).1.tasks ≡ db.tasks
unfolding list_tasks
tasks-list_tasks f page size db =
    tasks-two_reads (λ db. length (keep (task_passes f) db.tasks))
      (λ db. page_of page size (sort_tasks (keep (task_passes f) db.tasks)))
      (λ total rows. (rows, total)) db

inserted_run :
    (r : AgentRun) (s s' : Db) (o : Option AgentRun)
    → find run_key r.id s.runs ≡ o
    → insert_run r s ≡ some s'
    → s'.tasks ≡ s.tasks
inserted_run r s s' none e h = ground arith
inserted_run r s s' (some x) e h = ground arith

pub tasks-create_agent_run : (r : AgentRun) (db : Db) → (create_agent_run r db).1.tasks ≡ db.tasks
unfolding create_agent_run
tasks-create_agent_run r db =
    tasks-exec_once (insert_run r) db
      (λ s s' h. inserted_run r s s' (find run_key r.id s.runs) refl h)

pub tasks-update_agent_run : (r : AgentRun) (db : Db) → (update_agent_run r db).1.tasks ≡ db.tasks
unfolding update_agent_run
tasks-update_agent_run r db = tasks-exec_once (set_run r) db (λ s s' h. ground arith)

pub tasks-append_message :
    (id : String) (m : ChatMessage) (db : Db) → (append_message id m db).1.tasks ≡ db.tasks
unfolding append_message
tasks-append_message id m db = go (exec_ctx-Ran (insert_message id m) db)
  where
    go :
        {r : Result Fault (Unit {0}) × Db}
        → Ran (insert_message id m) db r
        → (as_error r).1.tasks ≡ db.tasks
    go (refused f d) = refl
    go (applied d t h) = ground arith

inserted_session :
    (x : ChatSession) (s s' : Db) (o : Option ChatSession)
    → find session_key x.id s.sessions ≡ o
    → insert_session x s ≡ some s'
    → s'.tasks ≡ s.tasks
inserted_session x s s' none e h = ground arith
inserted_session x s s' (some y) e h = ground arith

pub tasks-create_session : (x : ChatSession) (db : Db) → (create_session x db).1.tasks ≡ db.tasks
unfolding create_session
tasks-create_session x db =
    tasks-exec_once (insert_session x) db
      (λ s s' h. inserted_session x s s' (find session_key x.id s.sessions) refl h)

pub tasks-get_session : (id : String) (db : Db) → (get_session id db).1.tasks ≡ db.tasks
unfolding get_session
tasks-get_session id db =
    bind_cases (λ r. r.1.tasks ≡ db.tasks) (query (λ db. find session_key id db.sessions)) _ db
      (λ found e. go found _ (tasks-query (λ db. find session_key id db.sessions) db))
      (λ x e. tasks-query (λ db. find session_key id db.sessions) db)
  where
    go :
        (found : Option ChatSession) (db1 : Db)
        → db1.tasks ≡ db.tasks
        → ((or_not_found found >>= λ s.
              query (messages_of id) >>= λ messages. pure (record s { messages = messages }))
            db1).1.tasks
          ≡ db.tasks
    go none db1 e = e
    go (some s) db1 e =
        bind_cases (λ r. r.1.tasks ≡ db.tasks) (query (messages_of id)) _ db1
          (λ m _. tasks-query (messages_of id) db1 ∙ e)
          (λ x _. tasks-query (messages_of id) db1 ∙ e)
