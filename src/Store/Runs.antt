-- ===== src/Store/Runs.antt =====
-- internal/store/sqlstore.go: the table of runs of an agent.
use cadenza.Prelude.{String, [], ◌∷◌, ◌++◌, none, some, Exec, find, replace}
use cadenza.Models.Chats.{AgentRun}
use cadenza.Store.{Db, Error, Statement, as_error, exec_once}

abbrev pub run_key : AgentRun → String
run_key r = r.id

abbrev pub insert_run : AgentRun → Statement
insert_run r db = elim (find run_key r.id db.runs) [
  | none ↦ some (record db { runs = db.runs ++ r ∷ [] })
  | some _ ↦ none
]

unfoldable pub create_agent_run : AgentRun → Exec Db Error (Unit {0})
create_agent_run r db = as_error (exec_once (insert_run r) db)

-- The columns that UPDATE agent_runs sets: all but the id and the start.
abbrev pub with_run : AgentRun → AgentRun → AgentRun
with_run r old = record r { id = old.id; started_at = old.started_at }

abbrev pub set_run : AgentRun → Statement
set_run r db = some (record db { runs = replace run_key r.id (with_run r) db.runs })

unfoldable pub update_agent_run : AgentRun → Exec Db Error (Unit {0})
update_agent_run r db = as_error (exec_once (set_run r) db)
