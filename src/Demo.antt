-- ===== src/Demo.antt =====
-- internal/demo/demo.go: the data that an empty database is given in the demo mode. The time, the
-- new ids and the digest of a configuration are arguments.
pub mod Data
pub mod History
pub mod Once
use cadenza.Prelude.{
  ℕ, String, Bool, true, false, not, List, [], ◌∷◌, length, ltb, Exec, pure, ◌>>=◌, ◌>>◌,
  if◌then◌else◌,
}
use cadenza.Store.{Db, Error}
use cadenza.Store.Pages.{list_collectors}
use cadenza.Store.Groups.{upsert_group}
use cadenza.Store.Chats.{create_session, append_message}
use cadenza.Store.Tables.{
  upsert_collector, create_config_version, create_task, append_task_event, append_audit,
}
use cadenza.Demo.Data.{Ids, demo_collectors, demo_group, demo_versions, demo_session}
use cadenza.Demo.History.{demo_tasks, demo_events, demo_audit, demo_messages}

-- Each element of a list is written, up to the first error.
unfoldable pub write_all :
    {A : Type 0} → (A → Exec Db Error (Unit {0})) → List A → Exec Db Error (Unit {0})
write_all write [] = pure tt
write_all write (x ∷ xs) = write x >> write_all write xs

abbrev pub write_demo : (String → String) → Ids → ℕ → Exec Db Error (Unit {0})
write_demo hash ids now = do
  write_all upsert_collector (demo_collectors now)
  upsert_group demo_group
  write_all create_config_version (demo_versions hash now)
  create_session (demo_session ids now)
  write_all create_task (demo_tasks ids now)
  write_all append_task_event (demo_events ids now)
  write_all append_audit (demo_audit hash ids now)
  write_all (append_message ids.session) (demo_messages now)

unfoldable pub seed : (String → String) → Ids → ℕ → Exec Db Error (Unit {0})
unfolding write_all
seed hash ids now = do
  existing ← list_collectors 0 0
  if ltb 0 (length existing.0) then pure tt else write_demo hash ids now
