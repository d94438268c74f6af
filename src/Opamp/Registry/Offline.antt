-- ===== src/Opamp/Registry/Offline.antt =====
-- internal/opampserver/registry.go: what `MarkOffline` changes.
use cadenza.Prelude.{ℕ, ◌≡◌, refl, String, find, if◌then◌else◌, arith, List, [], ◌∷◌, on_some}
use cadenza.Models.{Collector}
use cadenza.Store.{Db}
use cadenza.Store.Tables.{collector_key, upsert_collector}
use cadenza.Opamp.Registry.{Registry, get, is_stale, to_offline, mark_rows, mark_offline}

abbrev pub marked : ℕ → ℕ → Collector → Collector
marked after now c = if is_stale after now c then to_offline c else c

find-mark_rows :
    (uid : String) (after now : ℕ) (rows : List Collector) (db : Db)
    → find collector_key uid (mark_rows after now rows db).0
      ≡ on_some (marked after now) (find collector_key uid rows)
unfolding find mark_rows
find-mark_rows uid after now [] db = refl
find-mark_rows uid after now (c ∷ rows) db = ground (
  arith,
  find-mark_rows uid after now rows
      (if is_stale after now c then (upsert_collector (to_offline c) db).1 else db),
)

-- After `mark_offline` a collector is offline if it was so before or has not been seen for longer
-- than the threshold; it is otherwise as it was, and the connections and the configurations that
-- were reported are untouched.
pub get-mark_offline :
    (now : ℕ) (r : Registry) (db : Db) (uid : String)
    → (get uid (mark_offline now (r, db)).0 ≡ on_some (marked r.offline_after now) (get uid r))
      × ((mark_offline now (r, db)).0.conns ≡ r.conns)
      × ((mark_offline now (r, db)).0.rep_eff ≡ r.rep_eff)
unfolding get mark_offline
get-mark_offline now r db uid = (find-mark_rows uid r.offline_after now r.collectors db, refl, refl)
