-- ===== src/Opamp/Registry/Rows.antt =====
-- internal/opampserver/registry.go: the rows after a write.
use cadenza.Prelude.{
  ℕ, ◌≡◌, String, Option, some, find, find-append, find-append_ne, find-replace_all, str_eq, eq_iff,
  if◌then◌else◌, arith, List,
}
use cadenza.Models.{Collector}
use cadenza.Store.{Db}
use cadenza.Store.Tables.{collector_key}
use cadenza.Opamp.Registry.{Registry, put_row, with_default_status, upsert, get}

pub find-put_row :
    (c : Collector) (rows : List Collector) (j : String)
    → find collector_key j (put_row c rows)
      ≡ (if str_eq c.instance_uid j then some c else find collector_key j rows)
find-put_row c rows j = ground (
  arith,
  find-append collector_key j c rows,
  find-append_ne collector_key j c rows,
  find-replace_all collector_key c.instance_uid j c rows,
  eq_iff c.instance_uid j,
)

-- An upsert shows under its own uid, with `healthy` for a missing status, and nowhere else.
pub get-upsert :
    (c : Collector) (conn : Option ℕ) (r : Registry) (db : Db) (j : String)
    → get j (upsert c conn (r, db)).0
      ≡ (if str_eq c.instance_uid j then some (with_default_status c) else get j r)
unfolding get upsert
get-upsert c conn r db j =
    let c' = with_default_status c in
    ground (arith, find-put_row (with_default_status c) r.collectors j)
