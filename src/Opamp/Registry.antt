-- ===== src/Opamp/Registry.antt =====
-- internal/opampserver/registry.go. Each method holds the mutex from start to end.
pub mod Offline
pub mod Rows
use cadenza.Prelude.{
  ℕ, ◌+◌, ◌/◌, ◌%◌, String, Bool, true, false, not, ◌&&◌, List, [], ◌∷◌, ◌++◌, Option, none, some,
  find, replace, ltb, ◌==◌, str_eq, if◌then◌else◌, Result, Exec, ◌>>=◌,
}
use cadenza.Models.{Collector, CollectorStatus, healthy, unhealthy, offline, unknown, unset}
use cadenza.Store.{Db, Error}
use cadenza.Store.Tables.{collector_key, upsert_collector}

abbrev pub StringMap : Type 0 → Type 0
StringMap V = String → Option V

abbrev pub empty_map : {V : Type 0} → StringMap V
empty_map k = none

abbrev pub assign : {V : Type 0} → String → V → StringMap V → StringMap V
assign k v m j = if str_eq k j then some v else m j

abbrev pub delete : {V : Type 0} → String → StringMap V → StringMap V
delete k m j = if str_eq k j then none else m j

abbrev pub is_some : {V : Type 0} → Option V → Bool
is_some none = false
is_some (some v) = true

pub record Registry : Type 0 where
  pub collectors : List Collector
  pub conns : StringMap ℕ
  pub caps : StringMap ℕ
  pub rep_hash : StringMap String
  pub rep_eff : StringMap String
  pub offline_after : ℕ

unfoldable pub new_registry : ℕ → Registry
new_registry offline_after = record {
  collectors = [];
  conns = empty_map;
  caps = empty_map;
  rep_hash = empty_map;
  rep_eff = empty_map;
  offline_after = offline_after;
}

abbrev pub is_unset : CollectorStatus → Bool
is_unset unset = true
is_unset _ = false

abbrev pub is_offline : CollectorStatus → Bool
is_offline offline = true
is_offline _ = false

abbrev pub with_default_status : Collector → Collector
with_default_status c = if is_unset c.status then record c { status = healthy } else c

-- collectors[uid] = c
abbrev pub put_row : Collector → List Collector → List Collector
put_row c rows = elim (find collector_key c.instance_uid rows) [
  | none ↦ rows ++ c ∷ []
  | some _ ↦ replace collector_key c.instance_uid (λ _. c) rows
]

abbrev pub bind_conn : String → Option ℕ → StringMap ℕ → StringMap ℕ
bind_conn uid none m = m
bind_conn uid (some conn) m = assign uid conn m

-- The write to the store is best effort: its outcome is dropped.
unfoldable pub upsert : Collector → Option ℕ → Registry × Db → Registry × Db
upsert c conn (r, db) =
    let c' = with_default_status c in
    (
      record r {
        collectors = put_row c' r.collectors;
        conns = bind_conn c'.instance_uid conn r.conns;
      },
      (upsert_collector c' db).1,
    )

unfoldable pub get : String → Registry → Option Collector
get uid r = find collector_key uid r.collectors

unfoldable pub conn_of : String → Registry → Option ℕ
conn_of uid r = r.conns uid

-- The connection is closed: what it reported no longer counts.
unfoldable pub remove : String → Registry → Registry
remove uid r = record r {
  conns = delete uid r.conns;
  caps = delete uid r.caps;
  rep_hash = delete uid r.rep_hash;
  rep_eff = delete uid r.rep_eff;
}

unfoldable pub online : String → Registry → Bool
online uid r = is_some (r.conns uid)

unfoldable pub set_capabilities : String → ℕ → Registry → Registry
set_capabilities uid caps r = record r { caps = assign uid caps r.caps }

-- A missing entry reads as 0; the bit is 1024.
abbrev pub has_restart_bit : Option ℕ → Bool
has_restart_bit none = false
has_restart_bit (some caps) = not (caps / 1024 % 2 == 0)

unfoldable pub accepts_restart_command : String → Registry → Bool
accepts_restart_command uid r = has_restart_bit (r.caps uid)

unfoldable pub set_reported_hash : String → String → Registry → Registry
set_reported_hash uid hash r =
    if str_eq hash ""
    then record r { rep_hash = delete uid r.rep_hash }
    else record r { rep_hash = assign uid hash r.rep_hash }

unfoldable pub reported_hash : String → Registry → Option String
reported_hash uid r = r.rep_hash uid

unfoldable pub set_reported_effective : String → String → Registry → Registry
set_reported_effective uid content r = record r { rep_eff = assign uid content r.rep_eff }

unfoldable pub reported_effective : String → Registry → Option String
reported_effective uid r = r.rep_eff uid

-- Whether `MarkOffline` changes a collector.
abbrev pub is_stale : ℕ → ℕ → Collector → Bool
is_stale after now c = ltb (c.last_seen_at + after) now && not (is_offline c.status)

abbrev pub to_offline : Collector → Collector
to_offline c = record c { status = offline }

pub mark_rows : ℕ → ℕ → List Collector → Db → List Collector × Db
mark_rows after now [] db = ([], db)
mark_rows after now (c ∷ rows) db =
    let c' = if is_stale after now c then to_offline c else c in
    let db' = if is_stale after now c then (upsert_collector c' db).1 else db in
    let (rows', db'') = mark_rows after now rows db' in (c' ∷ rows', db'')

unfoldable pub mark_offline : ℕ → Registry × Db → Registry × Db
unfolding mark_rows
mark_offline now (r, db) =
    let (rows, db') = mark_rows r.offline_after now r.collectors db in
    (record r { collectors = rows }, db')
