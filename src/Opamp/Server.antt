-- ===== src/Opamp/Server.antt =====
-- internal/opampserver/server.go. What connections do with the messages sent is a list of
-- outcomes; messages that were accepted are in the outbox.
pub mod Deliver
pub mod Health
use Prim.Native.Char.{code}
use Prim.Native.String.{◌++◌ as concat}
use cadenza.Prelude.{
  ℕ, ◌+◌, ◌%◌, String, Bool, true, false, not, ◌&&◌, ◌||◌, List, [], ◌∷◌, ◌++◌, Option, none, some,
  Result, ok, err, Exec, ltb, leb, ◌==◌, str_eq, if◌then◌else◌, Bytes, bytes, length,
}
use cadenza.Models.{Collector, CollectorStatus, healthy, unhealthy, offline, unknown, unset}
use cadenza.Store.{Db, Error, bad_instance_uid}
use cadenza.Store.Tables.{get_collector}
use cadenza.Opamp.Registry
use cadenza.Opamp.Registry.{Registry, StringMap, assign, delete, is_unset, is_offline, is_some}

-- What is sent to an agent: a configuration, or the command to restart.
pub data Payload : Type 0 where
  remote_config : String → Payload
  restart : Payload

pub record World : Type 0 where
  pub db : Db
  pub registry : Registry
  pub waiting : StringMap String
  pub outbox : List (String × Payload)
  pub send_outcomes : List Bool

pub data RemoteStatus : Type 0 where
  applied apply_failed other_status : RemoteStatus

pub record Description : Type 0 where
  pub identifying : List (String × String)
  pub non_identifying : List (String × String)

-- AgentToServer, with the instance uid and the hash in hexadecimal. The files of the effective
-- configuration stand in the order in which the map is ranged over.
pub record AgentMessage : Type 0 where
  pub instance_uid : String
  pub capabilities : ℕ
  pub description : Option Description
  pub health : Option Bool
  pub effective : Option (List (String × String))
  pub remote_status : Option (String × RemoteStatus)

-- ServerToAgent: whether the full state is asked for, and the configuration that goes along.
pub record Reply : Type 0 where
  pub report_full_state : Bool
  pub config : Option String

pub config_map_to_string : List (String × String) → String
config_map_to_string [] = ""
config_map_to_string ((k, body) ∷ files) =
    concat (concat (if str_eq k "" then "" else concat "# " (concat k "\n")) (concat body "\n"))
      (config_map_to_string files)

pub identify : List (String × String) → Collector → Collector
identify [] c = c
identify ((k, v) ∷ rest) c = identify rest (
    if str_eq k "service.version"
    then record c { version = v }
    else if str_eq k "host.name"
    then record c { hostname = v }
    else c)

pub complete : List (String × String) → Collector → Collector
complete [] c = c
complete ((k, v) ∷ rest) c = complete rest (
    if str_eq k "service.version"
    then (if str_eq c.version "" then record c { version = v } else c)
    else if str_eq k "host.name"
    then (if str_eq c.hostname "" then record c { hostname = v } else c)
    else c)

abbrev pub describe : Option Description → Collector → Collector
describe none c = c
describe (some d) c = complete d.non_identifying (identify d.identifying c)

abbrev pub judge_health : Option Bool → Collector → Collector
judge_health (some true) c = record c { status = healthy }
judge_health (some false) c = record c { status = unhealthy }
judge_health none c =
    if is_unset c.status || is_offline c.status then record c { status = unknown } else c

abbrev pub take_effective : Option (List (String × String)) → Collector → Collector
take_effective none c = c
take_effective (some files) c = record c { effective_config = config_map_to_string files }

abbrev pub base_collector : String → Option Collector → Collector
base_collector uid none = record {
  instance_uid = uid;
  hostname = "";
  version = "";
  last_seen_at = 0;
  status = unknown;
  effective_config = "";
  group_id = "";
}
base_collector uid (some prev) = prev

unfoldable pub collector_from_message : String → AgentMessage → Registry → Collector
unfolding config_map_to_string identify complete
collector_from_message uid msg r =
    take_effective msg.effective
      (judge_health msg.health (describe msg.description (base_collector uid (Registry.get uid r))))

-- The record of the store is put into the registry where that has none.
abbrev pub backfill : String → Option Collector → World → World
backfill uid (some c) w = w
backfill uid none w =
    let (found, db) = get_collector uid w.db in
    elim found [
      | err e ↦ record w { db = db }
      | ok prev ↦
          let (r, db') = Registry.upsert prev none (w.registry, db) in
          record w { registry = r; db = db' }
    ]

abbrev pub record_ack : String → Option (String × RemoteStatus) → Registry → Registry
record_ack uid none r = r
record_ack uid (some (hash, status)) r = if str_eq hash "" then r else elim status [
  | applied ↦ Registry.set_reported_hash uid hash r
  | apply_failed ↦ Registry.set_reported_hash uid "" r
  | other_status ↦ r
]

abbrev pub record_effective : String → Option (List (String × String)) → Registry → Registry
record_effective uid none r = r
record_effective uid (some files) r =
    Registry.set_reported_effective uid (config_map_to_string files) r

abbrev pub or_empty : Option String → String
or_empty none = ""
or_empty (some s) = s

-- The configuration that waits for a collector is taken out.
unfoldable pub take_pending : String → World → String × World
take_pending uid w = (or_empty (w.waiting uid), record w { waiting = delete uid w.waiting })

abbrev pub config_of : String → Option String
config_of cfg = if str_eq cfg "" then none else some cfg

unfoldable pub on_message : ℕ → ℕ → AgentMessage → World → Option Reply × World
unfolding collector_from_message take_pending
on_message now conn msg w =
    let uid = msg.instance_uid in
    let w1 = backfill uid (Registry.get uid w.registry) w in
    let c = record (collector_from_message uid msg w1.registry) { last_seen_at = now } in
    let (r2, db2) = Registry.upsert c (some conn) (w1.registry, w1.db) in
    let r3 = Registry.set_capabilities uid msg.capabilities r2 in
    let r4 = record_effective uid msg.effective (record_ack uid msg.remote_status r3) in
    let w5 = record w1 { registry = r4; db = db2 } in
    let (cfg, w6) = take_pending uid w5 in
    if str_eq uid "" then (none, w) else (
      some (record {
        report_full_state =
            not (is_some (Registry.reported_effective uid r4))
            || str_eq c.hostname ""
            || str_eq c.version "";
        config = config_of cfg;
      }),
      w6,
    )
