-- ===== src/Opamp/Server/Health.antt =====
-- internal/opampserver/server.go: what a message leaves of the record of a collector.
use cadenza.Prelude.{
  ℕ, ◌≡◌, ◌≢◌, refl, ap, find-key, ◌∙◌, String, false, ◌||◌, Option, none, some, List, str_eq,
  eq_iff, eq_refl, if◌then◌else◌, arith,
}
use cadenza.Models.{Collector, unknown}
use cadenza.Store.Tables.{collector_key}
use cadenza.Opamp.Registry
use cadenza.Opamp.Registry.{Registry, StringMap, is_unset, is_offline, with_default_status}
use cadenza.Opamp.Registry.Rows.{get-upsert}
use cadenza.Opamp.Server.{
  World, AgentMessage, RemoteStatus, applied, apply_failed, other_status, record_ack,
  record_effective, backfill, collector_from_message, on_message, take_pending,
}

-- A message that says nothing of the agent, as a compressed one does.
pub record IsQuiet (msg : AgentMessage) : Type 0 where
  pub no_description : msg.description ≡ none
  pub no_health : msg.health ≡ none
  pub no_config : msg.effective ≡ none

-- The record after a quiet message.
abbrev pub seen_again : ℕ → Collector → Collector
seen_again now c = record c {
  last_seen_at = now;
  status = if is_unset c.status || is_offline c.status then unknown else c.status;
}

pub collector-quiet :
    (uid : String) (msg : AgentMessage) (r : Registry) (c : Collector) (now : ℕ)
    → IsQuiet msg
    → Registry.get uid r ≡ some c
    → record (collector_from_message uid msg r) { last_seen_at = now } ≡ seen_again now c
unfolding collector_from_message
collector-quiet uid msg r c now q there =
    ground (arith, q.no_description, q.no_health, q.no_config, there)

get-record_ack :
    (uid j : String) (o : Option (String × RemoteStatus)) (r : Registry)
    → Registry.get j (record_ack uid o r) ≡ Registry.get j r
unfolding Registry.get Registry.set_reported_hash
get-record_ack uid j none r = refl
get-record_ack uid j (some (hash, applied)) r = ground arith
get-record_ack uid j (some (hash, apply_failed)) r = ground arith
get-record_ack uid j (some (hash, other_status)) r = ground arith

get-record_effective :
    (uid j : String) (o : Option (List (String × String))) (r : Registry)
    → Registry.get j (record_effective uid o r) ≡ Registry.get j r
unfolding Registry.get Registry.set_reported_effective
get-record_effective uid j none r = refl
get-record_effective uid j (some files) r = refl

get-set_capabilities :
    (uid j : String) (caps : ℕ) (r : Registry)
    → Registry.get j (Registry.set_capabilities uid caps r) ≡ Registry.get j r
unfolding Registry.get Registry.set_capabilities
get-set_capabilities uid j caps r = refl

-- The world in which the message is judged.
abbrev pub filled : AgentMessage → World → World
filled msg w = backfill msg.instance_uid (Registry.get msg.instance_uid w.registry) w

abbrev pub judged : ℕ → AgentMessage → World → Collector
judged now msg w = record (collector_from_message msg.instance_uid msg (filled msg w).registry) {
  last_seen_at = now;
}

abbrev after_upsert : ℕ → ℕ → AgentMessage → World → Registry
after_upsert now conn msg w =
    (Registry.upsert (judged now msg w) (some conn) ((filled msg w).registry, (filled msg w).db)).0

-- The chain of writes, under the guard of the uid.
registry-on_message :
    (now conn : ℕ) (msg : AgentMessage) (w : World)
    → str_eq msg.instance_uid "" ≡ false
    → (on_message now conn msg w).1.registry
      ≡ record_effective msg.instance_uid msg.effective (
          record_ack msg.instance_uid msg.remote_status (
            Registry.set_capabilities msg.instance_uid msg.capabilities
              (after_upsert now conn msg w)))
unfolding on_message take_pending
registry-on_message now conn msg w named = rw named refl

pub get-on_message :
    (now conn : ℕ) (msg : AgentMessage) (w : World) (j : String)
    → str_eq msg.instance_uid "" ≡ false
    → Registry.get j (on_message now conn msg w).1.registry
      ≡ Registry.get j (after_upsert now conn msg w)
get-on_message now conn msg w j named =
    let uid = msg.instance_uid in
    let r2 = after_upsert now conn msg w in
    let r3 = Registry.set_capabilities uid msg.capabilities r2 in
    rw (registry-on_message now conn msg w named) (
      get-record_effective uid j msg.effective (record_ack uid msg.remote_status r3)
      ∙ get-record_ack uid j msg.remote_status r3
      ∙ get-set_capabilities uid j msg.capabilities r2)

-- A message that says nothing of the agent keeps what the registry knows of it: its name, its
-- version, its configuration and its group; it is seen now, and one that was offline or had no
-- status becomes unknown.
pub get-on_message_quiet :
    (now conn : ℕ) (msg : AgentMessage) (w : World) (c : Collector)
    → msg.instance_uid ≢ ""
    → IsQuiet msg
    → Registry.get msg.instance_uid w.registry ≡ some c
    → Registry.get msg.instance_uid (on_message now conn msg w).1.registry ≡ some (seen_again now c)
unfolding Registry.get
get-on_message_quiet now conn msg w c named q there =
    let uid = msg.instance_uid in
    let key : c.instance_uid ≡ uid = find-key collector_key uid c w.registry.collectors there in
    let full : filled msg w ≡ w = ap (λ o. backfill uid o w) there in
    let now_is : judged now msg w ≡ seen_again now c =
      rw full (collector-quiet uid msg w.registry c now q there) in
    ground (
      arith,
      get-on_message now conn msg w uid,
      get-upsert (judged now msg w) (some conn) (filled msg w).registry (filled msg w).db uid,
      eq_iff uid "",
      eq_refl uid,
    )
