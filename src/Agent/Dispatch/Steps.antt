-- ===== src/Agent/Dispatch/Steps.antt =====
-- internal/agent and internal/opampserver: the steps that leave the stored tasks as they are.
use cadenza.Prelude.{
  ℕ, zero, suc, ◌+◌, String, ◌≡◌, refl, ◌∙◌, Bool, true, false, Bool-cases, inl, inr, Option, none,
  some, Result, ok, err, List, [], ◌∷◌, arith, str_eq, leb,
}
use cadenza.Models.{Collector}
use cadenza.Store.{Db, Error}
use cadenza.Store.Tables.{get_collector, upsert_collector}
use cadenza.Store.Tables.Others.{
  tasks-get_collector, tasks-upsert_collector, tasks-create_config_version,
}
use cadenza.Opamp.Registry
use cadenza.Opamp.Registry.{Registry}
use cadenza.Opamp.Server.{
  World, AgentMessage, backfill, on_message, take_pending, collector_from_message,
}
use cadenza.Opamp.Push.{push_config, send_restart, send, set_pending}
use cadenza.Agent.{Agent}
use cadenza.Agent.Confirm.{
  next_round, receive, sleep, wait_confirm, is_confirmed, push_and_confirm, poll_interval,
  max_polls,
}
use cadenza.Agent.Versions.{record_in_registry, record_in_store, record_config_version, with_config}

-- The tasks of two worlds are the same.
abbrev pub Same : World → World → Type 0
Same w w' = w'.db.tasks ≡ w.db.tasks

tasks-registry_upsert :
    (c : Collector) (conn : Option ℕ) (r : Registry) (db : Db)
    → (Registry.upsert c conn (r, db)).1.tasks ≡ db.tasks
unfolding Registry.upsert
tasks-registry_upsert c conn r db = tasks-upsert_collector _ db

Same-backfill : (uid : String) (o : Option Collector) (w : World) → Same w (backfill uid o w)
Same-backfill uid (some c) w = refl
Same-backfill uid none w = go (get_collector uid w.db).0 (tasks-get_collector uid w.db)
  where
    go :
        (r : Result Error Collector)
        → (get_collector uid w.db).1.tasks ≡ w.db.tasks
        → (elim r as (λ _. World) [
          | err e ↦ record w { db = (get_collector uid w.db).1 }
          | ok prev ↦
              let (reg, db') = Registry.upsert prev none (w.registry, (get_collector uid w.db).1) in
              record w { registry = reg; db = db' }
        ]).db.tasks
          ≡ w.db.tasks
    go (err e) h = h
    go (ok prev) h = tasks-registry_upsert prev none w.registry (get_collector uid w.db).1 ∙ h

pub Same-on_message :
    (now conn : ℕ) (msg : AgentMessage) (w : World) → Same w (on_message now conn msg w).1
unfolding on_message take_pending
Same-on_message now conn msg w =
    let uid = msg.instance_uid in
    let w1 = backfill uid (Registry.get uid w.registry) w in
    let c = record (collector_from_message uid msg w1.registry) { last_seen_at = now } in
    elim (Bool-cases (str_eq uid "")) [
      | inl e ↦ rw e refl
      | inr e ↦ rw e (
          tasks-registry_upsert c (some conn) w1.registry w1.db
          ∙ Same-backfill uid (Registry.get uid w.registry) w)
    ]

Same-receive : (l : List (ℕ × (ℕ × AgentMessage))) (w : World) → Same w (receive l w)
unfolding receive
Same-receive [] w = refl
Same-receive ((now, (conn, msg)) ∷ rest) w =
    Same-receive rest (on_message now conn msg w).1 ∙ Same-on_message now conn msg w

Same-sleep : (a : Agent) → Same a.world (sleep a).1.world
unfolding sleep
Same-sleep a = Same-receive (next_round a.rounds).0.messages a.world

pub Same-push_config : (uid yaml : String) (w : World) → Same w (push_config uid yaml w).1
unfolding push_config send set_pending
Same-push_config uid yaml w = ground arith

Same-send_restart : (uid : String) (w : World) → Same w (send_restart uid w).1
unfolding send_restart send
Same-send_restart uid w = ground arith

Same-record_in_registry : (uid yaml : String) (w : World) → Same w (record_in_registry uid yaml w)
Same-record_in_registry uid yaml w = go (Registry.get uid w.registry)
  where
    go :
        (o : Option Collector)
        → (elim o as (λ _. World) [
          | none ↦ w
          | some c ↦
              let (r, db) = Registry.upsert (with_config yaml c) none (w.registry, w.db) in
              record w { registry = r; db = db }
        ]).db.tasks
          ≡ w.db.tasks
    go none = refl
    go (some c) = tasks-registry_upsert (with_config yaml c) none w.registry w.db

Same-record_in_store : (uid yaml : String) (w : World) → Same w (record_in_store uid yaml w)
Same-record_in_store uid yaml w = go (get_collector uid w.db).0
  where
    go :
        (r : Result Error Collector)
        → (elim r as (λ _. World) [
          | err e ↦ record w { db = (get_collector uid w.db).1 }
          | ok c ↦ record w {
            db = (upsert_collector (with_config yaml c) (get_collector uid w.db).1).1;
          }
        ]).db.tasks
          ≡ w.db.tasks
    go (err e) = tasks-get_collector uid w.db
    go (ok c) = tasks-upsert_collector _ _ ∙ tasks-get_collector uid w.db

pub Same-record_config_version :
    (hash : String → String) (uid yaml : String) (a : Agent)
    → Same a.world (record_config_version hash uid yaml a).world
unfolding record_config_version
Same-record_config_version hash uid yaml a = go _ (tasks-create_config_version _ a.world.db)
  where
    go :
        (x : Result Error (Unit {0}) × Db)
        → x.1.tasks ≡ a.world.db.tasks
        → (elim x.0 as (λ _. World) [
          | err e ↦ record a.world { db = x.1 }
          | ok u ↦
              record_in_store uid yaml (record_in_registry uid yaml (record a.world { db = x.1 }))
        ]).db.tasks
          ≡ a.world.db.tasks
    go (err e, db) h = h
    go (ok u, db) h =
        let w = record a.world { db = db } in
        Same-record_in_store uid yaml (record_in_registry uid yaml w)
        ∙ Same-record_in_registry uid yaml w
        ∙ h

module _ (covers : String → String → Bool) (timeout : ℕ) (uid want pushed : String) where
  Same-wait_confirm :
      (n passed : ℕ) (a : Agent)
      → Same a.world (wait_confirm covers n passed timeout uid want pushed a).1.world
  unfolding wait_confirm
  Same-wait_confirm zero passed a = refl
  Same-wait_confirm (suc n) passed a =
      round (is_confirmed covers uid want pushed a.world.registry) (leb timeout passed)
        (sleep a).0.cancelled
        (Same-wait_confirm n (passed + poll_interval + (sleep a).0.late) (sleep a).1 ∙ Same-sleep a)
    where
      more : Option Bool × Agent
      more =
          wait_confirm covers n (passed + poll_interval + (sleep a).0.late) timeout uid want pushed
            (sleep a).1

      round :
          (x y z : Bool)
          → Same a.world more.1.world
          → Same a.world
              (elim x as (λ _. Option Bool × Agent) [
                | true ↦ (some true, a)
                | false ↦ elim y as (λ _. Option Bool × Agent) [
                  | true ↦ (some false, a)
                  | false ↦ elim z as (λ _. Option Bool × Agent) [
                    | true ↦ (some false, (sleep a).1)
                    | false ↦ more
                  ]
                ]
              ]).1.world
      round true y z h = refl
      round false true z h = refl
      round false false true h = Same-sleep a
      round false false false h = h

pub Same-push_and_confirm :
    (hash : String → String) (covers : String → String → Bool) (uid yaml : String) (a : Agent)
    → Same a.world (push_and_confirm hash covers uid yaml a).1.world
unfolding push_and_confirm
Same-push_and_confirm hash covers uid yaml a =
    let w = (push_config uid yaml a.world).1 in
    let a1 = record a { world = w } in
    let wait = λ (b : Agent). wait_confirm covers max_polls 0 6000 uid (hash yaml) yaml b in
    let a2 = (wait a1).1 in
    let a3 = record a2 { world = (send_restart uid a2.world).1 } in
    let pushed = Same-push_config uid yaml a.world in
    let first = Same-wait_confirm covers 6000 uid (hash yaml) yaml max_polls 0 a1 in
    let restarted = Same-send_restart uid a2.world in
    let second = Same-wait_confirm covers 6000 uid (hash yaml) yaml max_polls 0 a3 in
    ground (arith, pushed, first, restarted, second)
