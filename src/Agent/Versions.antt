-- ===== src/Agent/Versions.antt =====
-- internal/agent/tools.go: `recordConfigVersion`, and the configuration that a task starts from.
pub mod Base
use cadenza.Prelude.{
  String, true, false, List, [], ◌∷◌, Option, none, some, Result, ok, err, str_eq, if◌then◌else◌,
}
use cadenza.Models.{Collector}
use cadenza.Store.{Db, Error}
use cadenza.Store.Pages.{list_collectors}
use cadenza.Store.Tables.{create_config_version, get_collector, upsert_collector}
use cadenza.Agent.{Agent, next_reading}
use cadenza.Opamp.Registry
use cadenza.Opamp.Server.{World}

abbrev pub with_config : String → Collector → Collector
with_config yaml c = record c { effective_config = yaml }

abbrev pub record_in_registry : String → String → World → World
record_in_registry uid yaml w = elim (Registry.get uid w.registry) [
  | none ↦ w
  | some c ↦
      let (r, db) = Registry.upsert (with_config yaml c) none (w.registry, w.db) in
      record w { registry = r; db = db }
]

abbrev pub record_in_store : String → String → World → World
record_in_store uid yaml w =
    let (r, db) = get_collector uid w.db in
    elim r [
      | err e ↦ record w { db = db }
      | ok c ↦ record w { db = (upsert_collector (with_config yaml c) db).1 }
    ]

unfoldable pub record_config_version : (String → String) → String → String → Agent → Agent
record_config_version hash uid yaml a =
    let (t, rest) = next_reading a.clock in
    let (r, db) =
      create_config_version
        (record {
          id = 0;
          collector_instance_uid = uid;
          yaml = yaml;
          hash = hash yaml;
          validated = true;
          created_at = t;
        })
        a.world.db in
    let w = record a.world { db = db } in
    let w' : World = elim r [
      | err e ↦ w
      | ok u ↦ record_in_store uid yaml (record_in_registry uid yaml w)
    ] in
    record a { world = w'; clock = rest }

pub data BaseSource : Type 0 where
  no_base reported stored : BaseSource

abbrev pub stored_base : Result Error Collector × Db → (String × BaseSource) × Db
stored_base (err e, db) = (("", no_base), db)
stored_base (ok c, db) =
    (if str_eq c.effective_config "" then ("", no_base) else (c.effective_config, stored), db)

abbrev pub reported_base : Option String → Option String
reported_base none = none
reported_base (some yaml) = if str_eq yaml "" then none else some yaml

-- The configuration that the agent reports; or else the one of the store.
unfoldable pub base_for_instance : String → World → (String × BaseSource) × World
base_for_instance uid w = elim (reported_base (Registry.reported_effective uid w.registry)) [
  | some yaml ↦ ((yaml, reported), w)
  | none ↦ let (found, db) = stored_base (get_collector uid w.db) in (found, record w { db = db })
]

-- The first configuration among those of the members of a group.
unfoldable pub base_among : String → List Collector → World → (String × BaseSource) × World
unfolding base_for_instance
base_among group [] w = (("", no_base), w)
base_among group (c ∷ rows) w = elim (str_eq c.group_id group) [
  | false ↦ base_among group rows w
  | true ↦
      let (found, w') = base_for_instance c.instance_uid w in
      elim (str_eq found.0 "") [ true ↦ base_among group rows w' | false ↦ (found, w') ]
]

unfoldable pub base_config_for : String → World → (String × BaseSource) × World
unfolding base_for_instance base_among
base_config_for target w = elim (str_eq target "") [
  | true ↦ (("", no_base), w)
  | false ↦
      let (found, w1) = base_for_instance target w in
      elim (str_eq found.0 "") [
        | false ↦ (found, w1)
        | true ↦
            let (rows, db) = list_collectors 0 0 w1.db in
            let w2 = record w1 { db = db } in
            elim rows [
              | err e ↦ (("", no_base), w2)
              | ok (collectors, total) ↦ base_among target collectors w2
            ]
      ]
]
