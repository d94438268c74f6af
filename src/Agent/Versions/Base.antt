-- ===== src/Agent/Versions/Base.antt =====
-- internal/agent/tools.go: the configuration that a task starts from is only read.
use cadenza.Prelude.{
  ℕ, String, Bool, true, false, List, [], ◌∷◌, Option, none, some, Result, ok, err, str_eq,
}
use cadenza.Models.{Collector}
use cadenza.Store.{Db, Error}
use cadenza.Store.Pages.{list_collectors}
use cadenza.Store.Tables.{get_collector}
use cadenza.Opamp.Registry
use cadenza.Opamp.Server.{World}
use cadenza.Agent.Versions.{
  BaseSource, reported, no_base, reported_base, stored_base, base_for_instance, base_among,
  base_config_for,
}

-- What the two reads of the database keep.
pub record Readable (P : World → Type 0) : Type 0 where
  pub one : (uid : String) (w : World) → P w → P (record w { db = (get_collector uid w.db).1 })
  pub all : (w : World) → P w → P (record w { db = (list_collectors 0 0 w.db).1 })

module _ (P : World → Type 0) (reads : Readable P) where
  stored_base-keeps :
      (uid : String) (w : World)
      → P w
      → P (record w { db = (stored_base (get_collector uid w.db)).1 })
  stored_base-keeps uid w h = go (get_collector uid w.db).0 (reads.one uid w h)
    where
      go :
          (r : Result Error Collector) {db : Db}
          → P (record w { db = db })
          → P (record w { db = (stored_base (r, db)).1 })
      go (ok c) p = p
      go (err e) p = p

  pub base_for_instance-keeps : (uid : String) (w : World) → P w → P (base_for_instance uid w).1
  unfolding base_for_instance
  base_for_instance-keeps uid w h = go (reported_base (Registry.reported_effective uid w.registry))
    where
      go :
          (o : Option String)
          → P
              (elim o as (λ _. (String × BaseSource) × World) [
                | some yaml ↦ ((yaml, reported), w)
                | none ↦
                    let (found, db) = stored_base (get_collector uid w.db) in
                    (found, record w { db = db })
              ]).1
      go none = stored_base-keeps uid w h
      go (some yaml) = h

  elim-keeps :
      (b : Bool) (x y : (String × BaseSource) × World)
      → P x.1
      → P y.1
      → P (elim b as (λ _. (String × BaseSource) × World) [ true ↦ x | false ↦ y ]).1
  elim-keeps true x y px py = px
  elim-keeps false x y px py = py

  base_among-keeps :
      (group : String) (rows : List Collector) (w : World) → P w → P (base_among group rows w).1
  unfolding base_among
  base_among-keeps group [] w h = h
  base_among-keeps group (c ∷ rows) w h =
      let found = base_for_instance c.instance_uid w in
      let p = base_for_instance-keeps c.instance_uid w h in
      elim-keeps (str_eq c.group_id group) _ (base_among group rows w)
        (elim-keeps (str_eq found.0.0 "") (base_among group rows found.1) found
          (base_among-keeps group rows found.1 p) p)
        (base_among-keeps group rows w h)

  base_of_members :
      (target : String) (w1 : World) (r : Result Error (List Collector × ℕ)) (db : Db)
      → P (record w1 { db = db })
      → P
          (elim r as (λ _. (String × BaseSource) × World) [
            | err e ↦ (("", no_base), record w1 { db = db })
            | ok (collectors, total) ↦ base_among target collectors (record w1 { db = db })
          ]).1
  base_of_members target w1 (err e) db h = h
  base_of_members target w1 (ok (collectors, total)) db h =
      base_among-keeps target collectors (record w1 { db = db }) h

  pub base_config_for-keeps : (target : String) (w : World) → P w → P (base_config_for target w).1
  unfolding base_config_for
  base_config_for-keeps target w h =
      let found = base_for_instance target w in
      let p = base_for_instance-keeps target w h in
      elim-keeps (str_eq target "") (("", no_base), w) _ h
        (elim-keeps (str_eq found.0.0 "") _ found
          (base_of_members target found.1 (list_collectors 0 0 found.1.db).0 _
            (reads.all found.1 p))
          p)
