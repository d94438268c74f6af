-- ===== src/Demo/Once.antt =====
-- internal/demo/demo.go: a database that is in use is left alone.
use cadenza.Prelude.{
  ℕ, ◌≤◌, ◌≡◌, refl, String, Bool-cases, true, inl, inr, List, [], ◌∷◌, ok, length, ltb, arith,
}
use cadenza.Models.{Collector}
use cadenza.Store.{Db, query}
use cadenza.Store.Pages.{list_collectors, page_of, sort_by_uid, insert_by_uid, comes_after}
use cadenza.Demo.{seed}
use cadenza.Demo.Data.{Ids}

some_inserted : (c : Collector) (rows : List Collector) → 1 ≤ length (insert_by_uid c rows)
unfolding insert_by_uid
some_inserted c [] = omega arith
some_inserted c (d ∷ rows) = elim (Bool-cases (comes_after c.instance_uid d.instance_uid)) [
  | inl after ↦ rw after (omega arith)
  | inr before ↦ rw before (omega arith)
]

some_sorted : (rows : List Collector) → 1 ≤ length rows → ltb 0 (length (sort_by_uid rows)) ≡ true
unfolding sort_by_uid
some_sorted [] h = absurd (omega (arith, h))
some_sorted (c ∷ rows) h = ground (arith, some_inserted c (sort_by_uid rows))

-- Where nothing disturbs the reads, a database that has a collector is left as it is.
pub seed-once :
    (hash : String → String) (ids : Ids) (now : ℕ) (db : Db)
    → db.disturbances ≡ []
    → 1 ≤ length db.collectors
    → seed hash ids now db ≡ (ok tt, db)
unfolding seed list_collectors page_of query
seed-once hash ids now db quiet used = simp (quiet, some_sorted db.collectors used) refl
