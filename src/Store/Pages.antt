-- ===== src/Store/Pages.antt =====
-- internal/store/sqlstore.go: the lists that are read in pages. Each counts the rows first.
use Prim.Native.Nat.{gt}
use Prim.Native.String.{compare}
use cadenza.Prelude.{
  ℕ, ◌-◌, ◌*◌, ◌%◌, ◌^◌, ltb, String, Bool, true, false, List, [], ◌∷◌, Exec, ◌>>=◌, pure, take,
  drop, keep, length, str_eq, ◌==◌, if◌then◌else◌,
}
use cadenza.Models.{Collector, ConfigVersion}
use cadenza.Store.{Db, Error, query}
use mathlib.Core.List.{reverse}

-- The product is an int64, and SQLite reads a negative offset as 0.
unfoldable pub offset_of : ℕ → ℕ → ℕ
offset_of page size =
    let bits = ((page - 1) * size) % 2 ^ 64 in if ltb bits (2 ^ 63) then bits else 0

-- LIMIT and OFFSET
unfoldable pub page_of : {A : Type 0} → ℕ → ℕ → List A → List A
unfolding offset_of
page_of page size rows = if size == 0 then rows else take size (drop (offset_of page size) rows)

abbrev pub comes_after : String → String → Bool
comes_after a b = elim (compare a b) [ gt ↦ true | _ ↦ false ]

unfoldable pub insert_by_uid : Collector → List Collector → List Collector
insert_by_uid c [] = c ∷ []
insert_by_uid c (d ∷ rows) =
    let rest = insert_by_uid c rows in
    if comes_after c.instance_uid d.instance_uid then d ∷ rest else c ∷ d ∷ rows

-- ORDER BY instance_uid
unfoldable pub sort_by_uid : List Collector → List Collector
unfolding insert_by_uid
sort_by_uid [] = []
sort_by_uid (c ∷ rows) = insert_by_uid c (sort_by_uid rows)

unfoldable pub list_collectors : ℕ → ℕ → Exec Db Error (List Collector × ℕ)
unfolding sort_by_uid page_of
list_collectors page size = do
  total ← query (λ db. length db.collectors)
  rows ← query (λ db. page_of page size (sort_by_uid db.collectors))
  pure (rows, total)

abbrev pub versions_of : String → Db → List ConfigVersion
versions_of uid db = keep (λ (v : ConfigVersion). str_eq v.collector_instance_uid uid) db.versions

-- ORDER BY id DESC: the rows stand in the order of their ids.
unfoldable pub list_config_versions : String → ℕ → ℕ → Exec Db Error (List ConfigVersion × ℕ)
unfolding page_of
list_config_versions uid page size = do
  total ← query (λ db. length (versions_of uid db))
  rows ← query (λ db. page_of page size (reverse (versions_of uid db)))
  pure (rows, total)
