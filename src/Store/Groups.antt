-- ===== src/Store/Groups.antt =====
-- internal/store/sqlstore.go: the table of collector groups.
use cadenza.Prelude.{
  String, List, [], ◌∷◌, ◌++◌, none, some, Exec, ◌>>=◌, find, replace, if◌then◌else◌,
}
use cadenza.Models.Chats.{CollectorGroup}
use cadenza.Store.{Db, Error, Statement, query, or_not_found, as_error, exec_once}
use cadenza.Store.Pages.{comes_after}

abbrev pub group_key : CollectorGroup → String
group_key g = g.id

abbrev pub put_group : CollectorGroup → Statement
put_group g db = elim (find group_key g.id db.groups) [
  | none ↦ some (record db { groups = db.groups ++ g ∷ [] })
  | some _ ↦ some (record db { groups = replace group_key g.id (λ _. g) db.groups })
]

unfoldable pub upsert_group : CollectorGroup → Exec Db Error (Unit {0})
upsert_group g db = as_error (exec_once (put_group g) db)

unfoldable pub get_group : String → Exec Db Error CollectorGroup
get_group id = do found ← query (λ db. find group_key id db.groups); or_not_found found

pub insert_by_id : CollectorGroup → List CollectorGroup → List CollectorGroup
insert_by_id g [] = g ∷ []
insert_by_id g (d ∷ rows) =
    let rest = insert_by_id g rows in if comes_after g.id d.id then d ∷ rest else g ∷ d ∷ rows

-- ORDER BY id
pub sort_by_id : List CollectorGroup → List CollectorGroup
unfolding insert_by_id
sort_by_id [] = []
sort_by_id (g ∷ rows) = insert_by_id g (sort_by_id rows)

unfoldable pub list_groups : Exec Db Error (List CollectorGroup)
unfolding sort_by_id
list_groups = query (λ db. sort_by_id db.groups)
