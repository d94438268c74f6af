-- ===== src/Store/Lists/Walk.antt =====
-- internal/store/sqlstore.go: the list of tasks, read page by page.
use cadenza.Prelude.{
  ℕ, zero, suc, ◌+◌, ◌*◌, ◌≤◌, ◌<◌, ◌^◌, ◌≡◌, refl, sym, ap, ◌∙◌, List, [], ◌∷◌, ◌++◌, take, drop,
  keep, length, arith, ok, Exec, pure, ◌>>=◌, Bool-cases, inl, inr,
}
use cadenza.Models.{Task}
use cadenza.Models.Chats.{TaskFilter}
use cadenza.Store.{Db, Error, query}
use cadenza.Store.Pages.{page_of, offset_of}
use cadenza.Store.Lists.{list_tasks, task_passes, sort_tasks, insert_task_row, task_before}
use mathlib.Core.List.{Perm}
use mathlib.Core.List.Perm

-- A reader that takes a number of pages, one after the other.
pub read_pages : ℕ → TaskFilter → ℕ → ℕ → Exec Db Error (List Task)
read_pages zero f size page = pure []
read_pages (suc count) f size page = do
  answer ← list_tasks f page size
  rest ← read_pages count f size (page + 1)
  pure (answer.0 ++ rest)

take-add : (n m : ℕ) (xs : List Task) → take n xs ++ take m (drop n xs) ≡ take (n + m) xs
take-add zero m xs = let e : 0 + m ≡ m = omega arith in rw e refl
take-add (suc n) m [] = take-nil m ∙ sym (take-nil (suc n + m))
  where
    take-nil : (m : ℕ) → take {A = Task} m [] ≡ []
    take-nil zero = refl
    take-nil (suc m) = refl
take-add (suc n) m (x ∷ xs) =
    let e : suc n + m ≡ suc (n + m) = omega arith in rw e (ap (λ l. x ∷ l) (take-add n m xs))

drop-add : (n m : ℕ) (xs : List Task) → drop m (drop n xs) ≡ drop (n + m) xs
drop-add zero m xs = let e : 0 + m ≡ m = omega arith in rw e refl
drop-add (suc n) m [] = drop-nil m ∙ sym (drop-nil (suc n + m))
  where
    drop-nil : (m : ℕ) → drop {A = Task} m [] ≡ []
    drop-nil zero = refl
    drop-nil (suc m) = refl
drop-add (suc n) m (x ∷ xs) =
    let e : suc n + m ≡ suc (n + m) = omega arith in rw e (drop-add n m xs)

take-length : (n : ℕ) (xs : List Task) → length xs ≤ n → take n xs ≡ xs
take-length zero [] h = refl
take-length zero (x ∷ xs) h = absurd (omega (arith, h))
take-length (suc n) [] h = refl
take-length (suc n) (x ∷ xs) h = ap (λ l. x ∷ l) (take-length n xs (omega (arith, h)))

insert_task_row-Perm : (t : Task) (rows : List Task) → Perm (insert_task_row t rows) (t ∷ rows)
unfolding insert_task_row
insert_task_row-Perm t [] = Perm.refl (t ∷ [])
insert_task_row-Perm t (u ∷ rows) = elim (Bool-cases (task_before u t)) [
  | inl later ↦
      rw later (Perm.trans (Perm.cons u (insert_task_row-Perm t rows)) (Perm.swap t u rows))
  | inr before ↦ rw before (Perm.refl (t ∷ u ∷ rows))
]

length-insert_task_row :
    (t : Task) (rows : List Task) → length (insert_task_row t rows) ≡ suc (length rows)
unfolding insert_task_row
length-insert_task_row t [] = refl
length-insert_task_row t (u ∷ rows) = ground (arith, length-insert_task_row t rows)

length-sort_tasks : (rows : List Task) → length (sort_tasks rows) ≡ length rows
unfolding sort_tasks
length-sort_tasks [] = refl
length-sort_tasks (t ∷ rows) =
    omega (arith, length-insert_task_row t (sort_tasks rows), length-sort_tasks rows)

pub sort_tasks-Perm : (rows : List Task) → Perm (sort_tasks rows) rows
unfolding sort_tasks
sort_tasks-Perm [] = Perm.refl []
sort_tasks-Perm (t ∷ rows) =
    Perm.trans (insert_task_row-Perm t (sort_tasks rows)) (Perm.cons t (sort_tasks-Perm rows))

module _ (f : TaskFilter) (size : ℕ) (db : Db) (some_size : 1 ≤ size)
    (quiet : db.disturbances ≡ []) where
  abbrev rows_of : List Task
  rows_of = sort_tasks (keep (task_passes f) db.tasks)

  list_tasks-quiet :
      (page : ℕ)
      → page * size < 2 ^ 63
      → list_tasks f (page + 1) size db
        ≡ (ok (take size (drop (page * size) rows_of), length (keep (task_passes f) db.tasks)), db)
  unfolding list_tasks query page_of offset_of
  list_tasks-quiet page small = rw quiet ground arith

  pub read_pages-take :
      (count page : ℕ)
      → (page + count) * size ≤ 2 ^ 63
      → read_pages count f size (page + 1) db
        ≡ (ok (take (count * size) (drop (page * size) rows_of)), db)
  unfolding read_pages
  read_pages-take zero page small = let e : 0 * size ≡ 0 = omega arith in rw e refl
  read_pages-take (suc count) page small =
      let start = page * size in
      let next : (page + 1) * size ≡ start + size = grind arith in
      let here : page * size < 2 ^ 63 = grind arith in
      let later : (page + 1 + count) * size ≤ 2 ^ 63 = grind arith in
      let whole : suc count * size ≡ size + count * size = grind arith in
      rw (list_tasks-quiet page here, read_pages-take count (page + 1) later, next, whole)
        (ap (λ (l : List Task). (ok l, db))
          (ap (λ l. take size (drop start rows_of) ++ take (count * size) l)
              (sym (drop-add start size rows_of))
            ∙ take-add size (count * size) (drop start rows_of)))

-- Where nothing disturbs the reads, a reader that takes pages of the list of tasks from the first
-- on, as many as hold the number of rows counted and no more than offsets of an int64 reach, gets each task that passes the filter once, and
-- no other: the pages together are those tasks in another order.
pub read_pages-Perm :
    (f : TaskFilter) (size count : ℕ) (db : Db)
    → 1 ≤ size
    → db.disturbances ≡ []
    → length (keep (task_passes f) db.tasks) ≤ count * size
    → count * size ≤ 2 ^ 63
    → (rows : List Task) × (read_pages count f size 1 db ≡ (ok rows, db))
      × Perm rows (keep (task_passes f) db.tasks)
read_pages-Perm f size count db some_size quiet enough small =
    let kept = keep (task_passes f) db.tasks in
    let all : take (count * size) (sort_tasks kept) ≡ sort_tasks kept =
      take-length (count * size) (sort_tasks kept)
        (omega (arith, enough, length-sort_tasks kept)) in
    let start : 0 * size ≡ 0 = omega arith in
    let small' : (0 + count) * size ≤ 2 ^ 63 = grind arith in
    (
      sort_tasks kept,
      (read_pages-take f size db some_size quiet count 0 small'
          ∙ rw start (ap (λ (l : List Task). (ok l, db)) all)),
      sort_tasks-Perm kept,
    )
