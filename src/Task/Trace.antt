-- ===== src/Task/Trace.antt =====
-- internal/task/task.go: what a call of the service does to the stored tasks, and how the lives of
-- tasks go on over many changes.
use cadenza.Prelude.{
  ◌++◌, ℕ, String, ◌≡◌, ◌⊎◌, inl, inr, refl, sym, subst, ap, ◌∙◌, true, Bool-cases, Option, none,
  some, Result, List, [], ◌∷◌, find, replace, find-replace, str_eq, eq_iff, find-key,
}
use cadenza.Models.{Task, TaskEvent, TaskStatus, applying, rejected}
use cadenza.Store.{Error, Db}
use cadenza.Store.Tables.{task_key, with_columns}
use cadenza.Store.Tables.Frame.{Logged, dropped, logged}
use cadenza.Task.Machine.{Life, stay, move}
use cadenza.Task.{can_transition}
use cadenza.Task.Calls.{
  Changed, refused, saved, moved, change-Changed, Call, approve_call, reject_call, status_call,
  run_call,
}

-- A stored task before and after: the state is the same, or one permitted step further.
abbrev pub Follows : Option Task → Option Task → Type 0
Follows none none = Unit
Follows none (some t') = ⊥
Follows (some t) none = ⊥
Follows (some t) (some t') = (t'.status ≡ t.status) ⊎ (can_transition t.status t'.status ≡ true)

pub Follows-refl : (o : Option Task) → Follows o o
Follows-refl none = tt
Follows-refl (some t) = inl refl

pub tasks-Logged : {e : TaskEvent} {db db' : Db} → Logged e db db' → db'.tasks ≡ db.tasks
tasks-Logged (dropped d) = refl
tasks-Logged (logged d db' h) = sym (ap tasks_or (h))
  where
    tasks_or : Option Db → List Task
    tasks_or none = []
    tasks_or (some x) = x.tasks

-- What a call does to a row, given what it does to the row that it read.
pub Follows-replace :
    (k id : String) (tasks : List Task) (t t'' : Task)
    → find task_key id tasks ≡ some t
    → (t''.status ≡ t.status) ⊎ (can_transition t.status t''.status ≡ true)
    → t''.id ≡ id
    → Follows
        (find task_key k tasks)
        (find task_key k (replace task_key t''.id (with_columns t'') tasks))
Follows-replace k id tasks t t'' there ok_step same =
    rw (find-replace task_key t''.id k (with_columns t'') tasks (λ x. refl))
      (elim (Bool-cases (str_eq t''.id k)) [
        | inl hit ↦ rw hit (
            let at_k : find task_key k tasks ≡ some t =
              subst (λ j. find task_key j tasks ≡ some t) (sym same ∙ (eq_iff t''.id k).0 hit)
                there in
            rw at_k ok_step)
        | inr miss ↦ rw miss (Follows-refl (find task_key k tasks))
      ])

Follows-Changed :
    {now : ℕ} {id : String} {to : TaskStatus} {edit : Task → Task} {db : Db}
    {r : Result Error Task × Db}
    → ((t : Task) → ((edit t).id ≡ t.id) × ((edit t).status ≡ t.status))
    → Changed now id to edit db r
    → (k : String) → Follows (find task_key k db.tasks) (find task_key k r.1.tasks)
Follows-Changed keeps (refused e d) k = Follows-refl _
Follows-Changed {now} {id} {to} {edit} {db} keeps (saved t d db' db'' there allowed e l) k =
    let x = record t { status = to; updated_at = now } in
    rw (tasks-Logged l ∙ ap (λ (s : Db). s.tasks) e) (
      Follows-replace k id db.tasks t (moved now to edit t) there (inr (rw (keeps x).1 allowed))
        ((keeps x).0 ∙ find-key task_key id t db.tasks there))

-- Whatever disturbs the database, a call of the service that approves, rejects or sets a state leaves
-- each stored task in its state or moves it by one permitted transition; no task appears and none
-- is lost.
pub run_call-Follows :
    (c : Call) (db : Db) (k : String)
    → Follows (find task_key k db.tasks) (find task_key k (run_call c db).1.tasks)
unfolding run_call
run_call-Follows (approve_call now id approver) db k =
    Follows-Changed (λ t. (refl, refl))
      (change-Changed now id applying (λ t. record t { approver = approver }) db) k
run_call-Follows (reject_call now id approver reason) db k =
    Follows-Changed (λ t. (refl, refl))
      (change-Changed now id rejected
        (λ t. record t { approver = approver; reject_reason = reason }) db)
      k
run_call-Follows (status_call now id to) db k =
    Follows-Changed (λ t. (refl, refl)) (change-Changed now id to (λ t. t) db) k

-- The row is still there, in a state to which permitted transitions lead.
abbrev pub Lived : Task → Option Task → Type 0
Lived t last =
    (t' : Task) × (last ≡ some t') × ((path : List TaskStatus) × Life t.status path t'.status)

Life-snoc :
    {s u v : TaskStatus} {path : List TaskStatus}
    → Life s path u
    → can_transition u v ≡ true
    → Life s (path ++ v ∷ []) v
Life-snoc {v = v} stay h = move v h stay
Life-snoc (move t h rest) h' = move t h (Life-snoc rest h')

-- A life goes on.
pub Lived-more :
    (t : Task) (last next : Option Task) → Lived t last → Follows last next → Lived t next
Lived-more t none next (t', there, rest) f = absurd (none-ne-some there)
  where
    none-ne-some : none ≡ some t' → ⊥
    none-ne-some h = cc
Lived-more t (some t1) none life f = absurd f
Lived-more t (some t1) (some t2) (t', there, (path, life)) f =
    let same : t1.status ≡ t'.status = ap (λ (o : Option Task). get_status o) there in
    elim f [
      | inl kept ↦ (t2, refl, (path, subst (λ s. Life t.status path s) (sym same ∙ sym kept) life))
      | inr allowed ↦ (
        t2,
        refl,
        (
          path ++ t2.status ∷ [],
          Life-snoc (subst (λ s. Life t.status path s) (sym same) life) allowed,
        ),
      )
    ]
  where
    get_status : Option Task → TaskStatus
    get_status none = t1.status
    get_status (some x) = x.status
