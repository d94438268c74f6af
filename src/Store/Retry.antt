-- ===== src/Store/Retry.antt =====
-- internal/store/sqlstore.go: what `execCtx` guarantees, whatever disturbs it.
pub mod Once
use cadenza.Prelude.{
  ℕ, zero, suc, ◌<◌, ◌≡◌, refl, sym, subst, Option, none, some, List, [], ◌∷◌, Result, ok, err,
  arith,
}
use cadenza.Store.{
  Fault, busy, busy_cancelled, broken, Db, Statement, settle, send, exec_once, exec_rounds, exec_by,
  exec_ctx,
}

abbrev pub disturbed : Db → List (Option Fault) → Db
disturbed db d = record db { disturbances = d }

-- A statement was refused and changed no table, or it was applied once.
pub data Ran (st : Statement) (db : Db) : Result Fault (Unit {0}) × Db → Type 0 where
  refused : (f : Fault) (d : List (Option Fault)) → Ran st db (err f, disturbed db d)
  applied : (d : List (Option Fault)) (t : Db) → st (disturbed db d) ≡ some t → Ran st db (ok tt, t)

settle-Ran :
    (st : Statement) (db : Db) (d : List (Option Fault)) (o : Option Db)
    → st (disturbed db d) ≡ o
    → Ran st db (settle o (disturbed db d))
settle-Ran st db d none h = refused broken d
settle-Ran st db d (some t) h = applied d t h

send-Ran :
    (st : Statement) (db : Db) (l : List (Option Fault))
    → l ≡ db.disturbances
    → Ran st db (send l st db)
send-Ran st db [] h = settle-Ran st db db.disturbances (st db) refl
send-Ran st db (none ∷ rest) h = settle-Ran st db rest (st (disturbed db rest)) refl
send-Ran st db (some f ∷ rest) h = refused f rest

pub exec_once-Ran : (st : Statement) (db : Db) → Ran st db (exec_once st db)
unfolding exec_once
exec_once-Ran st db = send-Ran st db db.disturbances refl

Ran-disturbed :
    {st : Statement} {db : Db} {d : List (Option Fault)} {r : Result Fault (Unit {0}) × Db}
    → Ran st (disturbed db d) r
    → Ran st db r
Ran-disturbed (refused f d') = refused f d'
Ran-disturbed (applied d' t h) = applied d' t h

-- One round, and then the others.
next_round : ℕ → Statement → Result Fault (Unit {0}) × Db → Result Fault (Unit {0}) × Db
next_round n st (ok u, db) = (ok u, db)
next_round n st (err busy, db) = exec_rounds n busy (exec_once st) db
next_round n st (err busy_cancelled, db) = (err busy_cancelled, db)
next_round n st (err broken, db) = (err broken, db)

next_round-eq :
    (n : ℕ) (last : Fault) (st : Statement) (db : Db)
    → exec_rounds (suc n) last (exec_once st) db ≡ next_round n st (exec_once st db)
unfolding exec_rounds next_round
next_round-eq n last st db = ground arith

next_round-Ran :
    (n : ℕ) {st : Statement} {db : Db} {r : Result Fault (Unit {0}) × Db}
    → ((db' : Db) → Ran st db' (exec_rounds n busy (exec_once st) db'))
    → Ran st db r
    → Ran st db (next_round n st r)
unfolding next_round
next_round-Ran n {db = db} rest (refused busy d) = Ran-disturbed (rest (disturbed db d))
next_round-Ran n rest (refused busy_cancelled d) = refused busy_cancelled d
next_round-Ran n rest (refused broken d) = refused broken d
next_round-Ran n rest (applied d t h) = applied d t h

exec_rounds-Ran :
    (n : ℕ) (last : Fault) (st : Statement) (db : Db)
    → Ran st db (exec_rounds n last (exec_once st) db)
exec_rounds-Ran zero last st db = unfold exec_rounds in refused last db.disturbances
exec_rounds-Ran (suc n) last st db =
    subst (Ran st db) (sym (next_round-eq n last st db))
      (next_round-Ran n (exec_rounds-Ran n busy st) (exec_once-Ran st db))

-- Whatever disturbs the rounds of `exec_ctx`, a statement that it reports as done was applied to
-- the tables exactly once, and one that it reports as failed was not applied.
pub exec_ctx-Ran : (st : Statement) (db : Db) → Ran st db (exec_ctx st db)
unfolding exec_ctx exec_by
exec_ctx-Ran st db = exec_rounds-Ran 3 broken st db

abbrev pub busy_times : ℕ → List (Option Fault) → List (Option Fault)
busy_times zero rest = rest
busy_times (suc k) rest = some busy ∷ busy_times k rest

-- `exec_ctx` rides out up to two busy rounds: the statement is then sent once more and its own
-- outcome is returned; after a third busy round the error is returned and nothing more is sent.
pub exec_ctx-busy :
    (k : ℕ) (st : Statement) (db : Db) (rest : List (Option Fault))
    → k < 3
    → (exec_ctx st (disturbed db (busy_times k (none ∷ rest)))
        ≡ settle (st (disturbed db rest)) (disturbed db rest))
      × (exec_ctx st (disturbed db (busy_times 3 rest)) ≡ (err busy, disturbed db rest))
unfolding exec_ctx exec_by exec_rounds exec_once
exec_ctx-busy zero st db rest h = (ground arith, refl)
exec_ctx-busy (suc zero) st db rest h = (ground arith, refl)
exec_ctx-busy (suc (suc zero)) st db rest h = (ground arith, refl)
exec_ctx-busy (suc (suc (suc k))) st db rest h = absurd (omega arith)
