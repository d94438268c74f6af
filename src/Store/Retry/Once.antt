-- ===== src/Store/Retry/Once.antt =====
-- internal/store/sqlstore.go: how often `execCtx` can have applied a statement, over a driver whose
-- errors need not mean that it was not applied.
use cadenza.Prelude.{ℕ, zero, suc, ◌+◌, ◌≤◌, ◌≡◌, refl, subst, Result, ok, err, Exec, arith}
use cadenza.Store.{Fault, busy, busy_cancelled, broken, exec_rounds, exec_by}

-- How often a statement was applied before and after, by what is reported of it. A busy lock keeps
-- SQLite from applying it; of another error, as of a lost connection, nothing follows.
abbrev pub Effect : Result Fault (Unit {0}) → ℕ → ℕ → Type 0
Effect (ok u) before after = after ≡ before + 1
Effect (err busy) before after = after ≡ before
Effect (err busy_cancelled) before after = after ≡ before
Effect (err broken) before after = (before ≤ after) × (after ≤ before + 1)

module _ {S : Type 0} (once : Exec S Fault (Unit {0})) (applied : S → ℕ)
    (driver : (s : S) → Effect (once s).0 (applied s) (applied (once s).1)) where
  exec_rounds-Effect :
      (n : ℕ) (last : Fault) (s : S)
      → Effect (exec_rounds n last once s).0 (applied s) (applied (exec_rounds n last once s).1)
  unfolding exec_rounds
  exec_rounds-Effect zero busy s = refl
  exec_rounds-Effect zero busy_cancelled s = refl
  exec_rounds-Effect zero broken s = (omega arith, omega arith)
  exec_rounds-Effect (suc n) last s =
      round (once s) (driver s) (exec_rounds-Effect n busy (once s).1)
    where
      round :
          (r : Result Fault (Unit {0}) × S)
          → Effect r.0 (applied s) (applied r.1)
          → Effect
              (exec_rounds n busy once r.1).0
              (applied r.1)
              (applied (exec_rounds n busy once r.1).1)
          → let whole = elim r.0 as (λ _. Result Fault (Unit {0}) × S) [
            | ok u ↦ (ok u, r.1)
            | err f ↦ elim f as (λ _. Result Fault (Unit {0}) × S) [
              | busy ↦ exec_rounds n busy once r.1
              | other ↦ (err other, r.1)
            ]
          ] in
            Effect whole.0 (applied s) (applied whole.1)
      round (ok u, s') now rest = now
      round (err busy, s') now rest =
          subst
            (λ k. Effect (exec_rounds n busy once s').0 k (applied (exec_rounds n busy once s').1))
            now rest
      round (err busy_cancelled, s') now rest = now
      round (err broken, s') now rest = now

  -- Over any driver that has applied a statement once where it reports success and not at all where
  -- it reports a busy lock, while any other error leaves open whether it has: a statement that
  -- `execCtx` reports as done was applied exactly once, one that it reports as busy not at all, and
  -- one that it reports as failed in any other way at most once.
  pub exec_by-Effect : (s : S) → Effect (exec_by once s).0 (applied s) (applied (exec_by once s).1)
  unfolding exec_by
  exec_by-Effect s = exec_rounds-Effect 3 broken s
