-- ===== src/Agent/Confirm/Returns.antt =====
-- internal/agent/confirm.go: the wait ends.
use cadenza.Prelude.{
  ℕ, zero, suc, ◌+◌, ◌*◌, ◌≤◌, ◌<◌, ◌≡◌, String, Bool, true, false, Bool-cases, inl, inr, Option,
  some, leb, arith,
}
use cadenza.Agent.{Agent}
use cadenza.Agent.Confirm.{wait_confirm, is_confirmed, sleep, poll_interval}

module _ (covers : String → String → Bool) (timeout : ℕ) (uid want pushed : String) where
  -- The answer of a wait that ends.
  abbrev pub Ends : Option Bool × Agent → Type 0
  Ends r =
      (b : Bool) × (a' : Agent) × (r ≡ (some b, a'))
      × (b ≡ true → is_confirmed covers uid want pushed a'.world.registry ≡ true)

  -- One poll: the wait ends, or goes on after a sleep if the timeout has not passed.
  round :
      (n passed : ℕ) (a : Agent)
      → (passed < timeout
          → Ends (
              wait_confirm covers n
                (passed + poll_interval + (sleep a).0.late)
                timeout
                uid
                want
                pushed
                (sleep a).1))
      → Ends (wait_confirm covers (suc n) passed timeout uid want pushed a)
  unfolding wait_confirm
  round n passed a more = elim (Bool-cases (is_confirmed covers uid want pushed a.world.registry)) [
    | inl e ↦ (true, a, rw (wait_confirm, e) (λ i. (some true, a)), λ h. e)
    | inr e ↦ elim (Bool-cases (leb timeout passed)) [
      | inl late ↦ (false, a, rw (wait_confirm, e, late) (λ i. (some false, a)), λ h. cc)
      | inr early ↦ elim (Bool-cases (sleep a).0.cancelled) [
        | inl cut ↦ (
          false,
          (sleep a).1,
          rw (wait_confirm, e, early, cut) (λ i. (some false, (sleep a).1)),
          λ h. cc,
        )
        | inr whole ↦ rw (wait_confirm, e, early, whole) (more (ground arith))
      ]
    ]
  ]

  -- With one poll more than the intervals that are left of the timeout, the wait ends, and it is
  -- a success only if the registry then holds the confirmation.
  pub wait_confirm-returns :
      (n passed : ℕ) (a : Agent)
      → timeout ≤ passed + n * poll_interval
      → Ends (wait_confirm covers (suc n) passed timeout uid want pushed a)
  wait_confirm-returns zero passed a enough = round zero passed a (λ h. absurd (omega arith))
  wait_confirm-returns (suc n) passed a enough = round (suc n) passed a (λ h.
      wait_confirm-returns n (passed + poll_interval + (sleep a).0.late) (sleep a).1 (omega arith))
