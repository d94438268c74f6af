-- ===== src/Llm/Circuit.antt =====
-- internal/agent/llm.go: `circuitModel`. Each section under the mutex is a function on its state;
-- `now` is what the clock shows in that section.
pub mod Threshold
pub mod Probe
use cadenza.Prelude.{
  ℕ, zero, suc, ◌+◌, ◌≤◌, ◌<◌, ◌≡◌, refl, Bool, true, false, List, [], ◌∷◌, Option, none, some, ltb,
  leb, if◌then◌else◌, arith,
}
use cadenza.Llm.{
  Failure, message, closed_early, circuit_open, Response, Request, Answer, fails, stream, Model,
}

-- The configuration and the fields that the mutex guards.
pub record Circuit : Type 0 where
  pub threshold : ℕ
  pub cooldown : ℕ
  pub failures : ℕ
  pub is_open : Bool
  pub cooldown_until : ℕ

-- The first section of `GenerateContent`: whether the request may go on.
unfoldable pub admit : ℕ → Circuit → Bool × Circuit
admit now c =
    if c.is_open
    then (if ltb c.cooldown_until now
        then (true, record c { is_open = false; failures = 0 })
        else (false, c))
    else (true, c)

unfoldable pub record_failure : ℕ → Circuit → Circuit
record_failure now c =
    if leb c.threshold (c.failures + 1)
    then record c { failures = c.failures + 1; is_open = true; cooldown_until = now + c.cooldown }
    else record c { failures = c.failures + 1 }

unfoldable pub record_success : Circuit → Circuit
record_success c = record c { is_open = false; failures = 0 }

-- Whether an answer counts as a failure.
abbrev pub is_failure : Answer → Bool
is_failure (fails f) = true
is_failure (stream []) = true
is_failure (stream (first ∷ rest)) = elim first.error [ none ↦ false | some m ↦ true ]

-- What the caller gets for an answer of the wrapped model.
abbrev pub passed_on : Answer → Answer
passed_on (fails f) = fails f
passed_on (stream []) = fails closed_early
passed_on (stream (first ∷ rest)) = stream (first ∷ rest)

unfoldable pub settle_answer : ℕ → Answer → Circuit → Circuit
unfolding record_failure record_success
settle_answer now a c = if is_failure a then record_failure now c else record_success c

-- One call with no other in between, at the times of its two sections.
unfoldable pub circuit_generate :
    {S : Type 0} → ℕ → ℕ → Model S → Request → Circuit × S → Answer × (Circuit × S)
unfolding admit settle_answer
circuit_generate before after m req (c, s) =
    let (allowed, c') = admit before c in
    let (a, s') = m req s in
    if allowed then (passed_on a, (settle_answer after a c', s')) else (fails circuit_open, (c', s))
