-- ===== src/Llm/Retry.antt =====
-- internal/agent/llm.go: `retryModel`. A sleep may be cut short by the context; `sleeps` says for
-- each sleep to come whether it is, and `slept` lists the delays of those that were begun.
pub mod Bounds
pub mod First
use mathlib.Core.List.{append-nil, append_assoc}
use cadenza.Prelude.{
  sym, ap, ◌∙◌, ℕ, zero, suc, ◌+◌, ◌*◌, ◌%◌, ◌^◌, ◌≤◌, ◌≡◌, refl, Bool, true, false, List, [], ◌∷◌,
  ◌++◌, Option, none, some, Bytes, length, All, if◌then◌else◌, arith, not,
}
use cadenza.Llm.{
  Failure, message, exhausted, cancelled, closed_early, Request, Answer, fails, stream, Model,
  retryable_error, retryable_failure,
}

-- An int: `negsuc n` is -1 - n.
pub data ℤ : Type 0 where
  pos : ℕ → ℤ
  negsuc : ℕ → ℤ

-- The wrapped model's state, with what the loop does beside the calls.
pub record Env (S : Type 0) : Type 0 where
  pub inner : S
  pub sleeps : List Bool
  pub slept : List ℕ
  pub calls : ℕ

-- The delay is an int64: doubling it wraps.
abbrev pub doubled : ℕ → ℕ
doubled d = d * 2 % 2 ^ 64

-- sleepCtx: false if the context is done first.
abbrev pub next_sleep : List Bool → Bool × List Bool
next_sleep [] = (true, [])
next_sleep (b ∷ rest) = (b, rest)

-- What the loop decides on an answer: to return it, or to go round again, with what is returned
-- if no attempt is left.
pub data Verdict : Type 0 where
  return again : Answer → Verdict

unfoldable pub judge : Answer → Verdict
unfolding retryable_failure
judge (fails f) = if retryable_failure f then again (fails (exhausted f)) else return (fails f)
judge (stream []) = return (fails closed_early)
judge (stream (first ∷ rest)) = elim first.error [
  | none ↦ return (stream (first ∷ rest))
  | some m ↦ if retryable_error m then again (stream (first ∷ [])) else return (stream (first ∷ []))
]

module _ {S : Type 0} where
  pub sleep_ctx : ℕ → Env S → Bool × Env S
  sleep_ctx d e =
      let (whole, rest) = next_sleep e.sleeps in
      (whole, record e { sleeps = rest; slept = e.slept ++ d ∷ [] })

  -- One call of the wrapped model.
  pub call : Model S → Request → Env S → Answer × Env S
  call m req e = let (a, s) = m req e.inner in (a, record e { inner = s; calls = e.calls + 1 })

  -- The loop, with the attempts that are left after the next one and the delay before it.
  pub attempts : ℕ → ℕ → Model S → Request → Env S → Answer × Env S
  unfolding call sleep_ctx
  attempts zero d m req e =
      let (a, e') = call m req e in elim (judge a) [ return x ↦ (x, e') | again x ↦ (x, e') ]
  attempts (suc n) d m req e =
      let (a, e') = call m req e in
      elim (judge a) [
        | return x ↦ (x, e')
        | again x ↦
            let (whole, e'') = sleep_ctx d e' in
            elim whole [ true ↦ attempts n (doubled d) m req e'' | false ↦ (fails cancelled, e'') ]
      ]

  -- GenerateContent. With a negative number of retries the loop has no round, and neither an answer
  -- nor an error is returned.
  unfoldable pub retry_generate : ℤ → ℕ → Model S → Request → Env S → Option Answer × Env S
  unfolding attempts
  retry_generate (pos n) base_delay m req e =
      let (a, e') = attempts n base_delay m req e in (some a, e')
  retry_generate (negsuc n) base_delay m req e = (none, e)
