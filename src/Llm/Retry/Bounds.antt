-- ===== src/Llm/Retry/Bounds.antt =====
-- internal/agent/llm.go: how often `retryModel` calls and how long it waits.
use mathlib.Core.List.{append-nil, append_assoc}
use cadenza.Prelude.{
  sym, ap, ◌∙◌, ℕ, zero, suc, ◌+◌, ◌≤◌, ◌≡◌, refl, Bool, true, false, List, [], ◌∷◌, ◌++◌, Option,
  none, some, arith,
}
use cadenza.Llm.{cancelled, Request, Answer, fails, Model}
use cadenza.Llm.Retry.{
  Env, doubled, Verdict, return, again, judge, sleep_ctx, call, attempts, ℤ, pos, negsuc,
  retry_generate,
}

-- The delays of an exponential backoff.
pub backoff : ℕ → ℕ → List ℕ
backoff zero d = []
backoff (suc n) d = d ∷ backoff n (doubled d)

-- What the loop does beside the calls: it makes c of them, at least one, and begins k pauses, one
-- between two calls and perhaps one more, which are the first of the backoff.
pub record Spent {S : Type 0} (n d : ℕ) (e e' : Env S) : Type 0 where
  pub c : ℕ
  pub k : ℕ
  pub called : 1 ≤ c
  pub calls_bound : c ≤ n + 1
  pub pauses_bound : k ≤ n
  pub pauses_le : k ≤ c
  pub calls_le : c ≤ k + 1
  pub calls : e'.calls ≡ e.calls + c
  pub slept : e'.slept ≡ e.slept ++ backoff k d

-- What comes of a request, by the number of retries.
abbrev pub Tried : {S : Type 0} → ℤ → ℕ → Env S → Option Answer × Env S → Type 0
Tried (pos n) d e (some x, e') = Spent n d e e'
Tried (pos n) d e (none, e') = ⊥
Tried (negsuc n) d e r = r ≡ (none, e)

module _ {S : Type 0} {n d : ℕ} {e e1 : Env S} where
  Spent-one : e1.calls ≡ e.calls + 1 → e1.slept ≡ e.slept → Spent n d e e1
  unfolding backoff
  Spent-one h s = record {
    c = 1;
    k = 0;
    called = omega arith;
    calls_bound = omega arith;
    pauses_bound = omega arith;
    pauses_le = omega arith;
    calls_le = omega arith;
    calls = h;
    slept = s ∙ sym (append-nil e.slept);
  }

  Spent-cut : e1.calls ≡ e.calls + 1 → e1.slept ≡ e.slept ++ d ∷ [] → Spent (suc n) d e e1
  unfolding backoff
  Spent-cut h s = record {
    c = 1;
    k = 1;
    called = omega arith;
    calls_bound = omega arith;
    pauses_bound = omega arith;
    pauses_le = omega arith;
    calls_le = omega arith;
    calls = h;
    slept = s;
  }

Spent-more :
    {S : Type 0} {n d : ℕ} {e e1 e2 : Env S}
    → e1.calls ≡ e.calls + 1
    → e1.slept ≡ e.slept ++ d ∷ []
    → Spent n (doubled d) e1 e2
    → Spent (suc n) d e e2
unfolding backoff
Spent-more {d = d} {e = e} h s rest = record {
  c = suc rest.c;
  k = suc rest.k;
  called = omega arith;
  calls_bound = omega arith;
  pauses_bound = omega arith;
  pauses_le = omega arith;
  calls_le = omega arith;
  calls = omega arith;
  slept =
      rest.slept
      ∙ ap (λ l. l ++ backoff rest.k (doubled d)) s
      ∙ append_assoc e.slept (d ∷ []) (backoff rest.k (doubled d));
}

module _ {S : Type 0} (m : Model S) (req : Request) where
  pub attempts-Spent : (n d : ℕ) (e : Env S) → Spent n d e (attempts n d m req e).1
  unfolding attempts call sleep_ctx
  attempts-Spent zero d e = last (judge (call m req e).0)
    where
      last :
          (v : Verdict)
          → Spent zero d e
              (elim v as (λ _. Answer × Env S) [
                | return x ↦ (x, (call m req e).1)
                | again x ↦ (x, (call m req e).1)
              ]).1
      last (return x) = Spent-one refl refl
      last (again x) = Spent-one refl refl
  attempts-Spent (suc n) d e =
      round (judge (call m req e).0) (sleep_ctx d (call m req e).1).0
        (attempts-Spent n (doubled d) (sleep_ctx d (call m req e).1).1)
    where
      e'' : Env S
      e'' = (sleep_ctx d (call m req e).1).1

      round :
          (v : Verdict) (whole : Bool)
          → Spent n (doubled d) e'' (attempts n (doubled d) m req e'').1
          → Spent
              (suc n)
              d
              e
              (elim v as (λ _. Answer × Env S) [
                | return x ↦ (x, (call m req e).1)
                | again x ↦ elim whole as (λ _. Answer × Env S) [
                  | true ↦ attempts n (doubled d) m req e''
                  | false ↦ (fails cancelled, e'')
                ]
              ]).1
      round (return x) whole rest = Spent-one refl refl
      round (again x) false rest = Spent-cut refl refl
      round (again x) true rest = Spent-more refl refl rest

  -- With retries that are not negative, a request reaches the wrapped model at least once and at
  -- most `max_retries` + 1 times; between two calls there is one pause, and after the last call at
  -- most one; the pauses are the first delays of the exponential backoff from `base_delay`, and at
  -- most `max_retries`. With a negative number the model is not called, there is no pause, and
  -- neither an answer nor an error comes back.
  pub retry_generate-Tried :
      (max_retries : ℤ) (base_delay : ℕ) (e : Env S)
      → Tried max_retries base_delay e (retry_generate max_retries base_delay m req e)
  unfolding retry_generate
  retry_generate-Tried (pos n) base_delay e = attempts-Spent n base_delay e
  retry_generate-Tried (negsuc n) base_delay e = refl
