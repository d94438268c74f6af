-- ===== src/Llm/Retry/First.antt =====
-- internal/agent/llm.go: which answer `retryModel` returns.
use cadenza.Prelude.{
  ap, ℕ, zero, suc, ◌≤◌, ◌≡◌, refl, true, List, [], ◌∷◌, ◌++◌, length, All, arith,
}
use cadenza.Llm.{closed_early, Request, Answer, fails, Model}
use cadenza.Llm.Retry.{Env, doubled, next_sleep, return, again, judge, sleep_ctx, call, attempts}

module _ {S : Type 0} (m : Model S) (req : Request) where
  attempts-return :
      (n d : ℕ) (e : Env S) {x : Answer}
      → judge (call m req e).0 ≡ return x
      → attempts n d m req e ≡ (x, (call m req e).1)
  unfolding attempts
  attempts-return zero d e h = ground (arith, h)
  attempts-return (suc n) d e h = ground (arith, h)

  attempts-again :
      (n d : ℕ) (e : Env S) {x : Answer}
      → judge (call m req e).0 ≡ again x
      → (sleep_ctx d (call m req e).1).0 ≡ true
      → attempts (suc n) d m req e ≡ attempts n (doubled d) m req (sleep_ctx d (call m req e).1).1
  unfolding attempts
  attempts-again n d e h s = ground (arith, h, s)

-- A model that answers by a list.
abbrev pub scripted : Model (List Answer)
scripted req [] = (fails closed_early, [])
scripted req (a ∷ rest) = (a, rest)

abbrev pub IsAgain : Answer → Type 0
IsAgain a = (x : Answer) × (judge a ≡ again x)

-- With no more answers to repeat than retries, and no pause cut short, the first answer that is
-- not to be repeated decides what is returned, and no later answer is asked for.
pub attempts_first :
    (max_retries d : ℕ) (req : Request) (e : Env (List Answer)) (repeated rest : List Answer)
    (good x : Answer)
    → e.inner ≡ repeated ++ good ∷ rest
    → e.sleeps ≡ []
    → All IsAgain repeated
    → length repeated ≤ max_retries
    → judge good ≡ return x
    → ((attempts max_retries d scripted req e).0 ≡ x)
      × ((attempts max_retries d scripted req e).1.inner ≡ rest)
attempts_first max_retries d req e repeated rest good x = run max_retries d e repeated
  where
    run :
        (n d : ℕ) (e : Env (List Answer)) (repeated : List Answer)
        → e.inner ≡ repeated ++ good ∷ rest
        → e.sleeps ≡ []
        → All IsAgain repeated
        → length repeated ≤ n
        → judge good ≡ return x
        → ((attempts n d scripted req e).0 ≡ x) × ((attempts n d scripted req e).1.inner ≡ rest)
    run n d e [] i s a l g =
        let here : judge (call scripted req e).0 ≡ return x =
          unfold call in rw (ap (λ l. judge (scripted req l).0) i) g in
        rw (attempts-return scripted req n d e here)
          (refl, unfold call in ap (λ l. (scripted req l).1) i)
    run zero d e (r ∷ rs) i s a l g = absurd (omega arith)
    run (suc n) d e (r ∷ rs) i s ((y, again_y), more) l g =
        let e'' = (sleep_ctx d (call scripted req e).1).1 in
        let here : judge (call scripted req e).0 ≡ again y =
          unfold call in rw (ap (λ l. judge (scripted req l).0) i) again_y in
        let whole : (sleep_ctx d (call scripted req e).1).0 ≡ true =
          unfold call sleep_ctx in ap (λ l. (next_sleep l).0) s in
        rw (attempts-again scripted req n d e here whole) (
          run n (doubled d) e'' rs (unfold call sleep_ctx in ap (λ l. (scripted req l).1) i)
            (unfold call sleep_ctx in ap (λ l. (next_sleep l).1) s) more (omega arith) g)
