-- ===== src/Llm/Stack/Reach.antt =====
-- internal/agent/llm.go: how often a request to all the wrappers reaches the models behind them.
use cadenza.Prelude.{
  ◌+◌, ◌≤◌, ◌≡◌, refl, String, true, Bool-cases, inl, inr, Option, none, some, Bytes, ltb, arith,
}
use cadenza.Llm.{Request, Response, Model}
use cadenza.Llm.Retry.{Env, attempts}
use cadenza.Llm.Retry.Bounds.{attempts-Spent}
use cadenza.Llm.Circuit.{Circuit, admit, circuit_generate}
use cadenza.Llm.Cache.{Cache, cache_generate, cache_key, generate_keyed, get, after_get}
use cadenza.Llm.Stack.{Limits, Times, guarded, wrapped}

module _ {S : Type 0} (l : Limits) (t : Times) (k : Circuit) (e : Env S) where
  -- The model was called no more often than one request may call it, and not at all while the
  -- circuit breaker is open and its cooldown lasts.
  abbrev pub Bounded : Env S → Type 0
  Bounded e' =
      (e.calls ≤ e'.calls)
      × (e'.calls ≤ e.calls + (l.max_retries + 1))
      × (k.is_open ≡ true → t.admitted ≤ k.cooldown_until → e'.calls ≡ e.calls)

  Bounded-same : Bounded e
  Bounded-same = (omega arith, omega arith, λ _ _. refl)

  module _ (m : Model S) (req : Request) where
    abbrev asked : Env S
    asked = (attempts l.max_retries l.base_delay m req e).1

    admitted_closed :
        (admit t.admitted k).0 ≡ true
        → k.is_open ≡ true
        → t.admitted ≤ k.cooldown_until
        → asked.calls ≡ e.calls
    unfolding admit
    admitted_closed h is_open within = ground (arith, h, is_open, within)

    Bounded-guarded : Bounded (guarded l t m req (k, e)).1.1
    unfolding circuit_generate
    Bounded-guarded = elim (Bool-cases (admit t.admitted k).0) [
      | inl allowed ↦
          let spent = attempts-Spent m req l.max_retries l.base_delay e in
          rw allowed (
            omega (arith, spent.calls),
            omega (arith, spent.calls, spent.calls_bound),
            admitted_closed allowed,
          )
      | inr refused ↦ rw refused Bounded-same
    ]

    module _ (c : Cache) (digest : Bytes → Option String) where
      Bounded-keyed :
          (key : Option String)
          → Bounded (generate_keyed key t.looked_up t.stored (guarded l t m) req (c, (k, e))).1.1.1
      unfolding generate_keyed
      Bounded-keyed none = Bounded-guarded
      Bounded-keyed (some key) = found (get t.looked_up key c).0
        where
          found :
              (o : Option Response)
              → Bounded
                  (after_get o t.stored key
                    (guarded l t m req (k, e))
                    (get t.looked_up key c).1
                    (k, e)).1.1.1
          found none = Bounded-guarded
          found (some r) = Bounded-same

      -- One request to all the wrappers calls the model behind them at most once more often than
      -- there are retries, whether answers are kept or not; while the circuit breaker is open and
      -- its cooldown lasts, it does not call it.
      pub wrapped-Bounded : Bounded (wrapped digest l t m req (c, (k, e))).1.1.1
      unfolding wrapped cache_generate
      wrapped-Bounded = elim (Bool-cases (ltb 0 l.cache_ttl)) [
        | inl kept ↦ rw kept (Bounded-keyed (cache_key digest req))
        | inr no_cache ↦ rw no_cache Bounded-guarded
      ]
