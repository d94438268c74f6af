-- ===== src/Examples/Models.antt =====
-- internal/agent/llm.go: runs of the wrappers of a model.
use cadenza.Prelude.{
  find, zero, suc, ℕ, ◌≡◌, refl, true, false, Option, none, some, List, [], ◌∷◌, Bytes, bytes,
  length, String, arith,
}
use cadenza.Llm.{Request, Response, Answer, Model, fails, stream, message, exhausted}
use cadenza.Llm.Retry.{Env, judge, return, again, pos, retry_generate}
use cadenza.Llm.Retry.Bounds.{Tried, retry_generate-Tried}
use cadenza.Llm.Retry.First.{scripted}
use cadenza.Llm.Circuit.{Circuit}
use cadenza.Llm.Circuit.Threshold.{
  Section, admit_at, failure_at, success, IsSound, IsBad, run_calls, run_calls_threshold, min_of,
}
use cadenza.Llm.Stack.{Limits, Times, wrapped}
use cadenza.Llm.Stack.Reach.{Bounded, wrapped-Bounded}
use cadenza.Llm.Cache
use cadenza.Llm.Cache.{Cache, cache_generate}
use cadenza.Llm.Cache.Hits.{cache_generate_hit}

abbrev ask : Request
ask = record { messages = bytes "hi"; tools = [] }

abbrev ask_with_tools : Request
ask_with_tools = record { messages = bytes "hi"; tools = bytes "list" }

abbrev fine : Response
fine = record { model = []; error = none; content = bytes "hello" }

abbrev calm : List Answer → Env (List Answer)
calm l = record { inner = l; sleeps = []; slept = []; calls = 0 }

abbrev busy_answer : Answer
busy_answer = fails (message (bytes "429"))

abbrev fine_answer : Answer
fine_answer = stream (fine ∷ [])

retry_generate-Tried_example :
    Tried
      (pos 2)
      500
      (calm (busy_answer ∷ fine_answer ∷ []))
      (retry_generate (pos 2) 500 scripted ask (calm (busy_answer ∷ fine_answer ∷ [])))
retry_generate-Tried_example =
    retry_generate-Tried scripted ask (pos 2) 500 (calm (busy_answer ∷ fine_answer ∷ []))

judge-busy : judge busy_answer ≡ again (fails (exhausted (message (bytes "429"))))
unfolding judge
judge-busy = refl

judge-fine : judge fine_answer ≡ return fine_answer
unfolding judge
judge-fine = refl

abbrev closed_circuit : Circuit
closed_circuit = record {
  threshold = 2;
  cooldown = 100;
  failures = 0;
  is_open = false;
  cooldown_until = 0;
}

abbrev opened_circuit : Circuit
opened_circuit = record closed_circuit { failures = 2; is_open = true; cooldown_until = 150 }

closed_circuit-IsSound : IsSound closed_circuit
closed_circuit-IsSound = record { positive = omega arith; below = λ h. omega arith }

abbrev mixed_sections : List Section
mixed_sections = admit_at 1 ∷ failure_at 2 ∷ success ∷ failure_at 3 ∷ failure_at 4 ∷ []

abbrev four_times : List (ℕ × ℕ)
four_times = (1, 2) ∷ (3, 4) ∷ (5, 6) ∷ (7, 8) ∷ []

-- A model that fails in each of the three ways, one after the other.
abbrev failing : Model ℕ
failing req zero = (busy_answer, 1)
failing req (suc zero) = (stream [], 2)
failing req (suc (suc n)) = (stream (record fine { error = some (bytes "500") } ∷ []), 0)

failing-IsBad : (n : ℕ) → IsBad (failing ask n).0
failing-IsBad zero = tt
failing-IsBad (suc zero) = tt
failing-IsBad (suc (suc n)) = (bytes "500", refl)

run_calls_threshold_example :
    (run_calls failing four_times ask (closed_circuit, (0, 0))).1.0 ≡ min_of (length four_times) 2
run_calls_threshold_example =
    run_calls_threshold failing ask failing-IsBad four_times 50 closed_circuit 0 refl refl
      (omega arith) (omega arith)

abbrev no_entries : Cache
no_entries = record { ttl = 600; entries = [] }

-- A stand-in for the digest that tells no two texts apart.
abbrev one_key : Bytes → Option String
one_key s = some "k"

cache_generate_hit_example :
    (cache_generate one_key 1 2 scripted ask (no_entries, fine_answer ∷ [])
      ≡ (fine_answer, (Cache.put 2 "k" fine no_entries, [])))
    × (cache_generate one_key 3 4 scripted ask_with_tools (Cache.put 2 "k" fine no_entries, [])
        ≡ (fine_answer, (Cache.put 2 "k" fine no_entries, [])))
cache_generate_hit_example =
    cache_generate_hit one_key scripted 1 2 3 4 ask ask_with_tools no_entries (fine_answer ∷ [])
      fine "k" refl refl (unfold find in refl) refl refl (omega arith)

abbrev limits : Limits
limits = record { max_retries = 2; base_delay = 500; cache_ttl = 60 }

abbrev times : Times
times = record { looked_up = 10; admitted = 11; settled = 12; stored = 13 }

abbrev no_answers : Cache
no_answers = record { ttl = 60; entries = [] }

wrapped-Bounded_example :
    Bounded limits times opened_circuit
      (calm (busy_answer ∷ fine_answer ∷ []))
      (wrapped
        (λ messages. some "k")
        limits
        times
        scripted
        ask
        (no_answers, (opened_circuit, calm (busy_answer ∷ fine_answer ∷ [])))).1.1.1
wrapped-Bounded_example =
    wrapped-Bounded limits times opened_circuit (calm (busy_answer ∷ fine_answer ∷ [])) scripted ask
      no_answers (λ messages. some "k")
