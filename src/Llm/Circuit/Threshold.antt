-- ===== src/Llm/Circuit/Threshold.antt =====
-- internal/agent/llm.go: how many requests a failing model gets before the circuit opens.
use cadenza.Prelude.{
  ℕ, zero, suc, ◌+◌, ◌≤◌, ◌<◌, ◌≡◌, ap, ◌∙◌, refl, true, false, List, [], ◌∷◌, All, length, leb,
  if◌then◌else◌, arith, Bytes, some,
}
use cadenza.Llm.{Request, Answer, fails, stream, Model}
use cadenza.Llm.Circuit.{
  Circuit, is_failure, admit, record_failure, record_success, circuit_generate,
}

-- A section under the mutex, at the time that the clock shows.
pub data Section : Type 0 where
  admit_at : ℕ → Section
  failure_at : ℕ → Section
  success : Section

pub run_section : Section → Circuit → Circuit
unfolding admit record_failure record_success
run_section (admit_at now) c = (admit now c).1
run_section (failure_at now) c = record_failure now c
run_section success c = record_success c

pub run_sections : List Section → Circuit → Circuit
unfolding run_section
run_sections [] c = c
run_sections (x ∷ xs) c = run_sections xs (run_section x c)

-- A circuit that is closed has counted fewer failures than its threshold.
pub record IsSound (c : Circuit) : Type 0 where
  pub positive : 0 < c.threshold
  pub below : c.is_open ≡ false → c.failures < c.threshold

run_section-IsSound : (x : Section) (c : Circuit) → IsSound c → IsSound (run_section x c)
unfolding run_section
run_section-IsSound (admit_at now) c h = ground (arith, h.below)
run_section-IsSound (failure_at now) c h = ground (arith, h.below)
run_section-IsSound success c h = ground (arith, h.below)

-- In whatever order concurrent calls take the mutex, a circuit with a positive threshold that is
-- open, or has counted fewer failures since its last success or probe than its threshold, stays
-- so.
pub run_sections-IsSound :
    (xs : List Section) (c : Circuit) → IsSound c → IsSound (run_sections xs c)
unfolding run_sections
run_sections-IsSound [] c h = h
run_sections-IsSound (x ∷ xs) c h =
    run_sections-IsSound xs (run_section x c) (run_section-IsSound x c h)

-- An answer that is no success: an error, no response at all, or a first response with an error.
abbrev pub IsBad : Answer → Type 0
IsBad (fails f) = Unit {0}
IsBad (stream []) = Unit {0}
IsBad (stream (first ∷ rest)) = (msg : Bytes) × (first.error ≡ some msg)

IsBad-is_failure : (a : Answer) → IsBad a → is_failure a ≡ true
IsBad-is_failure (fails f) h = refl
IsBad-is_failure (stream []) h = refl
IsBad-is_failure (stream (first ∷ rest)) (msg, e) = rw e refl

-- A model that also counts the requests that reach it.
abbrev pub counted : {S : Type 0} → Model S → Model (ℕ × S)
counted m req (n, s) = let (a, s') = m req s in (a, (n + 1, s'))

pub run_calls :
    {S : Type 0} → Model S → List (ℕ × ℕ) → Request → Circuit × (ℕ × S) → Circuit × (ℕ × S)
run_calls m [] req w = w
run_calls m ((before, after) ∷ times) req w =
    run_calls m times req (circuit_generate before after (counted m) req w).1

-- Every request is sent before the time `limit`, and a cooldown that it starts ends after it.
abbrev pub Within : ℕ → ℕ → ℕ × ℕ → Type 0
Within cooldown limit (before, after) = (before ≤ limit) × (limit ≤ after + cooldown)

abbrev pub min_of : ℕ → ℕ → ℕ
min_of a b = if leb a b then a else b

module _ {S : Type 0} (m : Model S) (req : Request) (bad : (s : S) → IsBad (m req s).0) where
  module _ (before after : ℕ) (c : Circuit) (k : ℕ) (s : S) where
    step_open :
        c.is_open ≡ true
        → before ≤ c.cooldown_until
        → (circuit_generate before after (counted m) req (c, (k, s))).1 ≡ (c, (k, s))
    unfolding circuit_generate
    step_open o b = ground arith

    step_last :
        c.is_open ≡ false
        → c.failures + 1 ≡ c.threshold
        → (circuit_generate before after (counted m) req (c, (k, s))).1 ≡ (
          record c {
            failures = c.failures + 1;
            is_open = true;
            cooldown_until = after + c.cooldown;
          },
          (k + 1, (m req s).1),
        )
    unfolding circuit_generate
    step_last o f = ground (arith, IsBad-is_failure (m req s).0 (bad s))

    step_counted :
        c.is_open ≡ false
        → c.failures + 1 < c.threshold
        → (circuit_generate before after (counted m) req (c, (k, s))).1
          ≡ (record c { failures = c.failures + 1 }, (k + 1, (m req s).1))
    unfolding circuit_generate
    step_counted o f = ground (arith, IsBad-is_failure (m req s).0 (bad s))

  open_stays :
      (times : List (ℕ × ℕ)) (limit : ℕ) (c : Circuit) (k : ℕ) (s : S)
      → c.is_open ≡ true
      → limit ≤ c.cooldown_until
      → All (Within c.cooldown limit) times
      → (run_calls m times req (c, (k, s))).1.0 ≡ k
  unfolding run_calls
  open_stays [] limit c k s o l a = refl
  open_stays ((before, after) ∷ times) limit c k s o l ((early, late), more) =
      ap (λ w. (run_calls m times req w).1.0) (step_open before after c k s o (omega arith))
      ∙ open_stays times limit c k s o l more

  closed_counts :
      (times : List (ℕ × ℕ)) (limit : ℕ) (c : Circuit) (k left : ℕ) (s : S)
      → c.is_open ≡ false
      → c.failures + left ≡ c.threshold
      → 0 < left
      → All (Within c.cooldown limit) times
      → (run_calls m times req (c, (k, s))).1.0 ≡ k + min_of (length times) left
  unfolding run_calls
  closed_counts [] limit c k left s o f p a = ground arith
  closed_counts ((before, after) ∷ times) limit c k (suc zero) s o f p ((early, late), more) =
      let c' = record c {
        failures = c.failures + 1;
        is_open = true;
        cooldown_until = after + c.cooldown;
      } in
      ap (λ w. (run_calls m times req w).1.0) (step_last before after c k s o (omega arith))
      ∙ ground (arith, open_stays times limit c' (k + 1) (m req s).1 refl late more)
  closed_counts ((before, after) ∷ times) limit c k (suc (suc left)) s o f p ((early, late), more) =
      let c' = record c { failures = c.failures + 1 } in
      ap (λ w. (run_calls m times req w).1.0) (step_counted before after c k s o (omega arith))
      ∙ ground (
        arith,
        closed_counts times limit c' (k + 1) (suc left) (m req s).1 o (omega arith) (omega arith)
            more,
      )
  closed_counts ((before, after) ∷ times) limit c k zero s o f p ((early, late), more) =
      absurd (omega arith)

  -- Of requests sent one after the other within one cooldown to a model that answers each of them
  -- with an error, with no response, or with a first response that holds an error, exactly the
  -- first `threshold` ones reach it.
  pub run_calls_threshold :
      (times : List (ℕ × ℕ)) (limit : ℕ) (c : Circuit) (s : S)
      → c.is_open ≡ false
      → c.failures ≡ 0
      → 0 < c.threshold
      → All (Within c.cooldown limit) times
      → (run_calls m times req (c, (0, s))).1.0 ≡ min_of (length times) c.threshold
  run_calls_threshold times limit c s o f p a =
      omega (arith, closed_counts times limit c 0 c.threshold s o (omega arith) p a)
