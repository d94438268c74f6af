-- ===== src/Agent/Generate/First.antt =====
-- internal/agent/tools.go: which answer of the model becomes the configuration.
use cadenza.Prelude.{
  ℕ, zero, suc, ◌+◌, ◌≤◌, ◌<◌, ◌≡◌, refl, sym, ◌∙◌, subst, String, Bool, Option, none, some, ◌⊎◌,
  inl, inr, Bool-cases, Option-cases, ◌==◌, ==_iff, if◌then◌else◌, arith,
}
use cadenza.Agent.Generate.{Answer, config_of, generate_rounds, generate_yaml}

module _ (llm : ℕ → String → String → Answer) (valid : String → Bool) (desc context : String) where
  abbrev pub if_valid : Option String → Option String
  if_valid none = none
  if_valid (some yaml) = if valid yaml then some yaml else none

  -- The configuration that an attempt gives, if the validator accepts it.
  abbrev pub attempt : ℕ → Option String
  attempt k = if_valid (config_of (llm k desc context))

  -- The first attempt of a range that gives a configuration, or that there is none.
  abbrev pub IsFirst : ℕ → ℕ → Option String → Type 0
  IsFirst low high result =
      (result ≡ none) × ((k : ℕ) → low ≤ k → k < high → attempt k ≡ none)
      ⊎ ((k : ℕ) × (yaml : String) × (result ≡ some yaml)
          × (low ≤ k)
          × (k < high)
          × (attempt k ≡ some yaml)
          × ((j : ℕ) → low ≤ j → j < k → attempt j ≡ none))

  generate_rounds-some :
      (left made : ℕ) (yaml : String)
      → attempt made ≡ some yaml
      → generate_rounds llm valid (suc left) made desc context ≡ some yaml
  unfolding generate_rounds
  generate_rounds-some left made yaml h = go (config_of (llm made desc context)) refl
    where
      go :
          (o : Option String)
          → config_of (llm made desc context) ≡ o
          → generate_rounds llm valid (suc left) made desc context ≡ some yaml
      go none e = ground arith
      go (some y) e = ground arith

  generate_rounds-none :
      (left made : ℕ)
      → attempt made ≡ none
      → generate_rounds llm valid (suc left) made desc context
        ≡ generate_rounds llm valid left (made + 1) desc context
  unfolding generate_rounds
  generate_rounds-none left made h = go (config_of (llm made desc context)) refl
    where
      go :
          (o : Option String)
          → config_of (llm made desc context) ≡ o
          → generate_rounds llm valid (suc left) made desc context
            ≡ generate_rounds llm valid left (made + 1) desc context
      go none e = ground arith
      go (some y) e = ground arith

  below_next :
      (made k : ℕ)
      → attempt made ≡ none
      → ((j : ℕ) → made + 1 ≤ j → j < k → attempt j ≡ none)
      → (j : ℕ) → made ≤ j
      → j < k
      → attempt j ≡ none
  below_next made k here later j above below = elim (Bool-cases (j == made)) [
    | inl same ↦ subst (λ i. attempt i ≡ none) (sym ((==_iff j made).0 same)) here
    | inr apart ↦ later j (ground (arith, above, apart)) below
  ]

  generate_rounds-IsFirst :
      (left made : ℕ)
      → IsFirst made (made + left) (generate_rounds llm valid left made desc context)
  generate_rounds-IsFirst zero made =
      inl (unfold generate_rounds in refl, (λ k above below. absurd (omega (arith, above, below))))
  generate_rounds-IsFirst (suc left) made = elim (Option-cases (attempt made)) [
    | inr (yaml, here) ↦ inr (
      made,
      yaml,
      generate_rounds-some left made yaml here,
      omega arith,
      omega arith,
      here,
      (λ j above below. absurd (omega (arith, above, below))),
    )
    | inl missed ↦
        let same = generate_rounds-none left made missed in
        elim (generate_rounds-IsFirst left (made + 1)) [
          | inl (nothing, all) ↦ inl (
            same ∙ nothing,
            (λ k above below.
                below_next made (made + suc left) missed (λ j a b. all j a (omega (arith, b))) k
                  above below),
          )
          | inr (k, yaml, found, above, below, here, earlier) ↦ inr (
            k,
            yaml,
            same ∙ found,
            omega (arith, above),
            omega (arith, below),
            here,
            (λ j a b. below_next made k missed earlier j a b),
          )
        ]
  ]

  -- The configuration is that of the first of three attempts that gives one which the validator
  -- accepts; there is none only if none of the three gives one.
  pub generate_yaml-IsFirst : IsFirst 0 3 (generate_yaml llm valid desc context)
  unfolding generate_yaml
  generate_yaml-IsFirst = generate_rounds-IsFirst 3 0
