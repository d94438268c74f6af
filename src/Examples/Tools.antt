-- ===== src/Examples/Tools.antt =====
-- internal/agent/tools.go: a model whose second answer is a configuration in a fence.
use cadenza.Prelude.{ℕ, zero, suc, some, ◌≡◌, refl, String, Bool, true, [], ◌∷◌, List}
use cadenza.Agent.{Agent}
use cadenza.Agent.Generate.{
  Answer, unavailable, stream, choices, generate_yaml, generate_rounds, config_of, collect,
}
use cadenza.Agent.Generate.Fences.{strip_code_fence}
use cadenza.Agent.Generate.First.{IsFirst, generate_yaml-IsFirst}
use cadenza.Agent.Generate.Quiet.{ToolCall, generate_call, upgrade_call}
use cadenza.Examples.{empty_world}

abbrev second_try : ℕ → String → String → Answer
second_try zero desc context = unavailable
second_try (suc k) desc context = stream (choices ("here:\n```yaml\na: 1\n" ∷ "```\n" ∷ []) ∷ [])

abbrev accepts : String → Bool
accepts yaml = true

generate_yaml-IsFirst_example :
    IsFirst second_try accepts "metrics" "" 0 3 (generate_yaml second_try accepts "metrics" "")
generate_yaml-IsFirst_example = generate_yaml-IsFirst second_try accepts "metrics" ""

abbrev idle : Agent
idle = record { world = empty_world; rounds = []; clock = 4 ∷ 5 ∷ 6 ∷ [] }

abbrev itself : String → String
itself s = s

abbrev always_covers : String → String → Bool
always_covers want have = true

abbrev calls : List ToolCall
calls = generate_call "t1" "s" "edge" "metrics" ∷ upgrade_call "t2" "s" "edge" "0.2" ∷ []

generates : generate_yaml second_try accepts "metrics" "" ≡ some "a: 1"
unfolding generate_yaml generate_rounds config_of collect strip_code_fence
generates = refl
