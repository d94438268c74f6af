-- ===== src/Agent/Confirm.antt =====
-- internal/agent/confirm.go. Times are milliseconds since the wait began. `hash` is the digest of
-- a configuration and `covers` whether a reported configuration covers a pushed one.
pub mod Returns
use cadenza.Prelude.{
  ℕ, zero, suc, ◌+◌, ◌/◌, String, Bool, true, false, ◌||◌, List, [], ◌∷◌, Option, none, some,
  Result, ok, err, leb, str_eq,
}
use cadenza.Store.{Error}
use cadenza.Agent.{Agent, Round}
use cadenza.Opamp.Registry
use cadenza.Opamp.Registry.{Registry}
use cadenza.Opamp.Server.{World, AgentMessage, on_message}
use cadenza.Opamp.Push.{push_config, send_restart}

abbrev pub confirm_timeout : ℕ
confirm_timeout = 12000

abbrev pub poll_interval : ℕ
poll_interval = 200

abbrev pub quiet_round : Round
quiet_round = record { messages = []; late = 0; cancelled = false }

abbrev pub next_round : List Round → Round × List Round
next_round [] = (quiet_round, [])
next_round (r ∷ rest) = (r, rest)

unfoldable pub receive : List (ℕ × (ℕ × AgentMessage)) → World → World
receive [] w = w
receive ((now, (conn, msg)) ∷ rest) w = receive rest (on_message now conn msg w).1

-- A sleep of the poll, and what happens in it.
unfoldable pub sleep : Agent → Round × Agent
unfolding receive
sleep a =
    let (r, rest) = next_round a.rounds in
    (r, record a { rounds = rest; world = receive r.messages a.world })

abbrev pub is_hash : String → Option String → Bool
is_hash want none = false
is_hash want (some h) = str_eq h want

abbrev pub is_covered : (String → String → Bool) → String → Option String → Bool
is_covered covers pushed none = false
is_covered covers pushed (some eff) = covers pushed eff

abbrev pub is_confirmed : (String → String → Bool) → String → String → String → Registry → Bool
is_confirmed covers uid want pushed r =
    is_hash want (Registry.reported_hash uid r)
    || is_covered covers pushed (Registry.reported_effective uid r)

-- The loop, with the polls that may still be made and the time that has passed. It returns nothing
-- only if it runs out of polls.
unfoldable pub wait_confirm :
    (String → String → Bool) → ℕ → ℕ → ℕ → String → String → String → Agent → Option Bool × Agent
unfolding sleep
wait_confirm covers zero passed timeout uid want pushed a = (none, a)
wait_confirm covers (suc n) passed timeout uid want pushed a =
    elim (is_confirmed covers uid want pushed a.world.registry) [
      | true ↦ (some true, a)
      | false ↦ elim (leb timeout passed) [
        | true ↦ (some false, a)
        | false ↦
            let (r, a') = sleep a in
            elim r.cancelled [
              | true ↦ (some false, a')
              | false ↦
                  wait_confirm covers n (passed + poll_interval + r.late) timeout uid want pushed a'
            ]
      ]
    ]

-- One more poll than there are intervals in half the time.
abbrev pub max_polls : ℕ
max_polls = 31

abbrev pub is_true : Option Bool → Bool
is_true none = false
is_true (some b) = b

unfoldable pub push_and_confirm :
    (String → String)
    → (String → String → Bool)
    → String
    → String
    → Agent
    → Result Error Bool × Agent
unfolding wait_confirm
push_and_confirm hash covers uid yaml a =
    let was_online = Registry.online uid a.world.registry in
    let (r, w) = push_config uid yaml a.world in
    let a1 = record a { world = w } in
    let half = confirm_timeout / 2 in
    let wait = wait_confirm covers max_polls 0 half uid (hash yaml) yaml in
    elim r [
      | err e ↦ (err e, a1)
      | ok u ↦ elim was_online [
        | false ↦ (ok true, a1)
        | true ↦
            let (first, a2) = wait a1 in
            elim (is_true first) [
              | true ↦ (ok true, a2)
              | false ↦ elim (Registry.accepts_restart_command uid a2.world.registry) [
                | false ↦ (ok false, a2)
                | true ↦
                    let a3 = record a2 { world = (send_restart uid a2.world).1 } in
                    let (second, a4) = wait a3 in (ok (is_true second), a4)
              ]
            ]
      ]
    ]
