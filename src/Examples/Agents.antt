-- ===== src/Examples/Agents.antt =====
-- internal/opampserver: agents that connect, are pushed to and fall silent.
use cadenza.Prelude.{◌≡◌, ◌≢◌, All, String, refl, true, none, some, ok, List, [], ◌∷◌, find}
use cadenza.Opamp.Registry.{get, conn_of}
use cadenza.Opamp.Server.{World, on_message}
use cadenza.Opamp.Push.{is_hex, push_config}
use cadenza.Opamp.Server.Deliver.{
  config_in, Heard, hear, Pushed, push_config-delivered, push_config-Pushed,
}
use cadenza.Opamp.Server.Health.{seen_again, get-on_message_quiet}
use cadenza.Examples.{empty_world, collector_a, quiet_message}

abbrev known_world : World
known_world = record empty_world {
  registry = record empty_world.registry { collectors = collector_a ∷ [] };
}

known_there : get "0a" known_world.registry ≡ some collector_a
unfolding get find
known_there = refl

get-on_message_quiet_example :
    get "0a" (on_message 20 1 (quiet_message "0a") known_world).1.registry
    ≡ some (seen_again 20 collector_a)
get-on_message_quiet_example =
    get-on_message_quiet 20 1 (quiet_message "0a") known_world collector_a (λ h. cc)
      (record { no_description = refl; no_health = refl; no_config = refl }) known_there

abbrev others : List Heard
others =
    record { now = 12; conn = 2; msg = quiet_message "0a0b" }
    ∷ record { now = 15; conn = 3; msg = quiet_message "0a0b" }
    ∷ []

other_uid : ◌≢◌ {A = String} "0a0b" "0a"
other_uid h = cc

others-apart : All (λ (h : Heard). h.msg.instance_uid ≢ "0a") others
others-apart = (other_uid, (other_uid, tt))

push_config-delivered_example :
    let w1 = hear others (push_config "0a" "b: 2" empty_world).1 in
    let w2 = hear others (on_message 20 1 (quiet_message "0a") w1).1 in
    (config_in (on_message 20 1 (quiet_message "0a") w1).0 ≡ some "b: 2")
    × (config_in (on_message 30 4 (quiet_message "0a") w2).0 ≡ none)
push_config-delivered_example =
    push_config-delivered "0a" "b: 2" empty_world away (λ h. cc) (λ h. cc) others others 20 30 1 4
      (quiet_message "0a") (quiet_message "0a") others-apart others-apart refl refl
  where
    away : conn_of "0a" empty_world.registry ≡ none
    away = unfold conn_of in refl

hex_uid : is_hex "0a" ≡ true
hex_uid = unfold is_hex in refl

push_config-Pushed_example :
    ((push_config "0a" "b: 2" empty_world).0 ≡ ok tt)
    × Pushed "0a" "b: 2" empty_world (push_config "0a" "b: 2" empty_world).1
push_config-Pushed_example = push_config-Pushed "0a" "b: 2" empty_world hex_uid
