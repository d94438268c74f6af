-- ===== src/Opamp/Push.antt =====
-- internal/opampserver/server.go: what the server sends by itself.
use Prim.Native.Char.{code}
use Prim.Native.String.{String}
use cadenza.Prelude.{
  ℕ, Bool, true, false, not, ◌&&◌, ◌||◌, List, [], ◌∷◌, ◌++◌, none, some, Result, ok, err, leb,
  if◌then◌else◌,
}
use cadenza.Store.{Error, bad_instance_uid}
use cadenza.Opamp.Registry
use cadenza.Opamp.Registry.{assign}
use cadenza.Opamp.Server.{World, Payload, remote_config, restart}

abbrev pub is_hex_digit : ℕ → Bool
is_hex_digit c = leb b'0' c && leb c b'9' || leb b'a' c && leb c b'f' || leb b'A' c && leb c b'F'

-- Whether hex.DecodeString accepts a text.
unfoldable pub is_hex : String → Bool
is_hex String.[] = true
is_hex (String.◌∷◌ a String.[]) = false
is_hex (String.◌∷◌ a (String.◌∷◌ b s)) = is_hex_digit (code a) && is_hex_digit (code b) && is_hex s

-- conn.Send: whether the connection takes the message.
abbrev pub next_outcome : List Bool → Bool × List Bool
next_outcome [] = (true, [])
next_outcome (b ∷ rest) = (b, rest)

unfoldable pub send : String → Payload → World → Bool × World
send uid payload w =
    let (sent, rest) = next_outcome w.send_outcomes in
    (
      sent,
      record w {
        send_outcomes = rest;
        outbox = if sent then w.outbox ++ (uid, payload) ∷ [] else w.outbox;
      },
    )

unfoldable pub set_pending : String → String → World → World
set_pending uid yaml w = record w { waiting = assign uid yaml w.waiting }

unfoldable pub push_config : String → String → World → Result Error (Unit {0}) × World
unfolding send set_pending
push_config uid yaml w = elim (Registry.conn_of uid w.registry) [
  | none ↦ (ok tt, set_pending uid yaml w)
  | some conn ↦
      let (sent, w') = send uid (remote_config yaml) w in
      if not (is_hex uid)
      then (err bad_instance_uid, w)
      else if sent
      then (ok tt, w')
      else (ok tt, set_pending uid yaml w')
]

unfoldable pub send_restart : String → World → Bool × World
unfolding send
send_restart uid w =
    if not (Registry.online uid w.registry) || not (Registry.accepts_restart_command uid w.registry)
    then (false, w)
    else if not (is_hex uid)
    then (false, w)
    else send uid restart w
