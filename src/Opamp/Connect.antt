-- ===== src/Opamp/Connect.antt =====
-- internal/opampserver/server.go: who may connect, and what is left of a connection.
use cadenza.Prelude.{
  ℕ, String, Bool, false, not, ◌&&◌, List, [], ◌∷◌, Option, none, some, Bytes, bytes, bytes_eq,
  trim_space, after_prefix, ◌==◌, ◌||◌, str_eq, if◌then◌else◌,
}
use cadenza.Models.{Collector}
use cadenza.Opamp.Registry
use cadenza.Opamp.Registry.{Registry}

abbrev pub bearer_prefix : Bytes
bearer_prefix = bytes "Bearer "

unfoldable pub bearer_token : Bytes → Bytes
bearer_token header = elim (after_prefix bearer_prefix header) [
  | none ↦ []
  | some rest ↦ trim_space rest
]

-- Whether a connection is accepted, by the token of the server and the header of the request.
unfoldable pub on_connecting : Bytes → Bytes → Bool
unfolding bearer_token
on_connecting auth_token header =
    bytes_eq auth_token []
    || not (bytes_eq (bearer_token header) []) && bytes_eq (bearer_token header) auth_token

abbrev pub same_conn : Option ℕ → ℕ → Bool
same_conn none conn = false
same_conn (some c) conn = c == conn

-- The uid of the first collector, in the order of the rows, that has the connection.
pub uid_among : List Collector → Registry → ℕ → String
uid_among [] r conn = ""
uid_among (c ∷ rows) r conn =
    let rest = uid_among rows r conn in
    if same_conn (Registry.conn_of c.instance_uid r) conn then c.instance_uid else rest

unfoldable pub uid_for_conn : Registry → ℕ → String
unfolding uid_among
uid_for_conn r conn = uid_among r.collectors r conn

unfoldable pub on_connection_close : ℕ → Registry → Registry
unfolding uid_for_conn
on_connection_close conn r =
    let uid = uid_for_conn r conn in if str_eq uid "" then r else Registry.remove uid r
