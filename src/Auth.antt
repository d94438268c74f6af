-- ===== src/Auth.antt =====
-- internal/api/auth.go: the login of the web console. A session is looked up by its token; the
-- random tokens, the comparison of a password with its hash, and what the clock shows are
-- arguments.
pub mod Sessions
pub mod Access
use cadenza.Prelude.{
  ℕ, ◌+◌, ◌*◌, String, Bool, true, false, not, ◌&&◌, ◌||◌, List, [], ◌∷◌, Option, none, some, find,
  without, ltb, str_eq, if◌then◌else◌,
}

-- `config.WebAuthMode`
pub data AuthMode : Type 0 where
  simple off : AuthMode
  other_mode : String → AuthMode

pub record AuthSession : Type 0 where
  pub token : String
  pub username : String
  pub expires_at : ℕ

pub record AuthManager : Type 0 where
  pub mode : AuthMode
  pub username : String
  pub hash : String
  pub sessions : List AuthSession

-- 24 hours in nanoseconds
abbrev pub session_ttl : ℕ
session_ttl = 24 * 3600 * 1000000000

abbrev pub session_key : AuthSession → String
session_key s = s.token

abbrev pub is_simple : AuthMode → Bool
is_simple simple = true
is_simple _ = false

abbrev pub enabled : AuthManager → Bool
enabled m = is_simple m.mode

unfoldable pub exempt_path : String → Bool
exempt_path p =
    str_eq p "/api/v1/auth/login"
    || str_eq p "/api/v1/auth/logout"
    || str_eq p "/api/v1/auth/me"
    || str_eq p "/api/v1/system/info"

abbrev pub drop_session : String → AuthManager → AuthManager
drop_session token m = record m { sessions = without session_key token m.sessions }

pub live_session : ℕ → String → Option AuthSession → AuthManager → Option AuthSession × AuthManager
live_session now token none m = (none, m)
live_session now token (some s) m =
    if ltb s.expires_at now then (none, drop_session token m) else (some s, m)

-- A session past its end is removed when it is looked up.
unfoldable pub lookup : ℕ → String → AuthManager → Option AuthSession × AuthManager
unfolding live_session
lookup now token m = live_session now token (find session_key token m.sessions) m

-- The next handler runs, with the user of the context if there is one; or 401.
pub data Decision : Type 0 where
  served : Option String → Decision
  auth_required : Decision

-- The end of the middleware, with the session that the cookie leads to.
abbrev pub decide : String → Option AuthSession → Decision
decide path (some s) = served (some s.username)
decide path none = if exempt_path path then served none else auth_required

-- The cookie, where its value is not empty.
abbrev pub session_of : ℕ → Option String → AuthManager → Option AuthSession × AuthManager
session_of now none m = (none, m)
session_of now (some token) m = if str_eq token "" then (none, m) else lookup now token m

unfoldable pub middleware : ℕ → String → Option String → AuthManager → Decision × AuthManager
unfolding lookup exempt_path
middleware now path cookie m =
    let (found, m') = session_of now cookie m in
    if enabled m then (decide path found, m') else (served none, m)

-- What a request to log in holds: whether it is a POST, and its body if that can be parsed.
pub record LoginRequest : Type 0 where
  pub username : String
  pub password : String

pub data LoginReply : Type 0 where
  logged_in : String → String → LoginReply
  method_not_allowed conflict bad_request unauthorized internal_error : LoginReply

-- `token` is what `newToken` returns. `matches` compares a hash with a password.
unfoldable pub handle_login :
    (String → String → Bool)
    → ℕ
    → Bool
    → Option LoginRequest
    → Option String
    → AuthManager
    → LoginReply × AuthManager
handle_login matches now post body token m =
    if not post
    then (method_not_allowed, m)
    else if not (enabled m)
    then (conflict, m)
    else elim body [
      | none ↦ (bad_request, m)
      | some req ↦
          if str_eq req.username "" || str_eq req.password ""
          then (bad_request, m)
          else if not (str_eq req.username m.username) || not (matches m.hash req.password)
          then (unauthorized, m)
          else elim token [
            | none ↦ (internal_error, m)
            | some t ↦ (
              logged_in req.username t,
              record m {
                sessions =
                    record { token = t; username = req.username; expires_at = now + session_ttl }
                    ∷ without session_key t m.sessions;
              },
            )
          ]
    ]

-- The reply is 405 or 200, and clears the cookie.
unfoldable pub handle_logout : Bool → Option String → AuthManager → Bool × AuthManager
handle_logout post cookie m = if not post then (false, m) else elim cookie [
  | none ↦ (true, m)
  | some t ↦ (true, if str_eq t "" then m else drop_session t m)
]

pub data MeReply : Type 0 where
  me : String → AuthMode → MeReply
  me_not_allowed me_auth_required : MeReply

-- `user` is the one that the middleware put into the context.
unfoldable pub handle_me : Bool → Option String → AuthManager → MeReply
handle_me is_get user m =
    if not is_get then me_not_allowed else if not (enabled m) then me "user" off else elim user [
      | none ↦ me_auth_required
      | some u ↦ if str_eq u "" then me_auth_required else me u simple
    ]
