-- ===== src/Api/Access.antt =====
-- internal/api/mcpauth.go and internal/api/router.go: who is served, and by which handler.
pub mod Origins
use cadenza.Prelude.{
  ℕ, ◌+◌, Bool, true, false, not, ◌&&◌, ◌||◌, List, [], ◌∷◌, Option, none, some, length, take, drop,
  keep, leb, ◌==◌, if◌then◌else◌, Bytes, bytes, bytes_eq, trim_space,
}
use cadenza.Git.{split_slash}
use cadenza.Api.Http.{Method, options}

abbrev pub lower : ℕ → ℕ
lower c = if leb 65 c && leb c 90 then c + 32 else c

-- strings.EqualFold, on ASCII
unfoldable pub equal_fold : Bytes → Bytes → Bool
equal_fold [] [] = true
equal_fold (x ∷ xs) (y ∷ ys) = lower x == lower y && equal_fold xs ys
equal_fold _ _ = false

abbrev pub scheme : Bytes
scheme = bytes "Bearer "

unfoldable pub bearer_token_of : Bytes → Bytes
unfolding equal_fold
bearer_token_of header =
    if leb (length header) (length scheme) || not (equal_fold (take (length scheme) header) scheme)
    then []
    else trim_space (drop (length scheme) header)

-- Whether `MCPAuth` hands a request on, by the token of the endpoint and the header.
unfoldable pub mcp_auth : Bytes → Bytes → Bool
unfolding bearer_token_of
mcp_auth token header =
    let got = bearer_token_of header in
    bytes_eq token [] || not (bytes_eq got []) && bytes_eq got token

abbrev pub not_empty : Bytes → Bool
not_empty s = not (bytes_eq s [])

-- The segments of a path that are not empty.
unfoldable pub split_path : Bytes → List Bytes
split_path p = keep not_empty (split_slash p)

pub data TaskRoute : Type 0 where
  task_missing unknown_action : TaskRoute
  to_get_task to_approve to_reject to_diff : Bytes → TaskRoute

abbrev pub by_action : Bytes → Bytes → TaskRoute
by_action id action =
    if bytes_eq action []
    then to_get_task id
    else if bytes_eq action (bytes "approve")
    then to_approve id
    else if bytes_eq action (bytes "reject")
    then to_reject id
    else if bytes_eq action (bytes "diff")
    then to_diff id
    else unknown_action

unfoldable pub task_action : Bytes → TaskRoute
unfolding split_path
task_action path = elim (split_path path) [
  | _ ∷ _ ∷ _ ∷ id ∷ [] ↦ by_action id []
  | _ ∷ _ ∷ _ ∷ id ∷ action ∷ _ ↦ by_action id action
  | _ ↦ task_missing
]

pub data CollectorRoute : Type 0 where
  unknown_path : CollectorRoute
  to_versions to_collector : Bytes → CollectorRoute

unfoldable pub collector_action : Bytes → CollectorRoute
unfolding split_path
collector_action path = elim (split_path path) [
  | _ ∷ _ ∷ _ ∷ uid ∷ [] ↦ to_collector uid
  | _ ∷ _ ∷ _ ∷ uid ∷ action ∷ [] ↦
      if bytes_eq action (bytes "versions") then to_versions uid else unknown_path
  | _ ↦ unknown_path
]

pub data SessionRoute : Type 0 where
  unknown_session_path : SessionRoute
  to_session_tasks to_session_messages to_session : Bytes → SessionRoute

unfoldable pub session_action : Bytes → SessionRoute
unfolding split_path
session_action path = elim (split_path path) [
  | _ ∷ _ ∷ _ ∷ id ∷ [] ↦ to_session id
  | _ ∷ _ ∷ _ ∷ id ∷ action ∷ [] ↦
      if bytes_eq action (bytes "tasks")
      then to_session_tasks id
      else if bytes_eq action (bytes "messages")
      then to_session_messages id
      else unknown_session_path
  | _ ↦ unknown_session_path
]

unfoldable pub is_listed : Bytes → List Bytes → Bool
is_listed origin [] = false
is_listed origin (o ∷ rest) = bytes_eq o origin || is_listed origin rest

abbrev pub star : Bytes
star = bytes "*"

-- What the answer says to a browser, and whether it ends there.
pub record CorsAnswer : Type 0 where
  pub allow_origin : Option Bytes
  pub allow_credentials : Bool
  pub ends : Bool

abbrev pub is_options : Method → Bool
is_options options = true
is_options _ = false

unfoldable pub cors_middleware : List Bytes → Method → Bytes → CorsAnswer
unfolding is_listed
cors_middleware allowed method origin =
    let wildcard = is_listed star allowed in
    let match = is_listed origin (keep (λ (o : Bytes). not (bytes_eq o star)) allowed) in
    if not (bytes_eq origin []) && (wildcard || match)
    then record {
      allow_origin = some (if wildcard then star else origin);
      allow_credentials = not wildcard;
      ends = is_options method;
    }
    else record { allow_origin = none; allow_credentials = false; ends = false }
