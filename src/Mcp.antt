-- ===== src/Mcp.antt =====
-- internal/mcp/server.go: the tools of the agent as the clients of MCP see and call them. JSON is a
-- parameter: the text of arguments and what it decodes to, the text of a result and of an error.
pub mod Schemas
use cadenza.Prelude.{String, List, [], ◌∷◌, Option, none, some, Result, ok, err}
use cadenza.Store.{Error}
use cadenza.Agent.{Agent}
use cadenza.Agent.Tools.{Arguments, RequestedCall, Tool, ToolResult, Deps, call}

pub data CallResult : Type 0 where
  arguments_failed result_failed : CallResult
  error_result text_result : String → CallResult

pub record Codec : Type 0 where
  pub marshal : Arguments → Option String
  pub unmarshal : String → Option Arguments
  pub encode : ToolResult → Option String
  pub describe : Error → String

abbrev pub result_of : Codec → Result Error ToolResult → CallResult
result_of j (err e) = error_result (j.describe e)
result_of j (ok r) = elim (j.encode r) [ none ↦ result_failed | some payload ↦ text_result payload ]

abbrev pub request_of : Codec → String → RequestedCall
request_of j raw = record { id = ""; name = ""; raw = raw; parsed = j.unmarshal raw }

module _ (d : Deps) (j : Codec) where
  abbrev pub call_marshalled : Tool → String → Option String → Agent → CallResult × Agent
  call_marshalled tool new_id none a = (arguments_failed, a)
  call_marshalled tool new_id (some raw) a =
      let (r, a') = call d tool new_id "" (request_of j raw) a in (result_of j r, a')

  -- The handler of a tool. No session is known, and `new_id` is the id that a new task gets.
  unfoldable pub handle_call : Tool → String → Arguments → Agent → CallResult × Agent
  handle_call tool new_id args = call_marshalled tool new_id (j.marshal args)
