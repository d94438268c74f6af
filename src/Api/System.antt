-- ===== src/Api/System.antt =====
-- internal/api/system.go: what the server tells of itself without a login.
use cadenza.Prelude.{ℕ, String, Bool, not, Result, ok, err, Exec, pure, ◌>>◌, str_eq, if◌then◌else◌}
use cadenza.Store.{Db, Error}
use cadenza.Store.Lists.{ping}
use cadenza.Auth.{AuthManager, enabled}
use cadenza.Api.Http.{Method, is_get, refuse_if}

pub record Info : Type 0 where
  pub version : String
  pub auth_mode : String
  pub demo_mode : Bool
  pub mcp_auth : Bool
  pub config_source : String
  pub git_enabled : Bool

-- The version is an argument.
unfoldable pub system_info :
    {S : Type 0} → String → AuthManager → Bool → Bool → String → Bool → Method → Exec S ℕ Info
system_info version am demo_mode mcp_auth config_source git_enabled method = do
  refuse_if (not (is_get method)) 405
  pure (record {
    version = version;
    auth_mode = if enabled am then "simple" else "off";
    demo_mode = demo_mode;
    mcp_auth = mcp_auth;
    config_source = if str_eq config_source "" then "builtin" else config_source;
    git_enabled = git_enabled;
  })

pub record Health : Type 0 where
  pub status : String
  pub db : String

abbrev pub db_status : Result Error (Unit {0}) → String
db_status (ok u) = "up"
db_status (err e) = "down"

abbrev pub report : Exec Db ℕ Health
report db = let (r, db') = ping db in (ok (record { status = "ok"; db = db_status r }), db')

-- The state of the database is a field, not a refusal.
unfoldable pub healthz : Method → Exec Db ℕ Health
healthz method = do refuse_if (not (is_get method)) 405; report
