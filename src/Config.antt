-- ===== src/Config.antt =====
-- internal/config/config.go: the settings that the program reads from its environment.
pub mod Closed
pub mod Csv
use cadenza.Prelude.{
  Bool, true, false, not, ◌&&◌, ◌||◌, List, [], ◌∷◌, Option, none, some, Result, ok, err, keep,
  Bytes, bytes, bytes_eq, is_one_of, trim_space, ◌==◌, if◌then◌else◌,
}

-- os.LookupEnv
abbrev pub Environment : Type 0
Environment = Bytes → Option Bytes

pub record WebConfig : Type 0 where
  pub disable_web : Bool
  pub dir : Bytes
  pub auth_mode : Bytes
  pub admin_user : Bytes
  pub admin_password_hash : Bytes
  pub cors_allowed_origins : List Bytes
  pub demo_mode : Bool

-- The addresses, keys and names of the three models.
pub record LlmConfig : Type 0 where
  pub base_url : Bytes
  pub api_key : Bytes
  pub model : Bytes
  pub backup_base_url : Bytes
  pub backup_api_key : Bytes
  pub backup_model : Bytes
  pub local_base_url : Bytes
  pub local_model : Bytes

pub record Config : Type 0 where
  pub http_addr : Bytes
  pub db_driver : Bytes
  pub db_dsn : Bytes
  pub db_sqlite_path : Bytes
  pub opamp_auth_token : Bytes
  pub mcp_auth_token : Bytes
  pub otelcol_bin : Bytes
  pub strict_validate : Bool
  pub llm : LlmConfig
  pub require_approval : Bool
  pub config_source : Bytes
  pub git_repo_dir : Bytes
  pub git_config_pathspec : Bytes
  pub git_ref : Bytes
  pub web : WebConfig

pub data ConfigError : Type 0 where
  driver_unknown dsn_required api_key_required base_url_required : ConfigError
  admin_user_empty password_hash_required auth_mode_unknown : ConfigError
  repo_dir_required pathspec_required source_unknown : ConfigError

-- os.Getenv
unfoldable pub get_env_text : Environment → Bytes → Bytes
get_env_text env key = elim (env key) [ none ↦ [] | some v ↦ v ]

unfoldable pub get_env : Environment → Bytes → Bytes → Bytes
get_env env key default_value = elim (env key) [
  | none ↦ default_value
  | some v ↦ if bytes_eq v [] then default_value else v
]

abbrev pub true_words : List Bytes
true_words = bytes "1" ∷ bytes "t" ∷ bytes "T" ∷ bytes "TRUE" ∷ bytes "true" ∷ bytes "True" ∷ []

abbrev pub false_words : List Bytes
false_words = bytes "0" ∷ bytes "f" ∷ bytes "F" ∷ bytes "FALSE" ∷ bytes "false" ∷ bytes "False" ∷ []

-- strconv.ParseBool
unfoldable pub parse_bool : Bytes → Option Bool
parse_bool v =
    if is_one_of v true_words
    then some true
    else if is_one_of v false_words
    then some false
    else none

unfoldable pub get_bool : Environment → Bytes → Bool → Bool
unfolding parse_bool
get_bool env key default_value = elim (env key) [
  | none ↦ default_value
  | some v ↦ elim (parse_bool v) [ none ↦ default_value | some b ↦ b ]
]

-- strings.Split at commas
unfoldable pub split_comma : Bytes → List Bytes
split_comma [] = [] ∷ []
split_comma (c ∷ s) = elim (split_comma s) [
  | [] ↦ [] ∷ []
  | part ∷ parts ↦ if c == 44 then [] ∷ part ∷ parts else (c ∷ part) ∷ parts
]

unfoldable pub trimmed_parts : List Bytes → List Bytes
trimmed_parts [] = []
trimmed_parts (p ∷ ps) =
    let rest = trimmed_parts ps in if bytes_eq (trim_space p) [] then rest else trim_space p ∷ rest

unfoldable pub split_csv : Bytes → List Bytes
unfolding split_comma trimmed_parts
split_csv s = if bytes_eq s [] then [] else trimmed_parts (split_comma s)

unfoldable pub validate_git_ops : Config → Result ConfigError Config
validate_git_ops c =
    if bytes_eq c.config_source []
    then ok (record c { config_source = bytes "builtin" })
    else if bytes_eq c.config_source (bytes "builtin")
    then ok c
    else if not (bytes_eq c.config_source (bytes "git"))
    then err source_unknown
    else if bytes_eq (trim_space c.git_repo_dir) []
    then err repo_dir_required
    else if bytes_eq (trim_space c.git_config_pathspec) []
    then err pathspec_required
    else if bytes_eq c.git_ref []
    then ok (record c { git_ref = bytes "HEAD" })
    else ok c

-- The error, if there is one.
unfoldable pub validate_web : WebConfig → Option ConfigError
validate_web w =
    if bytes_eq w.auth_mode (bytes "simple")
    then if w.disable_web
      then none
      else if bytes_eq w.admin_user []
      then some admin_user_empty
      else if bytes_eq w.admin_password_hash []
      then some password_hash_required
      else none
    else if bytes_eq w.auth_mode (bytes "off")
    then none
    else some auth_mode_unknown

-- The settings with the defaults that the checks fill in, or the first error.
unfoldable pub validate : Config → Result ConfigError Config
unfolding validate_web validate_git_ops
validate c =
    if not (is_one_of c.db_driver (bytes "mysql" ∷ bytes "sqlite" ∷ []))
    then err driver_unknown
    else if bytes_eq c.db_driver (bytes "mysql") && bytes_eq c.db_dsn []
    then err dsn_required
    else if bytes_eq c.llm.api_key [] && bytes_eq c.llm.backup_api_key []
    then err api_key_required
    else if bytes_eq c.llm.base_url []
    then err base_url_required
    else elim (validate_web c.web) [ some e ↦ err e | none ↦ validate_git_ops c ]

unfoldable pub settings : Environment → Config
unfolding get_env get_env_text get_bool split_csv
settings env = record {
  http_addr = get_env env (bytes "HTTP_ADDR") (bytes ":8080");
  db_driver = get_env env (bytes "DB_DRIVER") (bytes "sqlite");
  db_dsn = get_env env (bytes "DB_DSN") [];
  db_sqlite_path = get_env env (bytes "DB_SQLITE_PATH") (bytes "./data/opamp.db");
  opamp_auth_token = get_env_text env (bytes "OPAMP_AUTH_TOKEN");
  mcp_auth_token = get_env_text env (bytes "MCP_AUTH_TOKEN");
  otelcol_bin = get_env env (bytes "OTELCOL_BIN") (bytes "/usr/local/bin/otelcol-contrib");
  strict_validate = get_bool env (bytes "STRICT_VALIDATE") false;
  require_approval = get_bool env (bytes "REQUIRE_APPROVAL") true;
  config_source = get_env env (bytes "CONFIG_SOURCE") (bytes "builtin");
  git_repo_dir = get_env_text env (bytes "GIT_REPO_DIR");
  git_config_pathspec = get_env_text env (bytes "GIT_CONFIG_PATHSPEC");
  git_ref = get_env env (bytes "GIT_REF") (bytes "HEAD");
  web = record {
    disable_web = get_bool env (bytes "DISABLE_WEB") false;
    dir = get_env_text env (bytes "WEB_DIR");
    auth_mode = get_env env (bytes "WEB_AUTH_MODE") (bytes "simple");
    admin_user = get_env env (bytes "WEB_ADMIN_USER") (bytes "admin");
    admin_password_hash = get_env_text env (bytes "WEB_ADMIN_PASSWORD_HASH");
    cors_allowed_origins = split_csv (get_env_text env (bytes "CORS_ALLOWED_ORIGINS"));
    demo_mode = get_bool env (bytes "DEMO_MODE") false;
  };
  llm = record {
    base_url = get_env env (bytes "LLM_BASE_URL") (bytes "https://api.deepseek.com");
    api_key = get_env_text env (bytes "LLM_API_KEY");
    model = get_env env (bytes "LLM_MODEL") (bytes "deepseek-chat");
    backup_base_url = get_env_text env (bytes "LLM_BACKUP_BASE_URL");
    backup_api_key = get_env_text env (bytes "LLM_BACKUP_API_KEY");
    backup_model = get_env_text env (bytes "LLM_BACKUP_MODEL");
    local_base_url = get_env_text env (bytes "LLM_LOCAL_BASE_URL");
    local_model = get_env_text env (bytes "LLM_LOCAL_MODEL");
  };
}

unfoldable pub load : Environment → Result ConfigError Config
unfolding settings validate
load env = validate (settings env)
