-- ===== src/Examples/Settings.antt =====
-- internal/config: an environment that the program starts with.
use cadenza.Prelude.{refl, none, some, bytes, bytes_eq, trim_space, if◌then◌else◌}
use cadenza.Config.{
  Environment, load, settings, validate, validate_web, validate_git_ops, get_env, get_env_text,
  get_bool, split_csv,
}
use cadenza.Config.Closed.{IsGuarded, IsSourced, load-closed}

abbrev environment : Environment
environment key =
    if bytes_eq key (bytes "LLM_API_KEY")
    then some (bytes "key")
    else if bytes_eq key (bytes "WEB_ADMIN_PASSWORD_HASH")
    then some (bytes "hash")
    else if bytes_eq key (bytes "CONFIG_SOURCE")
    then some (bytes "git")
    else if bytes_eq key (bytes "GIT_REPO_DIR")
    then some (bytes "/srv/configs")
    else if bytes_eq key (bytes "GIT_CONFIG_PATHSPEC")
    then some (bytes "agents/{uid}.yaml")
    else none

load-closed_example : IsGuarded (settings environment).web × IsSourced (settings environment)
unfolding load validate validate_web validate_git_ops settings get_env get_env_text get_bool
    split_csv bytes_eq trim_space
load-closed_example = load-closed environment (settings environment) refl
