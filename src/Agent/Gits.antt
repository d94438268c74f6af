-- ===== src/Agent/Gits.antt =====
-- internal/agent/tools.go: what `get_git_config` reads from the repository.
use cadenza.Prelude.{
  ℕ, String, List, Option, Result, ok, err, Exec, pure, raise, ◌>>=◌, Bytes, bytes, str_eq,
  if◌then◌else◌,
}
use cadenza.Git.{GitError, expand_pathspec}
use cadenza.Git.Repo.{Repo, show_file, resolve}

-- What answers the commands, the settings, and the text that some bytes are.
pub record GitReader : Type 0 where
  pub git : ℕ → List Bytes → Option Bytes
  pub git_ref : Bytes
  pub git_config_pathspec : Bytes
  pub text : Bytes → String

-- A configuration in the repository, for an agent, with its commit and path.
pub record GitConfig : Type 0 where
  pub instance_uid : String
  pub ref : Bytes
  pub git_commit : Bytes
  pub git_path : Bytes
  pub yaml : String

abbrev pub given : {A : Type 0} → Result GitError A → Exec Repo GitError A
given (ok a) = pure a
given (err e) = raise e

unfoldable pub read_config : GitReader → String → String → Exec Repo GitError GitConfig
read_config g uid asked = do
  let ref = if str_eq asked "" then g.git_ref else bytes asked
  path ← given (expand_pathspec g.git_config_pathspec (bytes uid))
  content ← show_file g.git ref path
  sha ← resolve g.git ref
  pure (record {
    instance_uid = uid;
    ref = ref;
    git_commit = sha;
    git_path = path;
    yaml = g.text content;
  })
