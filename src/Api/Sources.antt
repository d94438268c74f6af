-- ===== src/Api/Sources.antt =====
-- internal/api/apply.go and internal/api/handlers.go: a configuration that the server reads from a
-- repository, and the state in which the server and the repository stand side by side.
pub mod Safe
use cadenza.Prelude.{ℕ, String, Bool, not, List, Option, Exec, pure, ◌>>=◌, ◌>>◌, Bytes, bytes}
use cadenza.Git.{expand_pathspec}
use cadenza.Git.Repo.{Repo}
use cadenza.Agent.{Agent}
use cadenza.Api.Http.{refuse_if}
use cadenza.Api.Gits.{GitSettings, bad_request, read_file, the}

pub record Console : Type 0 where
  pub agent : Agent
  pub repo : Repo

abbrev pub on_agent : {A : Type 0} → Exec Agent ℕ A → Exec Console ℕ A
on_agent m c = let (x, a) = m c.agent in (x, record c { agent = a })

abbrev pub on_repo : {A : Type 0} → Exec Repo ℕ A → Exec Console ℕ A
on_repo m c = let (x, r) = m c.repo in (x, record c { repo = r })

-- What answers the commands, whether the server takes configurations from the repository, where
-- they are in it, and the text that some bytes are.
pub record Site : Type 0 where
  pub git : ℕ → List Bytes → Option Bytes
  pub enabled : Bool
  pub settings : GitSettings
  pub text : Bytes → String

-- A configuration, and the commit and path that it is from.
pub record Source : Type 0 where
  pub yaml : String
  pub sha : Bytes
  pub git_commit : String
  pub git_path : String

-- A configuration that is not from a repository.
abbrev pub own_source : String → Source
own_source yaml = record { yaml = yaml; sha = bytes ""; git_commit = ""; git_path = "" }

unfoldable pub git_source : Site → String → String → Exec Console ℕ Source
git_source site uid ref = do
  refuse_if (not site.enabled) 409
  path ← the (bad_request (expand_pathspec site.settings.git_config_pathspec (bytes uid)))
  found ← on_repo (read_file site.git (bytes ref) path)
  pure (record {
    yaml = site.text found.0;
    sha = found.1;
    git_commit = site.text found.1;
    git_path = site.text path;
  })
