-- ===== src/Api/Gits.antt =====
-- internal/api/git.go: the queries of the repository. A parameter of a query is empty where it is
-- missing. `git` answers the commands, and the settings are `none` where the server has none.
pub mod Safe
use cadenza.Prelude.{
  ℕ, Bool, true, false, not, List, [], Option, none, some, length, Result, ok, err, Exec, pure,
  raise, ◌>>=◌, ◌>>◌, Bytes, bytes_eq, trim_space, if◌then◌else◌,
}
use cadenza.Git.{GitError, expand_pathspec, parse_limit}
use cadenza.Git.Repo.{Repo, Commit, Status, status_of, commits, show_file, resolve}
use cadenza.Api.Http.{Method, is_get, refuse_if, or_refuse}

pub record GitSettings : Type 0 where
  pub git_ref : Bytes
  pub git_config_pathspec : Bytes

pub record CommitsQuery : Type 0 where
  pub path : Bytes
  pub ref : Bytes
  pub limit : Bytes
  pub instance_uid : Bytes

pub record FileQuery : Type 0 where
  pub ref : Bytes
  pub path : Bytes
  pub instance_uid : Bytes

pub record CommitsAnswer : Type 0 where
  pub items : List Commit
  pub total : ℕ
  pub path : Bytes
  pub ref : Bytes

pub record FileAnswer : Type 0 where
  pub ref : Bytes
  pub git_commit : Bytes
  pub path : Bytes
  pub yaml : Bytes

-- An error of the repository is 400.
abbrev pub bad_request : {A : Type 0} → Result GitError A → Result ℕ A
bad_request (ok a) = ok a
bad_request (err e) = err 400

abbrev pub or_bad : {A : Type 0} → Exec Repo GitError A → Exec Repo ℕ A
or_bad m r = (bad_request (m r).0, (m r).1)

abbrev pub configured_ref : Option GitSettings → Bytes
configured_ref none = []
configured_ref (some s) = s.git_ref

-- The ref that is asked for, or the configured one.
unfoldable pub ref_or_configured : Option GitSettings → Bytes → Bytes
ref_or_configured settings given =
    if bytes_eq (trim_space given) [] then configured_ref settings else trim_space given

-- The path of the template of the configuration for a collector.
unfoldable pub path_of_collector : Option GitSettings → Bytes → Result ℕ Bytes
path_of_collector none uid = err 400
path_of_collector (some s) uid = bad_request (expand_pathspec s.git_config_pathspec uid)

-- The path that is asked for, or that of the collector that is.
unfoldable pub path_or_collector : Option GitSettings → Bytes → Bytes → Result ℕ Bytes
unfolding path_of_collector
path_or_collector settings path uid =
    if not (bytes_eq (trim_space path) [])
    then ok (trim_space path)
    else if bytes_eq (trim_space uid) []
    then err 400
    else path_of_collector settings (trim_space uid)

-- The content and the commit of a ref are two commands.
unfoldable pub read_file :
    (ℕ → List Bytes → Option Bytes) → Bytes → Bytes → Exec Repo ℕ (Bytes × Bytes)
read_file git ref path = do
  content ← or_bad (show_file git ref path)
  sha ← or_bad (resolve git ref)
  pure (content, sha)

abbrev pub the : {S A : Type 0} → Result ℕ A → Exec S ℕ A
the (ok a) = pure a
the (err code) = raise code

-- `enabled` says whether the server has a repository and takes configurations from it.
module _ (git : ℕ → List Bytes → Option Bytes) (enabled : Bool)
    (settings : Option GitSettings) where
  unfoldable pub git_status_request : Method → Bytes → ℕ → ℕ → Exec Repo ℕ Status
  unfolding ref_or_configured
  git_status_request method ref now later = do
    refuse_if (not (is_get method)) 405
    refuse_if (not enabled) 409
    or_bad (status_of git (ref_or_configured settings ref) now later)

  unfoldable pub git_commits_request : Method → CommitsQuery → Exec Repo ℕ CommitsAnswer
  unfolding ref_or_configured path_or_collector
  git_commits_request method q = do
    refuse_if (not (is_get method)) 405
    refuse_if (not enabled) 409
    limit ← the (bad_request (parse_limit q.limit 20))
    path ← the (path_or_collector settings q.path q.instance_uid)
    items ← or_bad (commits git (ref_or_configured settings q.ref) path limit)
    pure (record {
      items = items;
      total = length items;
      path = path;
      ref = ref_or_configured settings q.ref;
    })

  unfoldable pub git_file_request : Method → FileQuery → Exec Repo ℕ FileAnswer
  unfolding ref_or_configured path_or_collector read_file
  git_file_request method q = do
    refuse_if (not (is_get method)) 405
    refuse_if (not enabled) 409
    path ← the (path_or_collector settings q.path q.instance_uid)
    found ← read_file git (ref_or_configured settings q.ref) path
    pure (record {
      ref = ref_or_configured settings q.ref;
      git_commit = found.1;
      path = path;
      yaml = found.0;
    })
