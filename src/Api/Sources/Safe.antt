-- ===== src/Api/Sources/Safe.antt =====
-- internal/api and internal/agent/tools.go: the arguments that reach git, whatever asks for the
-- repository.
use cadenza.Prelude.{
  ℕ, String, Bool, true, false, not, if◌then◌else◌, ◌||◌, List, [], ◌∷◌, Option, some, Result, ok,
  err, Exec, bytes, pure, Keeps, Keeps-bind, Keeps-if, str_eq,
}
use cadenza.Git.{GitError, expand_pathspec}
use cadenza.Git.Repo.{Repo, show_file, resolve}
use cadenza.Git.Repo.Safe.{IsSafe, PrintsNames, Keeps-show_file, Keeps-resolve}
use cadenza.Agent.Gits.{GitReader, given, read_config}
use cadenza.Agent.{Agent}
use cadenza.Agent.Tools.{Deps}
use cadenza.Api.Http.{Method, is_post}
use cadenza.Api.Http.Steps.{Keeps-answer, Keeps-guard, Keeps-given as Keeps-given_body}
use cadenza.Api.Gits.{bad_request, read_file, the}
use cadenza.Api.Gits.Safe.{GitRequest, Keeps-read_file, answer_request, IsSafe-answer_request}
use cadenza.Api.Sources.{Console, on_agent, on_repo, Site, own_source, git_source}
use cadenza.Api.Changes.{ApplyRequest, apply_request, submit_apply}
use cadenza.Api.Changes.Rollback.{
  RollbackRequest, rollback_request, rollback_version, rollback_commit, commit_or_ref,
}

abbrev pub AreSafe : Console → Type 0
AreSafe c = IsSafe c.repo

Keeps-on_agent : {A : Type 0} (m : Exec Agent ℕ A) → Keeps AreSafe (on_agent m)
Keeps-on_agent m = record { at = λ c h. h }

Keeps-on_repo : {A : Type 0} (m : Exec Repo ℕ A) → Keeps IsSafe m → Keeps AreSafe (on_repo m)
Keeps-on_repo m k = record { at = λ c h. k.at c.repo h }

Keeps-the : {A : Type 0} (x : Result ℕ A) → Keeps AreSafe (the x)
Keeps-the (ok a) = record { at = λ c h. h }
Keeps-the (err code) = record { at = λ c h. h }

Keeps-git_source : (site : Site) (uid ref : String) → Keeps AreSafe (git_source site uid ref)
unfolding git_source
Keeps-git_source site uid ref = Keeps-guard AreSafe (not site.enabled) 409 _ (
    let path = bad_request (expand_pathspec site.settings.git_config_pathspec (bytes uid)) in
    Keeps-bind (the path) _ (Keeps-the path) (λ p.
      Keeps-bind (on_repo (read_file site.git (bytes ref) p)) _
        (Keeps-on_repo (read_file site.git (bytes ref) p) (Keeps-read_file site.git (bytes ref) p))
        (λ found. Keeps-answer AreSafe _)))

Keeps-rollback_request :
    (valid : String → Bool) (site : Site) (id : String) (method : Method) (username : String)
    (body : Option RollbackRequest)
    → Keeps AreSafe (rollback_request valid site id method username body)
unfolding rollback_request
Keeps-rollback_request valid site id method username body =
    Keeps-guard AreSafe (not (is_post method)) 405 _ (
      Keeps-given_body AreSafe 400 body _ (λ req.
        let uid = req.collector_instance_uid in
        let ref = commit_or_ref req in
        Keeps-guard AreSafe (str_eq uid "") 400 _ (
          Keeps-if AreSafe (not (str_eq req.git_ref "") || not (str_eq req.git_commit "")) _ _
            (λ _. Keeps-bind (git_source site uid ref) _ (Keeps-git_source site uid ref) (λ source.
              Keeps-on_agent (rollback_commit valid site.text id username req ref source)))
            (λ _. Keeps-on_agent (rollback_version valid id req)))))

Keeps-apply_request :
    (d : Deps) (site : Site) (id : String) (method : Method) (username : String)
    (body : Option ApplyRequest)
    → Keeps AreSafe
        (apply_request d.hash d.covers d.valid d.require_approval site id method username body)
unfolding apply_request
Keeps-apply_request d site id method username body =
    Keeps-guard AreSafe (not (is_post method)) 405 _ (
      Keeps-given_body AreSafe 400 body _ (λ req.
        let uid = req.collector_instance_uid in
        Keeps-guard AreSafe (str_eq uid "") 400 _ (
          Keeps-bind _ _
            (Keeps-if AreSafe (str_eq req.git_ref "") (pure (own_source req.yaml))
              (git_source site uid req.git_ref) (λ _. Keeps-answer AreSafe (own_source req.yaml))
              (λ _. Keeps-git_source site uid req.git_ref))
            (λ source.
              Keeps-on_agent
                (submit_apply d.hash d.covers d.valid d.require_approval id username req source)))))

Keeps-given : {A : Type 0} (x : Result GitError A) → Keeps IsSafe (given x)
Keeps-given (ok a) = record { at = λ r h. h }
Keeps-given (err e) = record { at = λ r h. h }

Keeps-read_config : (g : GitReader) (uid asked : String) → Keeps IsSafe (read_config g uid asked)
unfolding read_config
Keeps-read_config g uid asked =
    let ref = if str_eq asked "" then g.git_ref else bytes asked in
    let path = expand_pathspec g.git_config_pathspec (bytes uid) in
    Keeps-bind (given path) _ (Keeps-given path) (λ p.
      Keeps-bind (show_file g.git ref p) _ (Keeps-show_file g.git ref p) (λ content.
        Keeps-bind (resolve g.git ref) _ (Keeps-resolve g.git ref)
          (λ sha. record { at = λ r h. h })))

-- What may ask for the repository: an application or a rollback, the queries, and the tool that
-- reads a configuration of an agent, which chats and clients of MCP call.
pub data RepoUse : Type 0 where
  apply : String → Method → String → Option ApplyRequest → RepoUse
  rollback : String → Method → String → Option RollbackRequest → RepoUse
  query : GitRequest → RepoUse
  tool_read : String → String → RepoUse

module _ (d : Deps) (site : Site) where
  abbrev pub reader : GitReader
  reader = record {
    git = site.git;
    git_ref = site.settings.git_ref;
    git_config_pathspec = site.settings.git_config_pathspec;
    text = site.text;
  }

  unfoldable pub use_repo : RepoUse → Console → Console
  use_repo (apply id method username body) c =
      (apply_request d.hash d.covers d.valid d.require_approval site id method username body c).1
  use_repo (rollback id method username body) c =
      (rollback_request d.valid site id method username body c).1
  use_repo (query q) c = record c {
    repo = answer_request site.git site.enabled (some site.settings) q c.repo;
  }
  use_repo (tool_read uid asked) c =
      if site.enabled then record c { repo = (read_config reader uid asked c.repo).1 } else c

  pub use_all : List RepoUse → Console → Console
  unfolding use_repo
  use_all [] c = c
  use_all (u ∷ us) c = use_all us (use_repo u c)

  AreSafe-use_repo :
      PrintsNames site.git → (u : RepoUse) (c : Console) → AreSafe c → AreSafe (use_repo u c)
  unfolding use_repo
  AreSafe-use_repo names (apply id method username body) c h =
      (Keeps-apply_request d site id method username body).at c h
  AreSafe-use_repo names (rollback id method username body) c h =
      (Keeps-rollback_request d.valid site id method username body).at c h
  AreSafe-use_repo names (query q) c h =
      IsSafe-answer_request site.git site.enabled (some site.settings) names q c.repo h
  AreSafe-use_repo names (tool_read uid asked) c h = go site.enabled
    where
      go :
          (b : Bool)
          → AreSafe (if b then record c { repo = (read_config reader uid asked c.repo).1 } else c)
      go true = (Keeps-read_config reader uid asked).at c.repo h
      go false = h

  -- Whatever applications and rollbacks the console is asked for, whatever statuses and files of
  -- the repository, and whatever configurations the tool `get_git_config` reads, with any ref, path
  -- and collector, git runs reading commands only, and none of their arguments is an option that
  -- the code did not write out, if `rev-parse --verify` never prints something that starts as an
  -- option does.
  pub use_all-AreSafe :
      PrintsNames site.git → (us : List RepoUse) (c : Console) → AreSafe c → AreSafe (use_all us c)
  unfolding use_all
  use_all-AreSafe names [] c h = h
  use_all-AreSafe names (u ∷ us) c h =
      use_all-AreSafe names us (use_repo u c) (AreSafe-use_repo names u c h)
