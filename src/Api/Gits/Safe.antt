-- ===== src/Api/Gits/Safe.antt =====
-- internal/api/git.go: the arguments that reach git from a request.
use cadenza.Prelude.{ℕ, Bool, not, List, Option, Result, ok, err, Exec, Bytes, Keeps, Keeps-bind}
use cadenza.Git.{GitError}
use cadenza.Git.Repo.{Repo, status_of, show_file, resolve}
use cadenza.Git.Repo.Safe.{IsSafe, PrintsNames, Keeps-resolve, Keeps-show_file, Keeps-status_of}
use cadenza.Api.Http.{Method, is_get}
use cadenza.Api.Http.Steps.{Keeps-answer, Keeps-guard}
use cadenza.Api.Gits.{
  GitSettings, FileQuery, or_bad, the, ref_or_configured, path_or_collector, git_status_request,
  read_file, git_file_request,
}

-- A request for the state of the repository or for a file, with the times of the cache.
pub data GitRequest : Type 0 where
  for_status : Method → Bytes → ℕ → ℕ → GitRequest
  for_file : Method → FileQuery → GitRequest

Keeps-the : {A : Type 0} (x : Result ℕ A) → Keeps IsSafe (the x)
Keeps-the (ok a) = record { at = λ r h. h }
Keeps-the (err code) = record { at = λ r h. h }

Keeps-or_bad : {A : Type 0} (m : Exec Repo GitError A) → Keeps IsSafe m → Keeps IsSafe (or_bad m)
Keeps-or_bad m h = record { at = h.at }

pub Keeps-read_file :
    (git : ℕ → List Bytes → Option Bytes) (ref path : Bytes) → Keeps IsSafe (read_file git ref path)
unfolding read_file
Keeps-read_file git ref path =
    Keeps-bind (or_bad (show_file git ref path)) _
      (Keeps-or_bad (show_file git ref path) (Keeps-show_file git ref path))
      (λ content.
        Keeps-bind (or_bad (resolve git ref)) _
          (Keeps-or_bad (resolve git ref) (Keeps-resolve git ref))
          (λ sha. Keeps-answer IsSafe (content, sha)))

module _ (git : ℕ → List Bytes → Option Bytes) (enabled : Bool)
    (settings : Option GitSettings) where
  Keeps-status :
      PrintsNames git
      → (method : Method) (ref : Bytes) (now later : ℕ)
      → Keeps IsSafe (git_status_request git enabled settings method ref now later)
  unfolding git_status_request
  Keeps-status names method ref now later =
      let asked = ref_or_configured settings ref in
      Keeps-guard IsSafe (not (is_get method)) 405 _ (
        Keeps-guard IsSafe (not enabled) 409 _ (
          Keeps-or_bad (status_of git asked now later) (Keeps-status_of git names asked now later)))

  Keeps-file :
      (method : Method) (q : FileQuery)
      → Keeps IsSafe (git_file_request git enabled settings method q)
  unfolding git_file_request
  Keeps-file method q =
      let path = path_or_collector settings q.path q.instance_uid in
      Keeps-guard IsSafe (not (is_get method)) 405 _ (
        Keeps-guard IsSafe (not enabled) 409 _ (
          Keeps-bind (the path) _ (Keeps-the path) (λ p.
            Keeps-bind (read_file git (ref_or_configured settings q.ref) p) _
              (Keeps-read_file git (ref_or_configured settings q.ref) p)
              (λ found. Keeps-answer IsSafe _))))

  unfoldable pub answer_request : GitRequest → Repo → Repo
  answer_request (for_status method ref now later) r =
      (git_status_request git enabled settings method ref now later r).1
  answer_request (for_file method q) r = (git_file_request git enabled settings method q r).1

  pub IsSafe-answer_request :
      PrintsNames git → (q : GitRequest) (r : Repo) → IsSafe r → IsSafe (answer_request q r)
  unfolding answer_request
  IsSafe-answer_request names (for_status method ref now later) r h =
      (Keeps-status names method ref now later).at r h
  IsSafe-answer_request names (for_file method q) r h = (Keeps-file method q).at r h
