-- ===== src/Git/Repo/Queries.antt =====
-- internal/gitsource/gitsource.go: any sequence of queries.
use cadenza.Prelude.{ℕ, List, [], ◌∷◌, Option, Bytes}
use cadenza.Git.Repo.{Repo, resolve, show_file, status_of}
use cadenza.Git.Repo.Safe.{IsSafe, PrintsNames, Keeps-resolve, Keeps-show_file, Keeps-status_of}

-- A query of the console.
pub data Query : Type 0 where
  status_query : Bytes → ℕ → ℕ → Query
  resolve_query : Bytes → Query
  file_query : Bytes → Bytes → Query

abbrev pub run_query : (ℕ → List Bytes → Option Bytes) → Query → Repo → Repo
run_query git (status_query ref now later) r = (status_of git ref now later r).1
run_query git (resolve_query ref) r = (resolve git ref r).1
run_query git (file_query ref path) r = (show_file git ref path r).1

pub run_queries : (ℕ → List Bytes → Option Bytes) → List Query → Repo → Repo
run_queries git [] r = r
run_queries git (q ∷ qs) r = run_queries git qs (run_query git q r)

run_query-IsSafe :
    (git : ℕ → List Bytes → Option Bytes)
    → PrintsNames git
    → (q : Query) (r : Repo) → IsSafe r
    → IsSafe (run_query git q r)
run_query-IsSafe git names (status_query ref now later) r h =
    (Keeps-status_of git names ref now later).at r h
run_query-IsSafe git names (resolve_query ref) r h = (Keeps-resolve git ref).at r h
run_query-IsSafe git names (file_query ref path) r h = (Keeps-show_file git ref path).at r h

-- Whatever refs and paths are asked for, statuses, resolved refs and files make git run reading
-- commands only, and none of their arguments is an option that the code did not write out, if
-- `rev-parse --verify` never prints something that starts as an option does.
pub run_queries-IsSafe :
    (git : ℕ → List Bytes → Option Bytes)
    → PrintsNames git
    → (qs : List Query) (r : Repo) → IsSafe r
    → IsSafe (run_queries git qs r)
unfolding run_queries
run_queries-IsSafe git names [] r h = h
run_queries-IsSafe git names (q ∷ qs) r h =
    run_queries-IsSafe git names qs (run_query git q r) (run_query-IsSafe git names q r h)
