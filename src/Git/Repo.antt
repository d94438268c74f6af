-- ===== src/Git/Repo.antt =====
-- internal/gitsource/gitsource.go: the queries, and the commands that they give to git. What git
-- answers to the n-th command is a parameter, and nothing stands for a failure or a timeout.
pub mod Safe
pub mod Log
pub mod Queries
use cadenza.Prelude.{
  ℕ, zero, suc, ◌+◌, ◌-◌, ◌*◌, ◌^◌, Bool, true, false, not, ◌&&◌, List, [], ◌∷◌, ◌++◌, Option, none,
  some, length, ltb, leb, ◌==◌, if◌then◌else◌, Bytes, bytes, bytes_eq, newline, trim_space, decimal,
  Exec, pure, raise, ◌>>=◌, ◌>>◌,
}
use cadenza.Git.{GitError, git_failed, odd_output, path_empty, validate_ref, validate_pathspec}
use mathlib.Core.List.{reverse}

pub record Commit : Type 0 where
  pub sha : Bytes
  pub short_sha : Bytes
  pub author : Bytes
  pub date : Bytes
  pub subject : Bytes
  pub path : Bytes

pub record Status : Type 0 where
  pub dir : Bytes
  pub ref : Bytes
  pub sha : Bytes
  pub short_sha : Bytes
  pub author : Bytes
  pub subject : Bytes
  pub committed_at : Bytes
  pub dirty : Bool

-- `commands` are those that git was given, the latest at the end.
pub record Repo : Type 0 where
  pub dir : Bytes
  pub cached : Option Status
  pub cached_at : ℕ
  pub commands : List (List Bytes)

abbrev pub cache_ttl : ℕ
cache_ttl = 10 * 10 ^ 9

abbrev pub head : Bytes
head = bytes "HEAD"

abbrev pub ref_or_head : Bytes → Bytes
ref_or_head ref = if bytes_eq ref [] then head else ref

abbrev pub check : Option GitError → Exec Repo GitError (Unit {0})
check none = pure tt
check (some e) = raise e

abbrev pub or_failed : Option Bytes → Exec Repo GitError Bytes
or_failed none = raise git_failed
or_failed (some out) = pure out

abbrev pub log_format : Bytes
log_format = bytes "--format=%H%x1f%h%x1f%an%x1f%aI%x1f%s"

abbrev pub prepend : ℕ → List Bytes → List Bytes
prepend c [] = (c ∷ []) ∷ []
prepend c (field ∷ fields) = (c ∷ field) ∷ fields

-- strings.SplitN by a byte
unfoldable pub split_fields : ℕ → ℕ → Bytes → List Bytes
split_fields sep zero s = []
split_fields sep (suc zero) s = s ∷ []
split_fields sep (suc (suc n)) [] = [] ∷ []
split_fields sep (suc (suc n)) (c ∷ s) =
    let cut = split_fields sep (suc n) s in
    let more = split_fields sep (suc (suc n)) s in if c == sep then [] ∷ cut else prepend c more

drop_newlines : Bytes → Bytes
drop_newlines [] = []
drop_newlines (c ∷ s) = let rest = drop_newlines s in if c == newline then rest else c ∷ s

-- strings.TrimRight(s, "\n")
unfoldable pub trim_newlines : Bytes → Bytes
unfolding drop_newlines
trim_newlines s = reverse (drop_newlines (reverse s))

abbrev pub separator : ℕ
separator = 31

-- The commit of a line of the log; a line with fewer than five fields is left out.
abbrev pub commit_of : Bytes → Bytes → List Commit
commit_of path line = elim (split_fields separator 5 line) [
  | sha ∷ short ∷ author ∷ date ∷ subject ∷ [] ↦
      record {
        sha = sha;
        short_sha = short;
        author = author;
        date = date;
        subject = subject;
        path = path;
      }
      ∷ []
  | _ ↦ []
]

unfoldable pub commits_of : Bytes → List Bytes → List Commit
unfolding split_fields
commits_of path [] = []
commits_of path (line ∷ lines) =
    let rest = commits_of path lines in
    if bytes_eq (trim_space line) [] then rest else commit_of path line ++ rest

abbrev pub clamp_limit : ℕ → ℕ
clamp_limit limit = if limit == 0 then 20 else if ltb 200 limit then 200 else limit

abbrev pub path_args : Bytes → List Bytes
path_args path = if bytes_eq path [] then [] else bytes "--" ∷ path ∷ []

abbrev pub or_odd : List Commit → Exec Repo GitError Commit
or_odd [] = raise odd_output
or_odd (c ∷ _) = pure c

abbrev pub status_from : Bytes → Commit → Bytes → Exec Repo GitError Status
status_from ref c porcelain r =
    pure
      (record {
        dir = r.dir;
        ref = ref;
        sha = c.sha;
        short_sha = c.short_sha;
        author = c.author;
        subject = c.subject;
        committed_at = c.date;
        dirty = not (bytes_eq (trim_space porcelain) []);
      })
      r

abbrev pub keep_status : Bytes → ℕ → Status → Exec Repo GitError Status
keep_status ref later st r =
    pure st (if bytes_eq ref head then record r { cached = some st; cached_at = later } else r)

abbrev pub fresh_status : Bytes → ℕ → Repo → Option Status
fresh_status ref now r =
    if bytes_eq ref head && ltb (now - r.cached_at) cache_ttl then r.cached else none

module _ (git : ℕ → List Bytes → Option Bytes) where
  unfoldable pub run : List Bytes → Exec Repo GitError Bytes
  run args r =
      let full = bytes "-C" ∷ r.dir ∷ bytes "--no-pager" ∷ args in
      or_failed (git (length r.commands) full) (record r { commands = r.commands ++ full ∷ [] })

  unfoldable pub resolve : Bytes → Exec Repo GitError Bytes
  resolve ref = do
    check (validate_ref ref)
    out ← run (bytes "rev-parse" ∷ bytes "--verify" ∷ (ref ++ bytes "^{commit}") ∷ [])
    pure (trim_space out)

  unfoldable pub show_file : Bytes → Bytes → Exec Repo GitError Bytes
  show_file given path = do
    let ref = ref_or_head given
    check (validate_ref ref)
    check (validate_pathspec path)
    check (if bytes_eq path [] then some path_empty else none)
    run (bytes "show" ∷ (ref ++ 58 ∷ path) ∷ [])

  unfoldable pub commits : Bytes → Bytes → ℕ → Exec Repo GitError (List Commit)
  unfolding commits_of
  commits given path limit = do
    check (validate_pathspec path)
    out ← run (
        bytes "log"
        ∷ bytes "--no-color"
        ∷ (bytes "-n" ++ decimal (clamp_limit limit))
        ∷ log_format
        ∷ ref_or_head given
        ∷ path_args path)
    pure (commits_of path (split_fields newline (suc (length out)) (trim_newlines out)))

  unfoldable pub query_status : Bytes → ℕ → Exec Repo GitError Status
  unfolding split_fields trim_newlines
  query_status ref later = do
    sha ← resolve ref
    out ← run (bytes "log" ∷ bytes "-1" ∷ bytes "--no-color" ∷ log_format ∷ sha ∷ [])
    c ← or_odd (commit_of [] (trim_newlines out))
    porcelain ← run (bytes "status" ∷ bytes "--porcelain" ∷ [])
    st ← status_from ref c porcelain
    keep_status ref later st

  abbrev pub or_query : Option Status → Bytes → ℕ → Exec Repo GitError Status
  or_query (some st) ref later = pure st
  or_query none ref later = query_status ref later

  abbrev pub cached_or_query : Bytes → ℕ → ℕ → Exec Repo GitError Status
  cached_or_query ref now later r = or_query (fresh_status ref now r) ref later r

  -- `now` is the time at which the cache is read and `later` that at which it is written.
  unfoldable pub status_of : Bytes → ℕ → ℕ → Exec Repo GitError Status
  status_of given now later = do
    let ref = ref_or_head given
    check (validate_ref ref)
    cached_or_query ref now later
