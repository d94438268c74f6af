-- ===== src/Git/Repo/Log.antt =====
-- internal/gitsource/gitsource.go: the ref of the history, which is not checked.
use cadenza.Prelude.{
  ℕ, ◌≢◌, newline, decimal, suc, ◌≡◌, refl, sym, ap, ◌∙◌, Bool, true, false, ◌&&◌, List, [], ◌∷◌,
  ◌++◌, Option, none, some, length, All, arith, Bytes, bytes, bytes_eq, is_one_of, pure, ◌>>=◌,
  subst,
}
use cadenza.Git.{validate_pathspec}
use cadenza.Git.Repo.{
  Repo, or_failed, log_format, run, commits, ref_or_head, trim_newlines, path_args, clamp_limit,
  commits_of, split_fields,
}
use cadenza.Git.Repo.Safe.{is_option, own_options, plain_args, reads_only, safe_command, IsSafe}

args_unsafe :
    (arg : Bytes) (before after : List Bytes)
    → is_option arg ≡ true
    → is_one_of arg own_options ≡ false
    → plain_args (before ++ arg ∷ after) ≡ false
unfolding plain_args
args_unsafe arg [] after option foreign = ground arith
args_unsafe arg (x ∷ before) after option foreign =
    ground (arith, args_unsafe arg before after option foreign)

last_of :
    (c : List Bytes) (cs : List (List Bytes))
    → All (λ (c : List Bytes). safe_command c ≡ true) (cs ++ c ∷ [])
    → safe_command c ≡ true
last_of c [] all = all.0
last_of c (d ∷ cs) all = last_of c cs all.1

reads_no : (b : Bool) → (b && false) ≡ false
reads_no b = ground arith

true≢false : true ≢ false
true≢false h = cc

-- A ref that is an option is not empty, and is used as it stands.
option_given : (ref : Bytes) → is_option ref ≡ true → ref_or_head ref ≡ ref
unfolding bytes_eq
option_given [] h = cc
option_given (c ∷ s) h = refl

-- The arguments of a log, behind the name of the command.
abbrev log_args : Bytes → Bytes → ℕ → List Bytes
log_args ref path limit =
    (bytes "--no-color" ∷ (bytes "-n" ++ decimal (clamp_limit limit)) ∷ log_format ∷ [])
    ++ ref ∷ path_args path

sends_log :
    (git : ℕ → List Bytes → Option Bytes) (ref path : Bytes) (limit : ℕ) (r : Repo)
    → validate_pathspec path ≡ none
    → (commits git ref path limit r).1.commands
      ≡ r.commands
        ++ (bytes "-C"
            ∷ r.dir
            ∷ bytes "--no-pager"
            ∷ bytes "log"
            ∷ log_args (ref_or_head ref) path limit)
          ∷ []
unfolding commits run
sends_log git ref path limit r accepted = rw accepted (go (git (length r.commands) _))
  where
    go :
        (o : Option Bytes)
        → ((or_failed o >>= λ out.
              pure (commits_of path (split_fields newline (suc (length out)) (trim_newlines out))))
            (record r {
              commands =
                  r.commands
                  ++ (bytes "-C"
                      ∷ r.dir
                      ∷ bytes "--no-pager"
                      ∷ bytes "log"
                      ∷ log_args (ref_or_head ref) path limit)
                    ∷ [];
            })).1.commands
          ≡ r.commands
            ++ (bytes "-C"
                ∷ r.dir
                ∷ bytes "--no-pager"
                ∷ bytes "log"
                ∷ log_args (ref_or_head ref) path limit)
              ∷ []
    go none = refl
    go (some out) = refl

-- `commits` is not like the other queries: it hands git any ref as it stands, so a ref that git
-- takes for an option, and that is none of the code's own, makes a command that is not safe.
pub commits-IsUnsafe :
    (git : ℕ → List Bytes → Option Bytes) (ref path : Bytes) (limit : ℕ) (r : Repo)
    → is_option ref ≡ true
    → is_one_of ref own_options ≡ false
    → validate_pathspec path ≡ none
    → ¬ IsSafe (commits git ref path limit r).1
commits-IsUnsafe git ref path limit r option foreign accepted safe =
    let sent =
      sends_log git ref path limit r accepted
      ∙ ap
          (λ a.
            r.commands
            ++ (bytes "-C" ∷ r.dir ∷ bytes "--no-pager" ∷ bytes "log" ∷ log_args a path limit) ∷ [])
          (option_given ref option) in
    let command =
      last_of _ r.commands (subst (All (λ (c : List Bytes). safe_command c ≡ true)) sent safe) in
    let args =
      args_unsafe ref
        (bytes "--no-color" ∷ (bytes "-n" ++ decimal (clamp_limit limit)) ∷ log_format ∷ [])
        (path_args path) option foreign in
    true≢false (sym command ∙ rw args (reads_no (reads_only (bytes "log"))))
