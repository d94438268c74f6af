-- ===== src/Git/Repo/Safe.antt =====
-- internal/gitsource/gitsource.go: the arguments that reach git.
use cadenza.Prelude.{
  ℕ, ◌≡◌, refl, Bool, true, false, not, ◌&&◌, ◌||◌, List, [], ◌∷◌, ◌++◌, Option, none, some, length,
  All, if◌then◌else◌, arith, Bytes, bytes, bytes_eq, is_one_of, trim_space, Exec, pure, raise,
  ◌>>=◌, ◌>>◌, Keeps, Keeps-bind, Keeps-bind_with, ok, Result, subst,
}
use cadenza.Git.{GitError, validate_ref, validate_pathspec, has_prefix, matches_ref_pattern}
use cadenza.Git.Repo.{
  Repo, Status, Commit, check, or_failed, log_format, run, resolve, show_file, status_of,
  query_status, fresh_status, or_query, cached_or_query, ref_or_head, head, or_odd, commit_of,
  trim_newlines,
}

-- What git takes for an option.
abbrev pub is_option : Bytes → Bool
is_option arg = has_prefix (45 ∷ []) arg

abbrev pub own_options : List Bytes
own_options =
    bytes "--verify"
    ∷ bytes "-1"
    ∷ bytes "--no-color"
    ∷ log_format
    ∷ bytes "--porcelain"
    ∷ bytes "--"
    ∷ []

-- Every argument that git takes for an option is one that the code wrote out.
unfoldable pub plain_args : List Bytes → Bool
plain_args [] = true
plain_args (arg ∷ args) = (not (is_option arg) || is_one_of arg own_options) && plain_args args

abbrev pub reads_only : Bytes → Bool
reads_only sub =
    is_one_of sub (bytes "rev-parse" ∷ bytes "log" ∷ bytes "show" ∷ bytes "status" ∷ [])

-- A command that reads, with no option that came from outside.
abbrev pub safe_command : List Bytes → Bool
safe_command (flag ∷ dir ∷ pager ∷ sub ∷ args) = reads_only sub && plain_args args
safe_command _ = false

abbrev pub IsSafe : Repo → Type 0
IsSafe r = All (λ (c : List Bytes). safe_command c ≡ true) r.commands

All-append :
    (c : List Bytes) (cs : List (List Bytes))
    → All (λ (c : List Bytes). safe_command c ≡ true) cs
    → safe_command c ≡ true
    → All (λ (c : List Bytes). safe_command c ≡ true) (cs ++ c ∷ [])
All-append c [] all one = (one, tt)
All-append c (d ∷ cs) (here, all) one = (here, All-append c cs all one)

Keeps-raise : {A : Type 0} (e : GitError) → Keeps IsSafe (raise {A = A} e)
Keeps-raise e = record { at = λ r h. h }

Keeps-pure : {A : Type 0} (a : A) → Keeps IsSafe (pure {E = GitError} a)
Keeps-pure a = record { at = λ r h. h }

Keeps-or_odd : (found : List Commit) → Keeps IsSafe (or_odd found)
Keeps-or_odd [] = record { at = λ r h. h }
Keeps-or_odd (c ∷ rest) = record { at = λ r h. h }

-- What follows a check may rely on it.
Keeps-check :
    {A : Type 0} (o : Option GitError) (m : Exec Repo GitError A)
    → (o ≡ none → Keeps IsSafe m)
    → Keeps IsSafe (check o >> m)
Keeps-check none m k = record { at = λ r h. (k refl).at r h }
Keeps-check (some e) m k = record { at = λ r h. h }

validate_ref-pattern : (ref : Bytes) → validate_ref ref ≡ none → matches_ref_pattern ref ≡ true
unfolding validate_ref
validate_ref-pattern ref h = ground arith

-- A ref that is accepted starts with a letter or a digit.
pub validate_ref-start :
    (ref tail : Bytes) → validate_ref ref ≡ none → is_option (ref ++ tail) ≡ false
unfolding matches_ref_pattern
validate_ref-start ref tail h = go ref (validate_ref-pattern ref h)
  where
    go : (ref : Bytes) → matches_ref_pattern ref ≡ true → is_option (ref ++ tail) ≡ false
    go [] k = cc
    go (c ∷ s) k = ground arith

same_answer : (s t : Bytes) → ◌≡◌ {A = Result GitError Bytes} (ok s) (ok t) → s ≡ t
same_answer s t h = cc

module _ (git : ℕ → List Bytes → Option Bytes) where
  Keeps-run :
      (sub : Bytes) (args : List Bytes)
      → (reads_only sub && plain_args args) ≡ true
      → Keeps IsSafe (run git (sub ∷ args))
  unfolding run
  Keeps-run sub args safe = record { at = λ r h. after r h (git (length r.commands) _) }
    where
      after :
          (r : Repo)
          → IsSafe r
          → (o : Option Bytes)
          → IsSafe
              (or_failed o (record r {
                commands =
                    r.commands ++ (bytes "-C" ∷ r.dir ∷ bytes "--no-pager" ∷ sub ∷ args) ∷ [];
              })).1
      after r h none = All-append _ r.commands h safe
      after r h (some out) = All-append _ r.commands h safe

  pub Keeps-resolve : (ref : Bytes) → Keeps IsSafe (resolve git ref)
  unfolding resolve plain_args bytes_eq
  Keeps-resolve ref = Keeps-check (validate_ref ref) _ (λ h.
      Keeps-bind _ _
        (Keeps-run (bytes "rev-parse") (bytes "--verify" ∷ (ref ++ bytes "^{commit}") ∷ [])
          (rw (validate_ref-start ref (bytes "^{commit}") h) refl))
        (λ out. Keeps-pure (trim_space out)))

  pub Keeps-show_file : (ref path : Bytes) → Keeps IsSafe (show_file git ref path)
  unfolding show_file plain_args bytes_eq
  Keeps-show_file given path =
      let ref = ref_or_head given in
      Keeps-check (validate_ref ref) _ (λ h. Keeps-check (validate_pathspec path) _ (λ _.
        Keeps-check _ _ (λ _.
          Keeps-run (bytes "show") ((ref ++ 58 ∷ path) ∷ [])
            (rw (validate_ref-start ref (58 ∷ path) h) refl))))

  -- `rev-parse --verify` prints the name of an object, which is not taken for an option.
  abbrev pub PrintsNames : Type 0
  PrintsNames =
      (n : ℕ) (dir arg out : Bytes)
      → git n
          (bytes "-C" ∷ dir ∷ bytes "--no-pager" ∷ bytes "rev-parse" ∷ bytes "--verify" ∷ arg ∷ [])
        ≡ some out
      → is_option (trim_space out) ≡ false

  resolve-plain :
      (ref : Bytes)
      → PrintsNames
      → (r : Repo) (sha : Bytes) → (resolve git ref r).0 ≡ ok sha
      → is_option sha ≡ false
  unfolding resolve run
  resolve-plain ref names r sha h = go (validate_ref ref) h
    where
      full : List Bytes
      full =
          bytes "-C"
          ∷ r.dir
          ∷ bytes "--no-pager"
          ∷ bytes "rev-parse"
          ∷ bytes "--verify"
          ∷ (ref ++ bytes "^{commit}")
          ∷ []

      answered :
          (a : Option Bytes)
          → git (length r.commands) full ≡ a
          → ((or_failed a >>= λ out. pure (trim_space out))
              (record r { commands = r.commands ++ full ∷ [] })).0
            ≡ ok sha
          → is_option sha ≡ false
      answered none e k = cc
      answered (some out) e k =
          subst (λ s. is_option s ≡ false) (same_answer _ _ k) (names _ _ _ out e)

      go :
          (o : Option GitError)
          → ((check o
                >> (run git (bytes "rev-parse" ∷ bytes "--verify" ∷ (ref ++ bytes "^{commit}") ∷ [])
                    >>= λ out. pure (trim_space out)))
              r).0
            ≡ ok sha
          → is_option sha ≡ false
      go none k = answered (git (length r.commands) full) refl k
      go (some e) k = cc

  Keeps-query_status :
      PrintsNames → (ref : Bytes) (later : ℕ) → Keeps IsSafe (query_status git ref later)
  unfolding query_status plain_args bytes_eq
  Keeps-query_status names ref later =
      Keeps-bind_with _ _ (λ sha. is_option sha ≡ false) (Keeps-resolve ref)
        (resolve-plain ref names)
        (λ sha plain.
          Keeps-bind _ _
            (Keeps-run (bytes "log") (bytes "-1" ∷ bytes "--no-color" ∷ log_format ∷ sha ∷ [])
              (rw plain refl))
            (λ out. Keeps-bind _ _ (Keeps-or_odd (commit_of [] (trim_newlines out))) (λ c.
              Keeps-bind _ _ (Keeps-run (bytes "status") (bytes "--porcelain" ∷ []) refl)
                (λ porcelain. record { at = λ r h. kept r h (bytes_eq ref head) _ }))))
    where
      kept :
          (r : Repo)
          → IsSafe r
          → (same : Bool) (st : Status)
          → IsSafe (if same then record r { cached = some st; cached_at = later } else r)
      kept r h true st = h
      kept r h false st = h

  pub Keeps-status_of :
      PrintsNames → (ref : Bytes) (now later : ℕ) → Keeps IsSafe (status_of git ref now later)
  unfolding status_of
  Keeps-status_of names given now later =
      Keeps-check (validate_ref (ref_or_head given))
        (cached_or_query git (ref_or_head given) now later)
        (λ _. record { at = λ r h. served (fresh_status (ref_or_head given) now r) r h })
    where
      served :
          (o : Option Status) (r : Repo)
          → IsSafe r
          → IsSafe (or_query git o (ref_or_head given) later r).1
      served none r h = (Keeps-query_status names (ref_or_head given) later).at r h
      served (some st) r h = h
