-- ===== src/Examples/Gits.antt =====
-- internal/gitsource/gitsource.go: a repository that answers every command with one line.
use cadenza.Prelude.{ℕ, ◌≡◌, refl, false, List, [], ◌∷◌, Option, none, some, Bytes, bytes, bytes_eq}
use cadenza.Git.{
  split_slash, has_prefix, validate_pathspec, contains_any, among, clean, clean_parts, join_slash,
}
use cadenza.Git.Paths.{climbs, validate_pathspec-stays}
use cadenza.Git.Repo.{Repo, commits}
use cadenza.Git.Repo.Safe.{IsSafe}
use cadenza.Git.Repo.Log.{commits-IsUnsafe}

abbrev nested : Bytes
nested = bytes "fleet/../edge/a.yaml"

validate_pathspec-stays_example :
    (climbs 0 (split_slash nested) ≡ false) × (has_prefix (47 ∷ []) nested ≡ false)
unfolding validate_pathspec bytes_eq contains_any among clean split_slash clean_parts join_slash
validate_pathspec-stays_example = validate_pathspec-stays nested refl

abbrev one_line : ℕ → List Bytes → Option Bytes
one_line n command = some (bytes "0af3")

abbrev untouched : Repo
untouched = record { dir = bytes "/srv/fleet"; cached = none; cached_at = 0; commands = [] }

commits-IsUnsafe_example : ¬ IsSafe (commits one_line (bytes "--output=x") [] 0 untouched).1
unfolding validate_pathspec bytes_eq
commits-IsUnsafe_example =
    commits-IsUnsafe one_line (bytes "--output=x") [] 0 untouched refl refl refl
