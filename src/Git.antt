-- ===== src/Git.antt =====
-- internal/gitsource/gitsource.go: the checks of refs and paths.
pub mod Paths
pub mod Repo
use cadenza.Prelude.{
  ℕ, zero, suc, ◌+◌, ◌-◌, String, Bool, true, false, not, ◌&&◌, ◌||◌, List, [], ◌∷◌, ◌++◌, Option,
  none, some, length, ltb, leb, ◌==◌, if◌then◌else◌, Bytes, bytes, bytes_eq, trim_space,
  after_prefix, is_digit, Result, ok, err, number_in,
}
use mathlib.Core.List.{reverse}

pub data GitError : Type 0 where
  ref_empty ref_too_long ref_illegal ref_malformed : GitError
  path_too_long path_not_relative path_illegal path_climbs path_colon path_empty : GitError
  no_template bad_limit git_failed odd_output : GitError

abbrev pub is_letter : ℕ → Bool
is_letter c = leb 65 c && leb c 90 || leb 97 c && leb c 122

abbrev pub is_alphanumeric : ℕ → Bool
is_alphanumeric c = is_letter c || is_digit c

unfoldable pub among : ℕ → Bytes → Bool
among c [] = false
among c (x ∷ xs) = c == x || among c xs

-- strings.ContainsAny
unfoldable pub contains_any : Bytes → Bytes → Bool
unfolding among
contains_any [] set = false
contains_any (c ∷ s) set = among c set || contains_any s set

abbrev pub has_prefix : Bytes → Bytes → Bool
has_prefix [] s = true
has_prefix (p ∷ ps) [] = false
has_prefix (p ∷ ps) (c ∷ s) = p == c && has_prefix ps s

abbrev pub dot_dot : Bytes
dot_dot = 46 ∷ 46 ∷ []

-- strings.Contains(s, "..")
unfoldable pub contains_dots : Bytes → Bool
contains_dots [] = false
contains_dots (c ∷ s) = has_prefix dot_dot (c ∷ s) || contains_dots s

-- The bytes that `refPattern` permits behind the first one.
abbrev pub ref_bytes : Bytes
ref_bytes = bytes "._/@^~{}-"

unfoldable pub all_ref_bytes : Bytes → Bool
unfolding among
all_ref_bytes [] = true
all_ref_bytes (c ∷ s) = (is_alphanumeric c || among c ref_bytes) && all_ref_bytes s

unfoldable pub matches_ref_pattern : Bytes → Bool
unfolding all_ref_bytes
matches_ref_pattern [] = false
matches_ref_pattern (c ∷ s) = is_alphanumeric c && all_ref_bytes s

unfoldable pub validate_ref : Bytes → Option GitError
unfolding contains_dots contains_any matches_ref_pattern
validate_ref ref =
    if bytes_eq ref []
    then some ref_empty
    else if ltb 256 (length ref)
    then some ref_too_long
    else if contains_dots ref || contains_any ref (bytes " " ++ 9 ∷ 10 ∷ [])
    then some ref_illegal
    else if not (matches_ref_pattern ref)
    then some ref_malformed
    else none

-- The elements of a path between its slashes.
unfoldable pub split_slash : Bytes → List Bytes
split_slash [] = [] ∷ []
split_slash (c ∷ s) = elim (split_slash s) [
  | [] ↦ [] ∷ []
  | part ∷ parts ↦ if c == 47 then [] ∷ part ∷ parts else (c ∷ part) ∷ parts
]

-- What filepath.Clean has written of a relative path: elements `..` that nothing precedes, and
-- behind them the names, the last one first.
pub record Cleaned : Type 0 where
  pub ups : ℕ
  pub names : List Bytes

abbrev pub is_here : Bytes → Bool
is_here part = bytes_eq part [] || bytes_eq part (46 ∷ [])

abbrev pub climb : Cleaned → Cleaned
climb r = elim r.names [ [] ↦ record r { ups = r.ups + 1 } | _ ∷ rest ↦ record r { names = rest } ]

abbrev pub clean_step : Bytes → Cleaned → Cleaned
clean_step part r =
    if is_here part
    then r
    else if bytes_eq part dot_dot
    then climb r
    else record r { names = part ∷ r.names }

unfoldable pub clean_parts : List Bytes → Cleaned → Cleaned
clean_parts [] r = r
clean_parts (part ∷ parts) r = clean_parts parts (clean_step part r)

abbrev pub repeat_dots : ℕ → List Bytes
repeat_dots zero = []
repeat_dots (suc n) = dot_dot ∷ repeat_dots n

unfoldable pub join_slash : List Bytes → Bytes
join_slash [] = []
join_slash (part ∷ []) = part
join_slash (part ∷ next ∷ parts) = part ++ 47 ∷ join_slash (next ∷ parts)

abbrev pub written : List Bytes → Bytes
written [] = 46 ∷ []
written (part ∷ parts) = join_slash (part ∷ parts)

-- filepath.Clean of a path that does not start with a slash.
unfoldable pub clean : Bytes → Bytes
unfolding split_slash clean_parts join_slash
clean path =
    let r = clean_parts (split_slash path) (record { ups = 0; names = [] }) in
    written (repeat_dots r.ups ++ reverse r.names)

unfoldable pub validate_pathspec : Bytes → Option GitError
unfolding contains_any clean
validate_pathspec path =
    if bytes_eq path []
    then none
    else if ltb 512 (length path)
    then some path_too_long
    else if has_prefix (47 ∷ []) path
    then some path_not_relative
    else if contains_any path (10 ∷ 9 ∷ [])
    then some path_illegal
    else if bytes_eq (clean path) dot_dot || has_prefix dot_dot (clean path)
    then some path_climbs
    else if contains_any path (58 ∷ [])
    then some path_colon
    else none

-- strings.ReplaceAll of a text that is not empty; `skip` bytes belong to an occurrence.
unfoldable pub replace_from : ℕ → Bytes → Bytes → Bytes → Bytes
replace_from skip old new [] = []
replace_from (suc skip) old new (c ∷ s) = replace_from skip old new s
replace_from zero old new (c ∷ s) =
    let inside = replace_from (length old - 1) old new s in
    let outside = replace_from zero old new s in
    if has_prefix old (c ∷ s) then new ++ inside else c ∷ outside

abbrev pub accept : Option GitError → Bytes → Result GitError Bytes
accept none s = ok s
accept (some e) s = err e

unfoldable pub expand_pathspec : Bytes → Bytes → Result GitError Bytes
unfolding replace_from validate_pathspec
expand_pathspec tmpl uid =
    let p = replace_from 0 (bytes "%s") uid (replace_from 0 (bytes "{uid}") uid tmpl) in
    if bytes_eq (trim_space tmpl) [] then err no_template else accept (validate_pathspec p) p

abbrev pub or_bad_limit : Option ℕ → Result GitError ℕ
or_bad_limit none = err bad_limit
or_bad_limit (some n) = ok n

unfoldable pub parse_limit : Bytes → ℕ → Result GitError ℕ
parse_limit v default_limit =
    let text = trim_space v in
    if bytes_eq text [] then ok default_limit else or_bad_limit (number_in 1 200 text)
