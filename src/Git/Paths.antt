-- ===== src/Git/Paths.antt =====
-- internal/gitsource/gitsource.go: where an accepted path leads.
use cadenza.Prelude.{
  ℕ, zero, suc, ◌+◌, ◌-◌, ◌≤◌, ◌<◌, ◌≡◌, refl, Bool, true, false, List, [], ◌∷◌, ◌++◌, Option, none,
  some, length, ◌==◌, if◌then◌else◌, arith, Bytes, bytes_eq, bytes_eq_iff, ◌||◌, Bool-cases, ◌⊎◌,
  inl, inr,
}
use cadenza.Git.{
  GitError, Cleaned, is_here, dot_dot, clean_step, clean_parts, clean, split_slash, join_slash,
  written, repeat_dots, has_prefix, validate_pathspec,
}
use mathlib.Core.List.{reverse}

-- Whether a walk along the elements of a path, from a directory a number of levels below the root,
-- is above the root at some point.
pub climbs : ℕ → List Bytes → Bool
climbs depth [] = false
climbs depth (part ∷ parts) =
    let stay = climbs depth parts in
    let up = climbs (depth - 1) parts in
    let down = climbs (depth + 1) parts in
    if is_here part
    then stay
    else if bytes_eq part dot_dot
    then (if depth == 0 then true else up)
    else down

ups-clean_step : (part : Bytes) (r : Cleaned) → r.ups ≤ (clean_step part r).ups
ups-clean_step part r = ground arith

ups-clean_parts : (parts : List Bytes) (r : Cleaned) → r.ups ≤ (clean_parts parts r).ups
unfolding clean_parts
ups-clean_parts [] r = omega arith
ups-clean_parts (part ∷ parts) r =
    omega (arith, ups-clean_step part r, ups-clean_parts parts (clean_step part r))

climbs-clean_step :
    (part : Bytes) (parts : List Bytes) (r : Cleaned)
    → climbs (length r.names) (part ∷ parts) ≡ true
    → (climbs (length (clean_step part r).names) parts ≡ true) ⊎ (r.ups < (clean_step part r).ups)
unfolding climbs
climbs-clean_step part parts r h = go r.names refl
  where
    go :
        (names : List Bytes)
        → r.names ≡ names
        → (climbs (length (clean_step part r).names) parts ≡ true)
          ⊎ (r.ups < (clean_step part r).ups)
    go [] e = ground arith
    go (name ∷ names) e = ground arith

-- A walk that is above the root leaves an element `..` at the front of the clean path.
climbs-clean_parts :
    (parts : List Bytes) (r : Cleaned)
    → climbs (length r.names) parts ≡ true
    → r.ups < (clean_parts parts r).ups
unfolding climbs clean_parts
climbs-clean_parts [] r h = cc
climbs-clean_parts (part ∷ parts) r h =
    let next = clean_step part r in
    elim (climbs-clean_step part parts r h) [
      | inl later ↦ omega (arith, ups-clean_step part r, climbs-clean_parts parts next later)
      | inr now ↦ omega (arith, now, ups-clean_parts parts next)
    ]

dots-join_slash : (parts : List Bytes) → has_prefix dot_dot (join_slash (dot_dot ∷ parts)) ≡ true
unfolding join_slash
dots-join_slash [] = refl
dots-join_slash (part ∷ parts) = refl

dots-written :
    (n : ℕ) (names : List Bytes)
    → 0 < n
    → has_prefix dot_dot (written (repeat_dots n ++ names)) ≡ true
dots-written zero names h = absurd (omega (arith, h))
dots-written (suc n) names h = dots-join_slash (repeat_dots n ++ names)

dots-clean :
    (path : Bytes)
    → 0 < (clean_parts (split_slash path) (record { ups = 0; names = [] })).ups
    → has_prefix dot_dot (clean path) ≡ true
unfolding clean
dots-clean path h =
    let r = clean_parts (split_slash path) (record { ups = 0; names = [] }) in
    dots-written r.ups (reverse r.names) h

-- A check that found nothing wrong.
pub passed :
    (wrong : Bool) (e : GitError) (rest : Option GitError)
    → (if wrong then some e else rest) ≡ none
    → (wrong ≡ false) × (rest ≡ none)
passed true e rest h = cc
passed false e rest h = (refl, h)

dots_apart : (a b : Bool) → (a || b) ≡ false → b ≡ false
dots_apart a b h = ground arith

checks :
    (path : Bytes)
    → validate_pathspec path ≡ none
    → (path ≡ []) ⊎ (has_prefix (47 ∷ []) path ≡ false) × (has_prefix dot_dot (clean path) ≡ false)
unfolding validate_pathspec
checks path h = elim (Bool-cases (bytes_eq path [])) [
  | inl empty ↦ inl ((bytes_eq_iff path []).0 empty)
  | inr some_bytes ↦
      let start = rw some_bytes at h in
      let short = passed _ _ _ start in
      let inside = passed _ _ _ short.1 in
      let plain = passed _ _ _ inside.1 in
      let level = passed _ _ _ plain.1 in inr (inside.0, dots_apart _ _ level.0)
]

-- A path that is accepted is relative, and walking along it from the root of the repository never
-- leads above the root, not even on the way.
pub validate_pathspec-stays :
    (path : Bytes)
    → validate_pathspec path ≡ none
    → (climbs 0 (split_slash path) ≡ false) × (has_prefix (47 ∷ []) path ≡ false)
unfolding validate_pathspec climbs bytes_eq
validate_pathspec-stays path h = elim (checks path h) [
  | inl empty ↦ rw empty (refl, refl)
  | inr (relative, no_dots) ↦ elim (Bool-cases (climbs 0 (split_slash path))) [
    | inl above ↦
        let front = climbs-clean_parts (split_slash path) (record { ups = 0; names = [] }) above in
        absurd (cc (dots-clean path front, no_dots))
    | inr below ↦ (below, relative)
  ]
]
