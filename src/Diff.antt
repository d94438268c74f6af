-- ===== src/Diff.antt =====
-- internal/diff/diff.go: the unified diff of two configurations. Lines are byte strings; the
-- loops over an index are recursions over the lines that are left.
pub mod Subsequence
pub mod Script
pub mod Hunks
pub mod Unified
use cadenza.Prelude.{
  ℕ, zero, suc, ◌+◌, ◌-◌, ◌*◌, Bool, true, false, not, ◌||◌, List, [], ◌∷◌, ◌++◌, Bytes, bytes_eq,
  bytes, newline, carriage_return, decimal, length, get_or, drop, ltb, leb, ◌==◌, if◌then◌else◌,
}
use mathlib.Core.List.{reverse, map}

abbrev pub context_lines : ℕ
context_lines = 3

abbrev pub max_dp_cells : ℕ
max_dp_cells = 4000000

-- The bytes ' ', '-' and '+' of an `op`.
pub data Kind : Type 0 where
  context removed added : Kind

pub record Op : Type 0 where
  pub kind : Kind
  pub text : Bytes

abbrev pub op : Kind → Bytes → Op
op k t = record { kind = k; text = t }

-- dp[i] from dp[i+1]: the row of one line of `a`, filled from the last column to the first.
pub dp_row : Bytes → List Bytes → List ℕ → List ℕ
dp_row x [] below = 0 ∷ []
dp_row x (y ∷ ys) below =
    let rest = dp_row x ys (drop 1 below) in
    (if bytes_eq x y
      then get_or below 1 0 + 1
      else if leb (get_or rest 0 0) (get_or below 0 0)
      then get_or below 0 0
      else get_or rest 0 0)
    ∷ rest

zero_row : List Bytes → List ℕ
zero_row [] = 0 ∷ []
zero_row (y ∷ ys) = 0 ∷ zero_row ys

pub dp_table : List Bytes → List Bytes → List (List ℕ)
unfolding dp_row zero_row
dp_table [] b = zero_row b ∷ []
dp_table (x ∷ xs) b = let below = dp_table xs b in dp_row x b (get_or below 0 []) ∷ below

-- dp[i][j]
abbrev pub cell : List (List ℕ) → ℕ → ℕ → ℕ
cell dp i j = get_or (get_or dp i []) j 0

-- The loop over i and j, with a[i:] and b[j:].
pub walk : List (List ℕ) → ℕ → ℕ → List Bytes → List Bytes → List Op
walk dp i j [] [] = []
walk dp i j [] (y ∷ ys) = op added y ∷ walk dp i (j + 1) [] ys
walk dp i j (x ∷ xs) [] = op removed x ∷ walk dp (i + 1) j xs []
walk dp i j (x ∷ xs) (y ∷ ys) = elim (bytes_eq x y) [
  | true ↦ op context x ∷ walk dp (i + 1) (j + 1) xs ys
  | false ↦ elim (leb (cell dp i (j + 1)) (cell dp (i + 1) j)) [
    | true ↦ op removed x ∷ walk dp (i + 1) j xs (y ∷ ys)
    | false ↦ op added y ∷ walk dp i (j + 1) (x ∷ xs) ys
  ]
]

pub lcs_ops : List Bytes → List Bytes → List Op
unfolding dp_table walk
lcs_ops a b = walk (dp_table a b) 0 0 a b

abbrev pub is_change : Op → Bool
is_change o = elim o.kind [ context ↦ false | _ ↦ true ]

pub has_change : List Op → Bool
has_change [] = false
has_change (o ∷ ops) = is_change o || has_change ops
