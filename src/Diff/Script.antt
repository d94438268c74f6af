-- ===== src/Diff/Script.antt =====
-- internal/diff/diff.go: the operations of `lcsOps` are an edit script from one list of lines to
-- the other.
use cadenza.Prelude.{ℕ, ◌+◌, ◌≡◌, refl, ap, false, List, [], ◌∷◌, Bytes, bytes_eq_iff, arith}
use cadenza.Diff.{removed, added, Op, walk, lcs_ops, has_change}

-- The lines that an operation sequence reads, and those that it leaves.
abbrev pub old_lines : List Op → List Bytes
old_lines [] = []
old_lines (o ∷ ops) = elim o.kind [ added ↦ old_lines ops | _ ↦ o.text ∷ old_lines ops ]

abbrev pub new_lines : List Op → List Bytes
new_lines [] = []
new_lines (o ∷ ops) = elim o.kind [ removed ↦ new_lines ops | _ ↦ o.text ∷ new_lines ops ]

old_lines-walk : (dp : List (List ℕ)) (i j : ℕ) (a b : List Bytes) → old_lines (walk dp i j a b) ≡ a
unfolding walk
old_lines-walk dp i j [] [] = refl
old_lines-walk dp i j [] (y ∷ ys) = old_lines-walk dp i (j + 1) [] ys
old_lines-walk dp i j (x ∷ xs) [] = ap (λ l. x ∷ l) (old_lines-walk dp (i + 1) j xs [])
old_lines-walk dp i j (x ∷ xs) (y ∷ ys) = ground (
  arith,
  old_lines-walk dp (i + 1) (j + 1) xs ys,
  old_lines-walk dp (i + 1) j xs (y ∷ ys),
  old_lines-walk dp i (j + 1) (x ∷ xs) ys,
)

new_lines-walk : (dp : List (List ℕ)) (i j : ℕ) (a b : List Bytes) → new_lines (walk dp i j a b) ≡ b
unfolding walk
new_lines-walk dp i j [] [] = refl
new_lines-walk dp i j [] (y ∷ ys) = ap (λ l. y ∷ l) (new_lines-walk dp i (j + 1) [] ys)
new_lines-walk dp i j (x ∷ xs) [] = new_lines-walk dp (i + 1) j xs []
new_lines-walk dp i j (x ∷ xs) (y ∷ ys) = ground (
  arith,
  bytes_eq_iff x y,
  new_lines-walk dp (i + 1) (j + 1) xs ys,
  new_lines-walk dp (i + 1) j xs (y ∷ ys),
  new_lines-walk dp i (j + 1) (x ∷ xs) ys,
)

-- The operations of `lcs_ops` read exactly the lines of `a`, and leave exactly those of `b`.
pub lcs_ops-lines :
    (a b : List Bytes) → (old_lines (lcs_ops a b) ≡ a) × (new_lines (lcs_ops a b) ≡ b)
unfolding lcs_ops
lcs_ops-lines a b = (old_lines-walk _ 0 0 a b, new_lines-walk _ 0 0 a b)

-- With no change among the operations the two sides are the same.
pub old_lines-eq-new_lines :
    (ops : List Op) → has_change ops ≡ false → old_lines ops ≡ new_lines ops
unfolding has_change
old_lines-eq-new_lines [] h = refl
old_lines-eq-new_lines (o ∷ ops) h = ground (arith, old_lines-eq-new_lines ops)

-- The script of a list of lines with itself has no change.
has_change-walk_self :
    (dp : List (List ℕ)) (i j : ℕ) (a : List Bytes) → has_change (walk dp i j a a) ≡ false
unfolding has_change walk
has_change-walk_self dp i j [] = refl
has_change-walk_self dp i j (x ∷ xs) =
    ground (arith, bytes_eq_iff x x, has_change-walk_self dp (i + 1) (j + 1) xs)

pub has_change-lcs_ops_self : (a : List Bytes) → has_change (lcs_ops a a) ≡ false
unfolding lcs_ops
has_change-lcs_ops_self a = has_change-walk_self _ 0 0 a
