-- ===== src/Diff/Subsequence.antt =====
-- internal/diff/diff.go: the table of `lcsOps` holds the lengths of longest common subsequences,
-- and the operations keep that many lines.
use native.Mathlib.Omega.{arith}
use native.Mathlib.Nat.{add-zero, zero-add}
use cadenza.Prelude.{
  ◌⊎◌, ℕ, zero, suc, ◌+◌, ◌≤◌, ◌≡◌, ◌∙◌, refl, true, false, inl, inr, Bool-cases, List, [], ◌∷◌,
  Bytes, bytes_eq, bytes_eq_iff, leb, length, get_or, drop, sym,
}
use cadenza.Diff.{context, Op, cell, dp_row, zero_row, dp_table, walk, lcs_ops}

-- The length of a longest common subsequence, by plain recursion.
pub lcs : List Bytes → List Bytes → ℕ
lcs [] ys = 0
lcs (x ∷ xs) [] = 0
lcs (x ∷ xs) (y ∷ ys) = elim (bytes_eq x y) [
  | true ↦ lcs xs ys + 1
  | false ↦ elim (leb (lcs (x ∷ xs) ys) (lcs xs (y ∷ ys))) [
    | true ↦ lcs xs (y ∷ ys)
    | false ↦ lcs (x ∷ xs) ys
  ]
]

-- A list obtained from another by leaving out lines.
pub data Subsequence : List Bytes → List Bytes → Type 0 where
  done : Subsequence [] []
  skip : {zs xs : List Bytes} (x : Bytes) → Subsequence zs xs → Subsequence zs (x ∷ xs)
  take : {zs xs : List Bytes} (x : Bytes) → Subsequence zs xs → Subsequence (x ∷ zs) (x ∷ xs)

lcs-nil : (xs : List Bytes) → lcs xs [] ≡ 0
unfolding lcs
lcs-nil [] = refl
lcs-nil (x ∷ xs) = refl

get_or-zero_row : (b : List Bytes) (j : ℕ) → get_or (zero_row b) j 0 ≡ 0
unfolding zero_row
get_or-zero_row [] zero = refl
get_or-zero_row [] (suc j) = refl
get_or-zero_row (y ∷ ys) zero = refl
get_or-zero_row (y ∷ ys) (suc j) = get_or-zero_row ys j

get_or-drop : (l : List ℕ) (j : ℕ) → get_or (drop 1 l) j 0 ≡ get_or l (suc j) 0
get_or-drop [] j = refl
get_or-drop (x ∷ l) j = refl

-- A row is right if the row below it is.
get_or-dp_row :
    (x : Bytes) (xs b : List Bytes) (below : List ℕ)
    → ((j : ℕ) → get_or below j 0 ≡ lcs xs (drop j b))
    → (j : ℕ) → get_or (dp_row x b below) j 0 ≡ lcs (x ∷ xs) (drop j b)
unfolding dp_row lcs
get_or-dp_row x xs [] below h zero = refl
get_or-dp_row x xs [] below h (suc j) = refl
get_or-dp_row x xs (y ∷ ys) below h zero =
    let ih = get_or-dp_row x xs ys (drop 1 below) (λ k. get_or-drop below k ∙ h (suc k)) zero in
    ground (arith, ih, h 0, h 1)
get_or-dp_row x xs (y ∷ ys) below h (suc j) =
    get_or-dp_row x xs ys (drop 1 below) (λ k. get_or-drop below k ∙ h (suc k)) j

cell-dp_table : (a b : List Bytes) (i j : ℕ) → cell (dp_table a b) i j ≡ lcs (drop i a) (drop j b)
unfolding dp_table lcs
cell-dp_table [] b zero j = get_or-zero_row b j
cell-dp_table [] b (suc i) j = refl
cell-dp_table (x ∷ xs) b zero j =
    get_or-dp_row x xs b (get_or (dp_table xs b) 0 []) (λ k. cell-dp_table xs b zero k) j
cell-dp_table (x ∷ xs) b (suc i) j = cell-dp_table xs b i j

abbrev Agrees : List (List ℕ) → ℕ → ℕ → List Bytes → List Bytes → Type 0
Agrees dp i j xs ys = (p q : ℕ) → cell dp (i + p) (j + q) ≡ lcs (drop p xs) (drop q ys)

module _ (dp : List (List ℕ)) (i j : ℕ) (xs ys : List Bytes) where
  Agrees-down : (x : Bytes) → Agrees dp i j (x ∷ xs) ys → Agrees dp (i + 1) j xs ys
  Agrees-down x h p q = let e : i + 1 + p ≡ i + suc p = omega arith in rw e (h (suc p) q)

  Agrees-right : (y : Bytes) → Agrees dp i j xs (y ∷ ys) → Agrees dp i (j + 1) xs ys
  Agrees-right y h p q = let e : j + 1 + q ≡ j + suc q = omega arith in rw e (h p (suc q))

-- The number of lines that the operations keep.
abbrev pub kept : List Op → ℕ
kept [] = 0
kept (o ∷ ops) = elim o.kind [ context ↦ kept ops + 1 | _ ↦ kept ops ]

kept-walk :
    (dp : List (List ℕ)) (i j : ℕ) (xs ys : List Bytes)
    → Agrees dp i j xs ys
    → kept (walk dp i j xs ys) ≡ lcs xs ys
unfolding walk lcs
kept-walk dp i j [] [] h = refl
kept-walk dp i j [] (y ∷ ys) h = kept-walk dp i (j + 1) [] ys (Agrees-right dp i j [] ys y h)
kept-walk dp i j (x ∷ xs) [] h =
    kept-walk dp (i + 1) j xs [] (Agrees-down dp i j xs [] x h) ∙ lcs-nil xs
kept-walk dp i j (x ∷ xs) (y ∷ ys) h =
    let below : cell dp (i + 1) j ≡ lcs xs (y ∷ ys) = rw add-zero at (h 1 0) in
    let right : cell dp i (j + 1) ≡ lcs (x ∷ xs) ys = rw add-zero at (h 0 1) in
    ground (
      arith,
      below,
      right,
      kept-walk dp (i + 1) (j + 1) xs ys
          (Agrees-right dp (i + 1) j xs ys y (Agrees-down dp i j xs (y ∷ ys) x h)),
      kept-walk dp (i + 1) j xs (y ∷ ys) (Agrees-down dp i j xs (y ∷ ys) x h),
      kept-walk dp i (j + 1) (x ∷ xs) ys (Agrees-right dp i j (x ∷ xs) ys y h),
    )

tail_subsequence : {zs xs : List Bytes} (z : Bytes) → Subsequence (z ∷ zs) xs → Subsequence zs xs
tail_subsequence z (skip x s) = skip x (tail_subsequence z s)
tail_subsequence z (take x s) = skip x s

-- Either the first line is skipped, or it is the first of the subsequence.
Subsequence-cases :
    {z x : Bytes} {zs xs : List Bytes}
    → Subsequence (z ∷ zs) (x ∷ xs)
    → Subsequence (z ∷ zs) xs ⊎ (z ≡ x)
Subsequence-cases (skip x s) = inl s
Subsequence-cases (take x s) = inr refl

Subsequence-tails :
    {z x : Bytes} {zs xs : List Bytes} → Subsequence (z ∷ zs) (x ∷ xs) → Subsequence zs xs
Subsequence-tails {z} (skip x s) = tail_subsequence z s
Subsequence-tails (take x s) = s

one_skips :
    {z x y : Bytes} {zs xs ys : List Bytes}
    → Subsequence (z ∷ zs) (x ∷ xs)
    → Subsequence (z ∷ zs) (y ∷ ys)
    → bytes_eq x y ≡ false
    → Subsequence (z ∷ zs) xs ⊎ Subsequence (z ∷ zs) ys
one_skips {x = x} {y = y} s t ne = elim (Subsequence-cases s) [
  | inl s' ↦ inl s'
  | inr p ↦ elim (Subsequence-cases t) [
    | inl t' ↦ inr t'
    | inr q ↦ let same : bytes_eq x y ≡ true = (bytes_eq_iff x y).1 (sym p ∙ q) in cc
  ]
]

-- A common subsequence is no longer than `lcs`.
length-le-lcs :
    (xs ys zs : List Bytes) → Subsequence zs xs → Subsequence zs ys → length zs ≤ lcs xs ys
unfolding lcs
length-le-lcs xs ys [] s t = omega arith
length-le-lcs [] ys (z ∷ zs) s t = elim s [ ]
length-le-lcs (x ∷ xs) [] (z ∷ zs) s t = elim t [ ]
length-le-lcs (x ∷ xs) (y ∷ ys) (z ∷ zs) s t = elim (Bool-cases (bytes_eq x y)) [
  | inl e ↦ ground (arith, length-le-lcs xs ys zs (Subsequence-tails s) (Subsequence-tails t))
  | inr e ↦ elim (one_skips s t e) [
    | inl s' ↦ ground (arith, length-le-lcs xs (y ∷ ys) (z ∷ zs) s' t)
    | inr t' ↦ ground (arith, length-le-lcs (x ∷ xs) ys (z ∷ zs) s t')
  ]
]

-- The operations of `lcs_ops` keep at least as many lines as any common subsequence of `a` and
-- `b` has, so no script between them changes fewer lines.
pub lcs_ops_longest :
    (a b zs : List Bytes) → Subsequence zs a → Subsequence zs b → length zs ≤ kept (lcs_ops a b)
unfolding lcs_ops
lcs_ops_longest a b zs s t =
    let e = kept-walk (dp_table a b) 0 0 a b (λ p q. agrees p q) in rw e (length-le-lcs a b zs s t)
  where
    agrees : Agrees (dp_table a b) 0 0 a b
    agrees p q = simp zero-add (cell-dp_table a b p q)
