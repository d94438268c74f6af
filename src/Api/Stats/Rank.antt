-- ===== src/Api/Stats/Rank.antt =====
-- internal/api/stats.go: `percentile` is the nearest rank.
use cadenza.Prelude.{
  ℕ, zero, suc, ◌+◌, ◌-◌, ◌*◌, ◌≤◌, ◌<◌, ◌≡◌, ◌≢◌, refl, List, [], ◌∷◌, length, get_or, ltb, leb,
  if◌then◌else◌, arith, All,
}
use cadenza.Api.Stats.{insert, sort, rank, percentile}

-- How many values are at most v, and how many are below it.
pub count_le : ℕ → List ℕ → ℕ
count_le v [] = 0
count_le v (x ∷ xs) = (if leb x v then 1 else 0) + count_le v xs

pub count_lt : ℕ → List ℕ → ℕ
count_lt v [] = 0
count_lt v (x ∷ xs) = (if ltb x v then 1 else 0) + count_lt v xs

abbrev IsSorted : List ℕ → Type 0
IsSorted [] = Unit
IsSorted (x ∷ xs) = All (λ y. x ≤ y) xs × IsSorted xs

All-insert : (b x : ℕ) (ys : List ℕ) → b ≤ x → All (λ y. b ≤ y) ys → All (λ y. b ≤ y) (insert x ys)
unfolding insert
All-insert b x [] h all = (h, tt)
All-insert b x (y ∷ ys) h (here, all) = ground (arith, All-insert b x ys h all)

All-le : (a b : ℕ) (ys : List ℕ) → a ≤ b → All (λ y. b ≤ y) ys → All (λ y. a ≤ y) ys
All-le a b [] h all = tt
All-le a b (y ∷ ys) h (here, all) = (omega arith, All-le a b ys h all)

insert-IsSorted : (x : ℕ) (ys : List ℕ) → IsSorted ys → IsSorted (insert x ys)
unfolding insert
insert-IsSorted x [] s = (tt, tt)
insert-IsSorted x (y ∷ ys) (all, s) =
    ground (arith, insert-IsSorted x ys s, All-insert y x ys, All-le x y ys)

sort-IsSorted : (xs : List ℕ) → IsSorted (sort xs)
unfolding sort
sort-IsSorted [] = tt
sort-IsSorted (x ∷ xs) = insert-IsSorted x (sort xs) (sort-IsSorted xs)

module _ (v : ℕ) where
  count_le-insert : (x : ℕ) (ys : List ℕ) → count_le v (insert x ys) ≡ count_le v (x ∷ ys)
  unfolding insert count_le
  count_le-insert x [] = refl
  count_le-insert x (y ∷ ys) = ground (arith, count_le-insert x ys)

  count_lt-insert : (x : ℕ) (ys : List ℕ) → count_lt v (insert x ys) ≡ count_lt v (x ∷ ys)
  unfolding insert count_lt
  count_lt-insert x [] = refl
  count_lt-insert x (y ∷ ys) = ground (arith, count_lt-insert x ys)

  count_le-sort : (xs : List ℕ) → count_le v (sort xs) ≡ count_le v xs
  unfolding sort count_le
  count_le-sort [] = refl
  count_le-sort (x ∷ xs) = ground (arith, count_le-insert x (sort xs), count_le-sort xs)

  count_lt-sort : (xs : List ℕ) → count_lt v (sort xs) ≡ count_lt v xs
  unfolding sort count_lt
  count_lt-sort [] = refl
  count_lt-sort (x ∷ xs) = ground (arith, count_lt-insert x (sort xs), count_lt-sort xs)

length-insert : (x : ℕ) (ys : List ℕ) → length (insert x ys) ≡ length ys + 1
unfolding insert
length-insert x [] = refl
length-insert x (y ∷ ys) = ground (arith, length-insert x ys)

length-sort : (xs : List ℕ) → length (sort xs) ≡ length xs
unfolding sort
length-sort [] = refl
length-sort (x ∷ xs) = omega (arith, length-insert x (sort xs), length-sort xs)

All-get_or : (b i : ℕ) (ys : List ℕ) → i < length ys → All (λ y. b ≤ y) ys → b ≤ get_or ys i 0
All-get_or b i [] h all = absurd (omega arith)
All-get_or b zero (y ∷ ys) h (here, all) = here
All-get_or b (suc i) (y ∷ ys) h (here, all) = All-get_or b i ys (omega arith) all

count_lt-All : (v : ℕ) (ys : List ℕ) → All (λ y. v ≤ y) ys → count_lt v ys ≡ 0
unfolding count_lt
count_lt-All v [] all = refl
count_lt-All v (y ∷ ys) (here, all) = ground (arith, count_lt-All v ys all)

-- In a sorted list the value at an index has more than that many values at most itself, and at
-- most that many below itself.
count_le-get_or :
    (i : ℕ) (ys : List ℕ) → IsSorted ys → i < length ys → i < count_le (get_or ys i 0) ys
unfolding count_le
count_le-get_or i [] s h = absurd (omega arith)
count_le-get_or zero (y ∷ ys) s h = ground arith
count_le-get_or (suc i) (y ∷ ys) (all, s) h =
    ground (arith, count_le-get_or i ys s, All-get_or y i ys (omega arith) all)

count_lt-get_or :
    (i : ℕ) (ys : List ℕ) → IsSorted ys → i < length ys → count_lt (get_or ys i 0) ys ≤ i
unfolding count_lt
count_lt-get_or i [] s h = absurd (omega arith)
count_lt-get_or zero (y ∷ ys) (all, s) h = ground (arith, count_lt-All y ys all)
count_lt-get_or (suc i) (y ∷ ys) (all, s) h =
    ground (arith, count_lt-get_or i ys s, All-get_or y i ys (omega arith) all)

mul_bounds : (p n : ℕ) → 1 ≤ p → p ≤ 100 → 1 ≤ n → (1 ≤ p * n) × (p * n ≤ 100 * n)
mul_bounds p n low high some_value = grind arith

rank_bounds :
    (n p : ℕ)
    → 1 ≤ p
    → p ≤ 100
    → 1 ≤ n
    → (1 ≤ rank n p) × (rank n p ≤ n) × (p * n ≤ 100 * rank n p) × (100 * rank n p < p * n + 100)
rank_bounds n p low high some_value = ground (arith, mul_bounds p n low high some_value)

length-pos : (xs : List ℕ) → xs ≢ [] → 1 ≤ length xs
length-pos [] h = absurd (h refl)
length-pos (x ∷ xs) h = omega arith

-- The p-th percentile v of any durations is the nearest rank: at least p hundredths of them are at
-- most v, and fewer than p hundredths are below it.
pub percentile-sort :
    (p : ℕ) (xs : List ℕ)
    → 1 ≤ p
    → p ≤ 100
    → xs ≢ []
    → let v = percentile (sort xs) p in
      (p * length xs ≤ 100 * count_le v xs) × (100 * count_lt v xs < p * length xs)
unfolding percentile
percentile-sort p xs low high some_value =
    let ys = sort xs in
    let n = length ys in
    let size = length-sort xs in
    let pos = length-pos xs some_value in
    let i = rank n p - 1 in
    let v = get_or ys i 0 in
    let bounds = rank_bounds n p low high (omega arith) in
    let above = count_le-get_or i ys (sort-IsSorted xs) (omega arith) in
    let below = count_lt-get_or i ys (sort-IsSorted xs) (omega arith) in
    ground (arith, count_le-sort v xs, count_lt-sort v xs)
