-- ===== src/Prelude/Lists.antt =====
-- Lists measured and indexed by native numbers, and lists of records with a text key.
use Prim.Native.Nat.{ℕ, zero, suc, ◌+◌}
use Prim.Native.String.{String}
use mathlib.Core.Path.{◌≡◌, refl}
use mathlib.Core.Bool.{Bool, false}
use mathlib.Core.List.{List, [], ◌∷◌, ◌++◌}
use mathlib.Core.Option.{Option, none, some}
use native.Mathlib.Omega.{arith}
use text.Mathlib.Text.{◌==◌ as str_eq}
use text.Mathlib.TextEquality.{eq_iff}
use cadenza.Prelude.Tests.{if◌then◌else◌}

module _ {ℓ} {A : Type ℓ} where
  abbrev pub length : List A → ℕ
  length [] = 0
  length (x ∷ xs) = suc (length xs)

  abbrev pub get_or : List A → ℕ → A → A
  get_or [] i d = d
  get_or (x ∷ xs) zero d = x
  get_or (x ∷ xs) (suc i) d = get_or xs i d

  abbrev pub take : ℕ → List A → List A
  take zero xs = []
  take (suc n) [] = []
  take (suc n) (x ∷ xs) = x ∷ take n xs

  abbrev pub drop : ℕ → List A → List A
  drop zero xs = xs
  drop (suc n) [] = []
  drop (suc n) (x ∷ xs) = drop n xs

  -- The elements that pass a test, in order.
  abbrev pub keep : (A → Bool) → List A → List A
  keep p [] = []
  keep p (x ∷ xs) = let rest = keep p xs in if p x then x ∷ rest else rest

  abbrev pub All {κ} : (A → Type κ) → List A → Type κ
  All P [] = Unit
  All P (x ∷ xs) = P x × All P xs

  pub length-append : (xs ys : List A) → length (xs ++ ys) ≡ length xs + length ys
  length-append [] ys = omega arith
  length-append (x ∷ xs) ys = omega (arith, length-append xs ys)

-- A table of rows, each with a text key.
module _ {ℓ} {A : Type ℓ} (key : A → String) where
  unfoldable pub find : String → List A → Option A
  find k [] = none
  find k (x ∷ xs) = if str_eq (key x) k then some x else find k xs

  -- Every row with the key gets a new value.
  unfoldable pub replace : String → (A → A) → List A → List A
  replace k f [] = []
  replace k f (x ∷ xs) = (if str_eq (key x) k then f x else x) ∷ replace k f xs

  unfoldable pub without : String → List A → List A
  without k [] = []
  without k (x ∷ xs) = let rest = without k xs in if str_eq (key x) k then rest else x ∷ rest

  pub find-append :
      (k : String) (x : A) (xs : List A)
      → find k xs ≡ none
      → find k (xs ++ x ∷ []) ≡ (if str_eq (key x) k then some x else none)
  unfolding find
  find-append k x [] h = refl
  find-append k x (y ∷ ys) h = ground (arith, find-append k x ys)

  pub find-append_some :
      (k : String) (x y : A) (xs : List A) → find k xs ≡ some y → find k (xs ++ x ∷ []) ≡ some y
  unfolding find
  find-append_some k x y [] h = ground arith
  find-append_some k x y (z ∷ zs) h = ground (arith, find-append_some k x y zs)

  pub find-key : (k : String) (x : A) (xs : List A) → find k xs ≡ some x → key x ≡ k
  unfolding find
  find-key k x [] h = ground arith
  find-key k x (y ∷ ys) h = ground (arith, find-key k x ys, eq_iff (key y) k)

  pub find-without :
      (k j : String) (xs : List A)
      → find j (without k xs) ≡ (if str_eq k j then none else find j xs)
  unfolding find without
  find-without k j [] = ground arith
  find-without k j (x ∷ xs) =
      ground (arith, find-without k j xs, eq_iff (key x) k, eq_iff (key x) j, eq_iff k j)

abbrev pub on_some {ℓ κ} : {A : Type ℓ} {B : Type κ} → (A → B) → Option A → Option B
on_some f none = none
on_some f (some a) = some (f a)

module _ {ℓ} {A : Type ℓ} (key : A → String) where
  pub find-replace :
      (k j : String) (f : A → A) (xs : List A)
      → ((x : A) → key (f x) ≡ key x)
      → find key j (replace key k f xs)
        ≡ (if str_eq k j then on_some f (find key j xs) else find key j xs)
  unfolding find replace
  find-replace k j f [] same = ground arith
  find-replace k j f (x ∷ xs) same = ground (
    arith,
    find-replace k j f xs same,
    same x,
    eq_iff (key x) k,
    eq_iff (key x) j,
    eq_iff (key (f x)) j,
    eq_iff k j,
  )

  -- A row that is replaced whole, by one with the same key.
  pub find-replace_all :
      (k j : String) (c : A) (xs : List A)
      → key c ≡ k
      → find key j (replace key k (λ _. c) xs)
        ≡ (if str_eq k j then on_some (λ _. c) (find key j xs) else find key j xs)
  unfolding find replace
  find-replace_all k j c [] same = ground arith
  find-replace_all k j c (x ∷ xs) same = ground (
    arith,
    find-replace_all k j c xs same,
    eq_iff (key x) k,
    eq_iff (key x) j,
    eq_iff (key c) j,
    eq_iff k j,
  )

  pub find-append_ne :
      (k : String) (x : A) (xs : List A)
      → str_eq (key x) k ≡ false
      → find key k (xs ++ x ∷ []) ≡ find key k xs
  unfolding find
  find-append_ne k x [] h = ground arith
  find-append_ne k x (y ∷ ys) h = ground (arith, find-append_ne k x ys)
