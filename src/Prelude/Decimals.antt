-- ===== src/Prelude/Decimals.antt =====
-- A number that is printed is read back.
use Prim.Native.Nat.{ℕ, zero, suc, ◌+◌, ◌-◌, ◌*◌, ◌/◌, ◌%◌, ◌^◌, ◌≤◌, ◌<◌}
use mathlib.Core.Path.{◌≡◌, refl, sym, ap, ◌∙◌, subst}
use mathlib.Core.Logic.{inl, inr}
use mathlib.Core.Bool.{true, false}
use mathlib.Core.Option.{some}
use mathlib.Core.List.{[], ◌∷◌, ◌++◌, reverse, reverse-cons, reverse-reverse}
use native.Mathlib.Omega.{arith}
use cadenza.Prelude.Tests.{ltb, ◌==◌, Bool-cases}
use cadenza.Prelude.Lists.{All}
use cadenza.Prelude.Texts.{Bytes, digits, decimal, trim_left, trim_space}
use cadenza.Prelude.Numbers.{is_digit, digits_value, signed, in_range, number_in}

abbrev pub Digits : Bytes → Type 0
Digits s = All (λ (c : ℕ). is_digit c ≡ true) s

digits-Digits : (fuel n : ℕ) (rest : Bytes) → Digits rest → Digits (digits fuel n rest)
unfolding digits
digits-Digits zero n rest h = h
digits-Digits (suc fuel) n rest h = elim (Bool-cases (n / 10 == 0)) [
  | inl last ↦ rw last (ground arith, h)
  | inr more ↦ rw more (digits-Digits fuel (n / 10) ((48 + n % 10) ∷ rest) (ground arith, h))
]

-- The digits printed in front of a text have the value of the number.
digits_value-digits :
    (fuel n : ℕ) (rest : Bytes)
    → n < fuel
    → digits_value 0 (digits fuel n rest) ≡ digits_value n rest
unfolding digits digits_value
digits_value-digits zero n rest h = absurd (omega (arith, h))
digits_value-digits (suc fuel) n rest h = elim (Bool-cases (n / 10 == 0)) [
  | inl last ↦
      let low : n % 10 ≡ n = ground (arith, last) in
      let digit : is_digit (48 + n) ≡ true = ground (arith, last) in
      let value : 0 * 10 + (48 + n - 48) ≡ n = omega arith in rw (last, low, digit, value) refl
  | inr more ↦
      let small : n / 10 < fuel = ground (arith, more, h) in
      let digit : is_digit (48 + n % 10) ≡ true = ground arith in
      let value : n / 10 * 10 + (48 + n % 10 - 48) ≡ n = omega arith in
      rw (more, digits_value-digits fuel (n / 10) ((48 + n % 10) ∷ rest) small, digit, value) refl
]

digits-cons :
    (fuel n c : ℕ) (rest : Bytes) → (d : ℕ) × (s : Bytes) × (digits fuel n (c ∷ rest) ≡ d ∷ s)
unfolding digits
digits-cons zero n c rest = (c, rest, refl)
digits-cons (suc fuel) n c rest = elim (Bool-cases (n / 10 == 0)) [
  | inl last ↦ ((48 + n % 10), (c ∷ rest), rw last refl)
  | inr more ↦
      let (d, s, e) = digits-cons fuel (n / 10) (48 + n % 10) (c ∷ rest) in (d, s, rw more e)
]

pub decimal-cons : (n : ℕ) → (d : ℕ) × (s : Bytes) × (decimal n ≡ d ∷ s)
unfolding decimal digits
decimal-cons n = elim (Bool-cases (n / 10 == 0)) [
  | inl last ↦ ((48 + n % 10), [], rw last refl)
  | inr more ↦ let (d, s, e) = digits-cons n (n / 10) (48 + n % 10) [] in (d, s, rw more e)
]

pub decimal-Digits : (n : ℕ) → Digits (decimal n)
unfolding decimal
decimal-Digits n = digits-Digits (suc n) n [] tt

signed-Digits :
    (n d : ℕ) (s : Bytes)
    → Digits (d ∷ s)
    → digits_value 0 (d ∷ s) ≡ some n
    → n < 2 ^ 63
    → signed (d ∷ s) ≡ some (false, n)
unfolding signed
signed-Digits n d s (digit, rest) value small =
    let no_minus : (d == 45) ≡ false = ground (arith, digit) in
    let no_plus : (d == 43) ≡ false = ground (arith, digit) in
    let fits : ltb n (2 ^ 63) ≡ true = ground (arith, small) in
    rw (no_minus, no_plus, value, fits) refl

decimal_value : (n : ℕ) → digits_value 0 (decimal n) ≡ some n
unfolding decimal digits_value
decimal_value n = digits_value-digits (suc n) n [] (omega arith)

signed-decimal : (n : ℕ) → n < 2 ^ 63 → signed (decimal n) ≡ some (false, n)
signed-decimal n small =
    let (d, s, e) = decimal-cons n in
    ap signed e
    ∙ signed-Digits n d s (subst Digits e (decimal-Digits n))
        (ap (digits_value 0) (sym e) ∙ decimal_value n) small

pub number_in-decimal :
    (low high n : ℕ) → low ≤ n → n ≤ high → n < 2 ^ 63 → number_in low high (decimal n) ≡ some n
unfolding number_in
number_in-decimal low high n above below small =
    ap (in_range low high) (signed-decimal n small) ∙ ground arith

trim_left-Digits : (s : Bytes) → Digits s → trim_left s ≡ s
unfolding trim_left
trim_left-Digits [] h = refl
trim_left-Digits (c ∷ s) (digit, h) = ground (arith, digit)

Digits-append : (s t : Bytes) → Digits s → Digits t → Digits (s ++ t)
Digits-append [] t h k = k
Digits-append (c ∷ s) t (digit, h) k = (digit, Digits-append s t h k)

Digits-reverse : (s : Bytes) → Digits s → Digits (reverse s)
Digits-reverse [] h = tt
Digits-reverse (c ∷ s) (digit, h) =
    subst Digits (sym (reverse-cons c s))
      (Digits-append (reverse s) (c ∷ []) (Digits-reverse s h) (digit, tt))

-- No space is cut off digits.
pub trim_space-Digits : (s : Bytes) → Digits s → trim_space s ≡ s
unfolding trim_space
trim_space-Digits s h =
    rw (trim_left-Digits s h, trim_left-Digits (reverse s) (Digits-reverse s h)) (reverse-reverse s)
