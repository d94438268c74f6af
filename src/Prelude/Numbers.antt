-- ===== src/Prelude/Numbers.antt =====
-- Go's strconv on bytes: what Atoi and ParseInt with base 10 and 64 bits make of a text.
use Prim.Native.Nat.{ℕ, ◌+◌, ◌-◌, ◌*◌, ◌^◌}
use mathlib.Core.Bool.{Bool, true, false, ◌&&◌}
use mathlib.Core.Option.{Option, none, some}
use mathlib.Core.List.{[], ◌∷◌}
use cadenza.Prelude.Tests.{ltb, leb, ◌==◌, if◌then◌else◌}
use cadenza.Prelude.Texts.{Bytes}

abbrev pub is_digit : ℕ → Bool
is_digit c = leb 48 c && leb c 57

-- The value of the digits that follow those read, or nothing where another byte is among them.
unfoldable pub digits_value : ℕ → Bytes → Option ℕ
digits_value acc [] = some acc
digits_value acc (c ∷ s) =
    let rest = digits_value (acc * 10 + (c - 48)) s in if is_digit c then rest else none

abbrev pub magnitude : Bytes → Option ℕ
magnitude [] = none
magnitude (c ∷ s) = digits_value 0 (c ∷ s)

-- A sign and a magnitude, the sign `true` for a number with a minus.
unfoldable pub signed : Bytes → Option (Bool × ℕ)
unfolding digits_value
signed [] = none
signed (c ∷ s) =
    if c == 45
    then elim (magnitude s) [
      | none ↦ none
      | some n ↦ if leb n (2 ^ 63) then some (true, n) else none
    ]
    else elim (magnitude (if c == 43 then s else c ∷ s)) [
      | none ↦ none
      | some n ↦ if ltb n (2 ^ 63) then some (false, n) else none
    ]

abbrev pub in_range : ℕ → ℕ → Option (Bool × ℕ) → Option ℕ
in_range low high none = none
in_range low high (some (true, n)) = if n == 0 && low == 0 then some 0 else none
in_range low high (some (false, n)) = if leb low n && leb n high then some n else none

-- The value of a text that is a number from `low` to `high`, where `low` is not negative.
unfoldable pub number_in : ℕ → ℕ → Bytes → Option ℕ
unfolding signed
number_in low high s = in_range low high (signed s)
