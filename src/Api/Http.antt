-- ===== src/Api/Http.antt =====
-- internal/api: what the handlers share. A handler returns the code and the value of its answer,
-- or the code of a refusal; the texts of refusals are left out.
pub mod Steps
use Prim.Native.String.{◌++◌ as concat}
use cadenza.Prelude.{
  ℕ, zero, suc, ◌/◌, ◌%◌, ◌==◌, List, [], ◌∷◌, get_or, String, Bool, true, false, Option, none,
  some, Result, ok, err, Exec, pure, raise, str_eq, if◌then◌else◌,
}
use cadenza.Store.{Error, not_found}

pub data Method : Type 0 where
  get post delete options other_method : Method

abbrev pub is_get : Method → Bool
is_get get = true
is_get _ = false

abbrev pub is_post : Method → Bool
is_post post = true
is_post _ = false

-- A condition under which the request is refused.
abbrev pub refuse_if : {S : Type 0} → Bool → ℕ → Exec S ℕ (Unit {0})
refuse_if true code = raise code
refuse_if false code = pure tt

-- A value that the request must have.
abbrev pub or_refuse : {S A : Type 0} → ℕ → Option A → Exec S ℕ A
or_refuse code none = raise code
or_refuse code (some a) = pure a

-- An operation whose error becomes a refusal.
abbrev pub refusal_of : {A : Type 0} → (Error → ℕ) → Result Error A → Result ℕ A
refusal_of code (ok a) = ok a
refusal_of code (err e) = err (code e)

abbrev pub refuse_as : {S A : Type 0} → (Error → ℕ) → Exec S Error A → Exec S ℕ A
refuse_as code m s = (refusal_of code (m s).0, (m s).1)

abbrev pub always : ℕ → Error → ℕ
always code e = code

-- A task that does not exist is 404, any other error 400.
abbrev pub missing_or_bad : Error → ℕ
missing_or_bad not_found = 404
missing_or_bad _ = 400

-- The user who is logged in, the name in the body, or a fixed name.
unfoldable pub approver_of : String → String → String
approver_of username body =
    if str_eq username "" then (if str_eq body "" then "user" else body) else username

digit_texts : List String
digit_texts = "0" ∷ "1" ∷ "2" ∷ "3" ∷ "4" ∷ "5" ∷ "6" ∷ "7" ∷ "8" ∷ "9" ∷ []

unfoldable pub number_digits : ℕ → ℕ → String → String
unfolding digit_texts
number_digits zero n rest = rest
number_digits (suc fuel) n rest =
    let text = concat (get_or digit_texts (n % 10) "") rest in
    let more = number_digits fuel (n / 10) text in if n / 10 == 0 then text else more

-- The verb %d as a text.
unfoldable pub number_text : ℕ → String
unfolding number_digits
number_text n = number_digits (suc n) n ""
