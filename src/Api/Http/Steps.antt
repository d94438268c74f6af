-- ===== src/Api/Http/Steps.antt =====
-- internal/api: what the parts of a handler keep, the whole handler keeps.
use cadenza.Prelude.{
  ℕ, Bool, true, false, Option, none, some, Exec, pure, ◌>>=◌, ◌>>◌, Keeps, Keeps-bind,
}
use cadenza.Store.{Error}
use cadenza.Api.Http.{refuse_if, or_refuse, refuse_as}

module _ {S : Type 0} (P : S → Type 0) where
  pub Keeps-answer : {A : Type 0} (x : A) → Keeps P (pure {S = S} {E = ℕ} x)
  Keeps-answer x = record { at = λ a g. g }

  pub Keeps-refuse_if : (wrong : Bool) (code : ℕ) → Keeps P (refuse_if wrong code)
  Keeps-refuse_if true code = record { at = λ a g. g }
  Keeps-refuse_if false code = record { at = λ a g. g }

  pub Keeps-or_refuse : {A : Type 0} (code : ℕ) (o : Option A) → Keeps P (or_refuse code o)
  Keeps-or_refuse code none = record { at = λ a g. g }
  Keeps-or_refuse code (some x) = record { at = λ a g. g }

  pub Keeps-refuse_as :
      {A : Type 0} (code : Error → ℕ) (m : Exec S Error A) → Keeps P m → Keeps P (refuse_as code m)
  Keeps-refuse_as code m h = record { at = h.at }

  pub Keeps-guard :
      {A : Type 0} (wrong : Bool) (code : ℕ) (m : Exec S ℕ A)
      → Keeps P m
      → Keeps P (refuse_if wrong code >> m)
  Keeps-guard wrong code m h =
      Keeps-bind (refuse_if wrong code) _ (Keeps-refuse_if wrong code) (λ _. h)

  pub Keeps-given :
      {A B : Type 0} (code : ℕ) (o : Option A) (f : A → Exec S ℕ B)
      → ((x : A) → Keeps P (f x))
      → Keeps P (or_refuse code o >>= f)
  Keeps-given code o f h = Keeps-bind (or_refuse code o) f (Keeps-or_refuse code o) h

  pub Keeps-tried :
      {A B : Type 0} (code : Error → ℕ) (m : Exec S Error A) (f : A → Exec S ℕ B)
      → Keeps P m
      → ((x : A) → Keeps P (f x))
      → Keeps P (refuse_as code m >>= f)
  Keeps-tried code m f k h = Keeps-bind (refuse_as code m) f (Keeps-refuse_as code m k) h
