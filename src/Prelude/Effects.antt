-- ===== src/Prelude/Effects.antt =====
-- Operations that read and write a state and may return an error. What was written before the
-- error stays written, so the state comes back in either case.

use mathlib.Core.Path.{◌≡◌, refl}
use mathlib.Core.Bool.{Bool, true, false}
use cadenza.Prelude.Tests.{if◌then◌else◌}

pub data Result {ℓ κ} (E : Type ℓ) (A : Type κ) : Type (ℓ ⊔ κ) where
  ok : A → Result E A
  err : E → Result E A

abbrev pub Exec {ℓ} : Type ℓ → Type ℓ → Type ℓ → Type ℓ
Exec S E A = S → Result E A × S

module _ {ℓ} {S E A : Type ℓ} where
  abbrev pub pure : A → Exec S E A
  pure a s = (ok a, s)

  abbrev pub raise : E → Exec S E A
  raise e s = (err e, s)

module _ {ℓ} {S E A B : Type ℓ} where
  abbrev pub continue : Result E A → (A → Exec S E B) → Exec S E B
  continue (ok a) f s = f a s
  continue (err e) f s = (err e, s)

  infixl 10 ◌>>=◌ ◌>>◌
  abbrev pub ◌>>=◌ : Exec S E A → (A → Exec S E B) → Exec S E B
  ◌>>=◌ m f s = let (r, s') = m s in continue r f s'

  abbrev pub ◌>>◌ : Exec S E A → Exec S E B → Exec S E B
  m >> n = m >>= λ _. n

  -- The error of `m` is dropped: the calls that the source marks best effort.
  abbrev pub ignore_error : Exec S E A → B → Exec S E B
  ignore_error m b s = (ok b, (m s).1)

-- `m` keeps `P`, whether it returns or raises.
pub record Keeps {ℓ} {S E A : Type ℓ} (P : S → Type ℓ) (m : Exec S E A) : Type ℓ where
  pub at : (s : S) → P s → P (m s).1

-- A test keeps what both of its branches keep.
pub Keeps-if {ℓ} :
    {S E A : Type ℓ} (P : S → Type ℓ) (b : Bool) (m n : Exec S E A)
    → (b ≡ true → Keeps P m)
    → (b ≡ false → Keeps P n)
    → Keeps P (if b then m else n)
Keeps-if P true m n km kn = km refl
Keeps-if P false m n km kn = kn refl

module _ {ℓ} {S E A B : Type ℓ} {P : S → Type ℓ} where
  pub Keeps-continue :
      (r : Result E A) (f : A → Exec S E B) → ((a : A) → Keeps P (f a)) → Keeps P (continue r f)
  Keeps-continue (ok a) f kf = kf a
  Keeps-continue (err e) f kf = record { at = λ s h. h }

  pub Keeps-bind :
      (m : Exec S E A) (f : A → Exec S E B)
      → Keeps P m
      → ((a : A) → Keeps P (f a))
      → Keeps P (m >>= f)
  Keeps-bind m f km kf = record { at = λ s h. (Keeps-continue (m s).0 f kf).at (m s).1 (km.at s h) }

  -- What follows may rely on what is known of the value of `m`.
  pub Keeps-bind_with {κ} :
      (m : Exec S E A) (f : A → Exec S E B) (Q : A → Type κ)
      → Keeps P m
      → ((s : S) (a : A) → (m s).0 ≡ ok a → Q a)
      → ((a : A) → Q a → Keeps P (f a))
      → Keeps P (m >>= f)
  Keeps-bind_with m f Q km known kf = record { at = λ s h. go s (m s).0 refl (km.at s h) }
    where
      go : (s : S) (r : Result E A) → (m s).0 ≡ r → P (m s).1 → P (continue r f (m s).1).1
      go s (ok a) e h = (kf a (known s a e)).at (m s).1 h
      go s (err x) e h = h

  -- What follows may rely on what is known of the value of `m` in the state that it leaves.
  pub Keeps-bind_known {κ} :
      (m : Exec S E A) (f : A → Exec S E B) (Q : A → S → Type κ)
      → Keeps P m
      → ((s : S) (a : A) → (m s).0 ≡ ok a → Q a (m s).1)
      → ((a : A) (s : S) → Q a s → P s → P (f a s).1)
      → Keeps P (m >>= f)
  Keeps-bind_known m f Q km known kf = record { at = λ s h. go s (m s).0 refl (km.at s h) }
    where
      go : (s : S) (r : Result E A) → (m s).0 ≡ r → P (m s).1 → P (continue r f (m s).1).1
      go s (ok a) e h = kf a (m s).1 (known s a e) h
      go s (err x) e h = h

module _ {ℓ} {S E A B : Type ℓ} where
  -- What holds after both outcomes of `m` holds after the whole.
  pub bind_cases {κ} :
      (R : Result E B × S → Type κ) (m : Exec S E A) (f : A → Exec S E B) (s : S)
      → ((a : A) → (m s).0 ≡ ok a → R (f a (m s).1))
      → ((e : E) → (m s).0 ≡ err e → R (err e, (m s).1))
      → R ((m >>= f) s)
  bind_cases R m f s on_ok on_err = go (m s).0 refl
    where
      go : (r : Result E A) → (m s).0 ≡ r → R (continue r f (m s).1)
      go (ok a) e = on_ok a e
      go (err x) e = on_err x e
