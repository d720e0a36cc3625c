-- ===== src/Base/Results.antt =====
-- Outcomes of code that can fault: `fault` is undefined behaviour in C, an error result is a value.
use mathlib.Core.Path.{◌≡◌, refl, subst}
use mathlib.Core.Logic.{◌⊎◌, inl, inr}
use mathlib.Core.Bool.{Bool, true, false}
use disqueue.Base.Tests.{if◌then◌else◌}

pub data Fault : Type 0 where
  use_after_free null_dereference out_of_bounds : Fault

pub data Result {ℓ} (A : Type ℓ) : Type ℓ where
  ok : A → Result A
  fault : Fault → Result A

module _ {ℓ κ} {A : Type ℓ} {B : Type κ} where
  infixl 5 ◌>>=◌
  -- What follows a fault is not run.
  abbrev pub ◌>>=◌ : Result A → (A → Result B) → Result B
  fault e >>= next = fault e
  ok a >>= next = next a

-- If the code returns, what it returns has the property.
pub data Yields {ℓ κ} {A : Type ℓ} (P : A → Type κ) (r : Result A) : Type (ℓ ⊔ κ) where
  returns : (a : A) → r ≡ ok a → P a → Yields P r
  breaks : (f : Fault) → r ≡ fault f → Yields P r

module _ {ℓ} {A : Type ℓ} where
  pub Result-cases : (r : Result A) → ((a : A) × (r ≡ ok a)) ⊎ ((f : Fault) × (r ≡ fault f))
  Result-cases (ok a) = inl (a, refl)
  Result-cases (fault f) = inr (f, refl)

  module _ {κ} {P : A → Type κ} where
    pub yields : (a : A) → P a → Yields P (ok a)
    yields a p = returns a refl p

    pub by_test :
        (b : Bool) (x y : Result A) → Yields P x → Yields P y → Yields P (if b then x else y)
    by_test true x y s t = s
    by_test false x y s t = t

    pub yielded : (a : A) → Yields P (ok a) → P a
    yielded a (returns b e p) = let q : b ≡ a = cc in subst P q p
    yielded a (breaks f e) = cc

    pub bind-Yields {μ ν} :
        {B : Type μ} {Q : B → Type ν} (r : Result A) (next : A → Result B)
        → Yields P r
        → ((a : A) → P a → Yields Q (next a))
        → Yields Q (r >>= next)
    bind-Yields r next (returns a e p) h = rw e (h a p)
    bind-Yields r next (breaks f e) h = rw e (breaks f refl)

-- Code that always faults after some other code does not return.
pub breaks_after {ℓ κ μ ν} :
    {A : Type ℓ} {B : Type κ} {C : Type μ} {P : C → Type ν} (r : Result A) (f : Fault)
    (next : B → Result C)
    → Yields P (r >>= (λ a. fault f) >>= next)
breaks_after (ok a) f next = breaks f refl
breaks_after (fault g) f next = breaks g refl
