-- ===== src/Base/Options.antt =====
-- Code that goes on only where a value was found.
use mathlib.Core.Path.{◌≡◌, refl}
use mathlib.Core.Option.{Option, none, some}

module _ {ℓ κ} {A : Type ℓ} {B : Type κ} where
  infixl 5 ◌>>=◌
  -- A missing value ends the chain.
  abbrev pub ◌>>=◌ : Option A → (A → Option B) → Option B
  none >>= next = none
  some a >>= next = next a

  pub >>=-some :
      (m : Option A) (next : A → Option B) (b : B)
      → (m >>= next) ≡ some b
      → (a : A) × (m ≡ some a) × (next a ≡ some b)
  >>=-some none next b h = cc
  >>=-some (some a) next b h = (a, refl, h)
