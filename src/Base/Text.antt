-- ===== src/Base/Text.antt =====
-- C strings as lists of bytes without the terminator, and the functions of <strings.h> and
-- <ctype.h> that the program calls, in the C locale.
use Prim.Native.Nat.{ℕ, ◌+◌}
use Prim.Native.Char.{code}
use Prim.Native.String.{String}
use mathlib.Core.Path.{◌≡◌, refl}
use mathlib.Core.Logic.{◌↔◌}
use mathlib.Core.Bool.{Bool, true, false, ◌&&◌}
use mathlib.Core.List.{List, [], ◌∷◌, map}
use native.Mathlib.Omega.{arith}
use disqueue.Base.Tests.{leb, ◌==◌, if◌then◌else◌}

abbrev pub Bytes : Type 0
Bytes = List ℕ

abbrev pub codes : String → Bytes
codes String.[] = []
codes (String.◌∷◌ c s) = code c ∷ codes s

unfoldable pub tolower : ℕ → ℕ
tolower c = if leb b'A' c && leb c b'Z' then c + 32 else c

-- `!strcasecmp(a, b)`.
unfoldable pub strcase_eq : Bytes → Bytes → Bool
unfolding tolower
strcase_eq [] [] = true
strcase_eq [] (_ ∷ _) = false
strcase_eq (_ ∷ _) [] = false
strcase_eq (a ∷ xs) (b ∷ bs) = tolower a == tolower b && strcase_eq xs bs

strcase_eq-map : (a b : Bytes) → strcase_eq a b ≡ true → map tolower a ≡ map tolower b
unfolding strcase_eq
strcase_eq-map [] [] h = refl
strcase_eq-map [] (b ∷ bs) h = cc
strcase_eq-map (a ∷ xs) [] h = cc
strcase_eq-map (a ∷ xs) (b ∷ bs) h = ground (arith, strcase_eq-map xs bs)

map-strcase_eq : (a b : Bytes) → map tolower a ≡ map tolower b → strcase_eq a b ≡ true
unfolding strcase_eq
map-strcase_eq [] [] h = refl
map-strcase_eq [] (b ∷ bs) h = cc
map-strcase_eq (a ∷ xs) [] h = cc
map-strcase_eq (a ∷ xs) (b ∷ bs) h = ground (arith, map-strcase_eq xs bs)

pub strcase_eq_iff : (a b : Bytes) → (strcase_eq a b ≡ true) ↔ (map tolower a ≡ map tolower b)
strcase_eq_iff a b = (strcase_eq-map a b, map-strcase_eq a b)

pub strcase_eq_refl : (a : Bytes) → strcase_eq a a ≡ true
strcase_eq_refl a = map-strcase_eq a a refl

pub strcase_eq_comm : (a b : Bytes) → strcase_eq a b ≡ strcase_eq b a
unfolding strcase_eq
strcase_eq_comm [] [] = refl
strcase_eq_comm [] (b ∷ bs) = refl
strcase_eq_comm (a ∷ xs) [] = refl
strcase_eq_comm (a ∷ xs) (b ∷ bs) = ground (arith, strcase_eq_comm xs bs)
