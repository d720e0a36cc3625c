-- ===== src/Base/Lists.antt =====
-- Lists measured by the native numbers, predicates over lists, and the search that removes what it
-- finds: the loop over a TAILQ that stops at the first match and unlinks it.
use Prim.Native.Nat.{ℕ, suc, ◌+◌}
use mathlib.Core.Path.{◌≡◌, refl}
use mathlib.Core.Logic.{inl, inr}
use mathlib.Core.Bool.{Bool, true, false}
use mathlib.Core.Option.{Option, none, some}
use mathlib.Core.Option
use mathlib.Core.List.{List, [], ◌∷◌, ◌++◌}
use native.Mathlib.Omega.{arith}
use disqueue.Base.Tests.{if◌then◌else◌, Bool-cases}

abbrev pub All {ℓ κ} : {A : Type ℓ} → (A → Type κ) → List A → Type κ
All P [] = Unit
All P (x ∷ xs) = P x × All P xs

module _ {ℓ} {A : Type ℓ} where
  abbrev pub length : List A → ℕ
  length [] = 0
  length (x ∷ xs) = suc (length xs)

  -- How many elements pass a test.
  abbrev pub count_if : (A → Bool) → List A → ℕ
  count_if p [] = 0
  count_if p (x ∷ xs) = (if p x then 1 else 0) + count_if p xs

  -- The first element that passes.
  unfoldable pub find : (A → Bool) → List A → Option A
  find p [] = none
  find p (x ∷ xs) = if p x then some x else find p xs

  -- The first element that passes, and the list without it.
  unfoldable pub split_first : (A → Bool) → List A → Option (A × List A)
  split_first p [] = none
  split_first p (x ∷ xs) =
      if p x then some (x, xs) else Option.map (λ r. (r.0, x ∷ r.1)) (split_first p xs)

  pub length-append : (xs ys : List A) → length (xs ++ ys) ≡ length xs + length ys
  length-append [] ys = omega arith
  length-append (x ∷ xs) ys = omega (arith, length-append xs ys)

  pub count_if-append :
      (p : A → Bool) (xs ys : List A) → count_if p (xs ++ ys) ≡ count_if p xs + count_if p ys
  count_if-append p [] ys = omega arith
  count_if-append p (x ∷ xs) ys = omega (arith, count_if-append p xs ys)

  pub All-append {κ} : (P : A → Type κ) (xs ys : List A) → All P xs → All P ys → All P (xs ++ ys)
  All-append P [] ys front back = back
  All-append P (x ∷ xs) ys front back = (front.0, All-append P xs ys front.1 back)

-- What a search that stops at the first match says of the list.
pub data Splits {ℓ} {A : Type ℓ} (p : A → Bool) (xs : List A) (o : Option (A × List A))
    : Type ℓ where
  missed : o ≡ none → All (λ x. p x ≡ false) xs → Splits p xs o
  hit :
      (x : A) (pre post : List A)
      → o ≡ some (x, pre ++ post)
      → xs ≡ pre ++ x ∷ post
      → All (λ y. p y ≡ false) pre
      → p x ≡ true
      → Splits p xs o

module _ {ℓ} {A : Type ℓ} where
  abbrev keep_head : A → A × List A → A × List A
  keep_head x r = (r.0, x ∷ r.1)

  Splits-cons :
      (p : A → Bool) (x : A) (xs : List A) (o : Option (A × List A))
      → p x ≡ false
      → Splits p xs o
      → Splits p (x ∷ xs) (Option.map (keep_head x) o)
  Splits-cons p x xs o e (missed a b) = missed (rw a refl) (e, b)
  Splits-cons p x xs o e (hit y pre post a b c d) =
      hit y (x ∷ pre) post (rw a refl) (rw b refl) (e, c) d

  pub split_first-Splits : (p : A → Bool) (xs : List A) → Splits p xs (split_first p xs)
  unfolding split_first
  split_first-Splits p [] = missed refl tt
  split_first-Splits p (x ∷ xs) = elim (Bool-cases (p x)) [
    | inl e ↦ rw e (hit x [] xs refl refl tt e)
    | inr e ↦ rw e (Splits-cons p x xs (split_first p xs) e (split_first-Splits p xs))
  ]

  find-keep_head :
      (x : A) (o : Option (A × List A))
      → Option.map (λ (r : A × List A). r.0) o
        ≡ Option.map (λ (r : A × List A). r.0) (Option.map (keep_head x) o)
  find-keep_head x none = refl
  find-keep_head x (some r) = refl

  pub find-split_first :
      (p : A → Bool) (xs : List A)
      → find p xs ≡ Option.map (λ (r : A × List A). r.0) (split_first p xs)
  unfolding find split_first
  find-split_first p [] = refl
  find-split_first p (x ∷ xs) = elim (Bool-cases (p x)) [
    | inl e ↦ rw e refl
    | inr e ↦ rw (e, find-split_first p xs) (find-keep_head x (split_first p xs))
  ]

  pub split_first-none :
      (p : A → Bool) (xs : List A) → All (λ x. p x ≡ false) xs → split_first p xs ≡ none
  unfolding split_first
  split_first-none p [] h = refl
  split_first-none p (x ∷ xs) h = rw (h.0, split_first-none p xs h.1)

  pub split_first-hit :
      (p : A → Bool) (pre post : List A) (x : A)
      → All (λ y. p y ≡ false) pre
      → p x ≡ true
      → split_first p (pre ++ x ∷ post) ≡ some (x, pre ++ post)
  unfolding split_first
  split_first-hit p [] post x h e = rw e
  split_first-hit p (y ∷ pre) post x h e = rw (h.0, split_first-hit p pre post x h.1 e)

  pub All-split {κ} :
      (P : A → Type κ) (pre post : List A) (x : A)
      → All P (pre ++ x ∷ post)
      → P x × All P (pre ++ post)
  All-split P [] post x h = h
  All-split P (y ∷ pre) post x h = let r = All-split P pre post x h.1 in (r.0, (h.0, r.1))

  pub count_if-split :
      (q : A → Bool) (pre post : List A) (x : A)
      → count_if q (pre ++ x ∷ post) ≡ (if q x then 1 else 0) + count_if q (pre ++ post)
  count_if-split q [] post x = refl
  count_if-split q (y ∷ pre) post x = omega (arith, count_if-split q pre post x)

  pub length-split :
      (pre post : List A) (x : A) → length (pre ++ x ∷ post) ≡ suc (length (pre ++ post))
  length-split [] post x = refl
  length-split (y ∷ pre) post x = omega (arith, length-split pre post x)

  -- A new last element is found where no other passes.
  pub find-append_one :
      (p : A → Bool) (xs : List A) (x : A)
      → find p xs ≡ none
      → find p (xs ++ x ∷ []) ≡ (if p x then some x else none)
  unfolding find
  find-append_one p [] x h = refl
  find-append_one p (y ∷ xs) x h = elim (Bool-cases (p y)) [
    | inl e ↦ let d = rw e at h in cc
    | inr e ↦ rw e (find-append_one p xs x (rw e at h))
  ]
