-- ===== src/Queue/Skips.antt =====
-- The tests on the counters that skip a loop never skip one that would have found something.
use disqueue.Base.{
  suc, ◌<◌, ◌≡◌, Bool, true, false, Option, none, some, List, [], ◌∷◌, Bytes, length, count_if,
  arith, All, Bool-cases, inl, inr,
}
use disqueue.Queue.State.{
  Item, Callback, Queue, size_mod, item_matches, callback_accepts, is_keyed, is_keyed_callback,
}
use disqueue.Queue.Ops.{may_match, may_deliver}
use disqueue.Queue.Counts.{Counts}

module _ {A : Type 0} (p : A → Bool) where
  All-count_zero : (xs : List A) → count_if p xs ≡ 0 → All (λ x. p x ≡ false) xs
  All-count_zero [] e = tt
  All-count_zero (x ∷ xs) e = elim (Bool-cases (p x)) [
    | inl h ↦ absurd (ground arith)
    | inr h ↦ (h, All-count_zero xs (ground arith))
  ]

  count_if-le : (xs : List A) → count_if p xs < suc (length xs)
  count_if-le [] = omega arith
  count_if-le (x ∷ xs) = ground (arith, count_if-le xs)

  All-count-All : (xs : List A) → count_if p xs ≡ length xs → All (λ x. p x ≡ true) xs
  All-count-All [] e = tt
  All-count-All (x ∷ xs) e = elim (Bool-cases (p x)) [
    | inl h ↦ (h, All-count-All xs (ground arith))
    | inr h ↦ absurd (ground (arith, count_if-le xs))
  ]

  All-weaken :
      {q : A → Bool} {b c : Bool} (xs : List A)
      → ((x : A) → p x ≡ b → q x ≡ c)
      → All (λ x. p x ≡ b) xs
      → All (λ x. q x ≡ c) xs
  All-weaken [] f h = tt
  All-weaken (x ∷ xs) f h = (f x h.0, All-weaken xs f h.1)

  All-length_zero : (xs : List A) → length xs ≡ 0 → All (λ x. p x ≡ false) xs
  All-length_zero [] e = tt
  All-length_zero (x ∷ xs) e = absurd (omega arith)

unkeyed_mismatch :
    (k : Bytes) (item : Item) → is_keyed item ≡ false → item_matches (some k) item ≡ false
unfolding item_matches
unkeyed_mismatch k item h = ground arith

module _ {C : Type 0} where
  keyed_refuses : (c : Callback C) → is_keyed_callback c ≡ true → callback_accepts none c ≡ false
  unfolding callback_accepts
  keyed_refuses c h = ground arith

  pub may_match-false :
      (key : Option Bytes) {q : Queue C}
      → Counts q
      → length q.items < size_mod
      → may_match key q ≡ false
      → All (λ x. item_matches key x ≡ false) q.items
  unfolding may_match
  may_match-false none {q} v b e = All-length_zero (item_matches none) q.items (ground arith)
  may_match-false (some k) {q} v b e =
      All-weaken is_keyed q.items (unkeyed_mismatch k)
        (All-count_zero is_keyed q.items (ground (arith, count_if-le is_keyed q.items)))

  pub may_deliver-false :
      (key : Option Bytes) {q : Queue C}
      → Counts q
      → length q.callbacks < size_mod
      → may_deliver key q ≡ false
      → All (λ x. callback_accepts key x ≡ false) q.callbacks
  unfolding may_deliver
  may_deliver-false (some k) {q} v b e =
      All-length_zero (callback_accepts (some k)) q.callbacks (ground arith)
  may_deliver-false none {q} v b e = All-weaken is_keyed_callback q.callbacks keyed_refuses (
      All-count-All is_keyed_callback q.callbacks
        (ground (arith, count_if-le is_keyed_callback q.callbacks)))
