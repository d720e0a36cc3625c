-- ===== src/Queue/Invariant.antt =====
-- What holds of a queue between two operations, whatever the operations were.
use disqueue.Base.{
  ℕ, suc, ◌≤◌, ◌≡◌, subst, ◌∙◌, ap, false, List, [], ◌∷◌, ◌++◌, length, arith, All, inl, inr,
  strcase_eq_comm, Option-cases, length-append, length-split, All-append, All-split,
}
use disqueue.Queue.State.{Item, Callback, Queue, item_matches, callback_accepts}
use disqueue.Queue.Ops.{insert_item, insert_callback, remove_item}
use disqueue.Queue.Counts.{Counts, insert_item-Counts, insert_callback-Counts, remove_item-Counts}

module _ {C : Type 0} where
  -- No callback that waits accepts this item.
  abbrev pub Unwanted : List (Callback C) → Item → Type 0
  Unwanted callbacks item = All (λ c. callback_accepts item.key c ≡ false) callbacks

  -- No item of the queue is one that some callback waits for.
  abbrev pub IsQuiet : Queue C → Type 0
  IsQuiet q = All (Unwanted q.callbacks) q.items

  -- A callback accepts the items that its key would take.
  accepts-matches :
      (item : Item) (c : Callback C) → callback_accepts item.key c ≡ item_matches c.key item
  unfolding callback_accepts item_matches
  accepts-matches item c = elim (Option-cases c.key) [
    | inl e ↦ ground arith
    | inr (k, e) ↦ elim (Option-cases item.key) [
      | inl d ↦ ground arith
      | inr (j, d) ↦ ground (arith, strcase_eq_comm k j)
    ]
  ]

  -- The invariant after at most `n` operations.
  pub record Inv (n : ℕ) (q : Queue C) : Type 0 where
    pub counts : Counts q
    pub quiet : IsQuiet q
    pub items_bounded : length q.items ≤ n
    pub callbacks_bounded : length q.callbacks ≤ n

  Unwanted-split :
      (pre post : List (Callback C)) (c : Callback C) (items : List Item)
      → All (Unwanted (pre ++ c ∷ post)) items
      → All (Unwanted (pre ++ post)) items
  Unwanted-split pre post c [] h = tt
  Unwanted-split pre post c (x ∷ xs) h = (
    (All-split (λ d. callback_accepts x.key d ≡ false) pre post c h.0).1,
    Unwanted-split pre post c xs h.1,
  )

  Unwanted-append :
      (cs : List (Callback C)) (c : Callback C) (items : List Item)
      → All (λ x. item_matches c.key x ≡ false) items
      → All (Unwanted cs) items
      → All (Unwanted (cs ++ c ∷ [])) items
  Unwanted-append cs c [] m h = tt
  Unwanted-append cs c (x ∷ xs) m h = (
    All-append (λ d. callback_accepts x.key d ≡ false) cs (c ∷ []) h.0
        (accepts-matches x c ∙ m.0, tt),
    Unwanted-append cs c xs m.1 h.1,
  )

module _ {C : Type 0} {n : ℕ} {q : Queue C} (v : Inv n q) where
  pub insert_item-Inv : (item : Item) → Unwanted q.callbacks item → Inv (suc n) (insert_item item q)
  insert_item-Inv item u = record {
    counts = insert_item-Counts v.counts item;
    quiet = All-append (Unwanted q.callbacks) q.items (item ∷ []) v.quiet (u, tt);
    items_bounded = omega (arith, v.items_bounded, length-append q.items (item ∷ []));
    callbacks_bounded = omega (arith, v.callbacks_bounded);
  }

  pub insert_callback-Inv :
      (c : Callback C)
      → All (λ x. item_matches c.key x ≡ false) q.items
      → Inv (suc n) (insert_callback c q)
  insert_callback-Inv c m = record {
    counts = insert_callback-Counts v.counts c;
    quiet = Unwanted-append q.callbacks c q.items m v.quiet;
    items_bounded = omega (arith, v.items_bounded);
    callbacks_bounded = omega (arith, v.callbacks_bounded, length-append q.callbacks (c ∷ []));
  }

  pub remove_item-Inv :
      (item : Item) (pre post : List Item)
      → q.items ≡ pre ++ item ∷ post
      → Inv (suc n) (remove_item item (pre ++ post) q)
  remove_item-Inv item pre post e = record {
    counts = remove_item-Counts v.counts item pre post e;
    quiet =
        (All-split (Unwanted q.callbacks) pre post item
          (subst (All (Unwanted q.callbacks)) e v.quiet)).1;
    items_bounded = omega (arith, v.items_bounded, ap length e, length-split pre post item);
    callbacks_bounded = omega (arith, v.callbacks_bounded);
  }

  pub suc-Inv : Inv (suc n) q
  suc-Inv = record {
    counts = v.counts;
    quiet = v.quiet;
    items_bounded = omega (arith, v.items_bounded);
    callbacks_bounded = omega (arith, v.callbacks_bounded);
  }
