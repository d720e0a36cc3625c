-- ===== src/Queue/Counts.antt =====
-- The four counters of a queue say how long its lists are and how many of their nodes have a key.
-- queue_put, queue_take and queue_peek skip their loops by these counters.
use disqueue.Base.{
  ℕ, suc, ◌%◌, ◌≡◌, ap, ◌∙◌, Bool, List, [], ◌∷◌, ◌++◌, if◌then◌else◌, length, count_if,
  length-append, count_if-append, length-split, count_if-split, arith,
}
use disqueue.Queue.State.{
  Item, Callback, Queue, size_mod, size_inc, size_dec, is_keyed, is_keyed_callback,
}
use disqueue.Queue.Ops.{insert_item, remove_item, insert_callback, queue_callback_free_}

-- The counters are those of the lists, as far as a `size_t` counts.
pub record Counts {C : Type 0} (q : Queue C) : Type 0 where
  pub items_counted : q.item_count ≡ length q.items % size_mod
  pub keyed_counted : q.keyed_count ≡ count_if is_keyed q.items % size_mod
  pub callbacks_counted : q.callback_count ≡ length q.callbacks % size_mod
  pub keyed_callbacks_counted :
      q.keyed_callback_count ≡ count_if is_keyed_callback q.callbacks % size_mod

size_inc-mod : (a n : ℕ) → a ≡ n % size_mod → size_inc a ≡ suc n % size_mod
size_inc-mod a n e = omega arith

size_dec-mod : (a n : ℕ) → a ≡ suc n % size_mod → size_dec a ≡ n % size_mod
size_dec-mod a n e = omega arith

module _ {A : Type 0} (p : A → Bool) (x : A) where
  -- The counter of the nodes with a key, when one is linked at the end or unlinked.
  keyed_inc :
      (a : ℕ) (xs : List A)
      → a ≡ count_if p xs % size_mod
      → (if p x then size_inc a else a) ≡ count_if p (xs ++ x ∷ []) % size_mod
  keyed_inc a xs e = ground (arith, count_if-append p xs (x ∷ []))

  keyed_dec :
      (a : ℕ) (pre post : List A)
      → a ≡ count_if p (pre ++ x ∷ post) % size_mod
      → (if p x then size_dec a else a) ≡ count_if p (pre ++ post) % size_mod
  keyed_dec a pre post e = ground (arith, count_if-split p pre post x)

module _ {C : Type 0} {q : Queue C} (v : Counts q) where
  pub insert_item-Counts : (item : Item) → Counts (insert_item item q)
  insert_item-Counts item = record {
    items_counted = omega (arith, v.items_counted, length-append q.items (item ∷ []));
    keyed_counted = keyed_inc is_keyed item q.keyed_count q.items v.keyed_counted;
    callbacks_counted = v.callbacks_counted;
    keyed_callbacks_counted = v.keyed_callbacks_counted;
  }

  pub insert_callback-Counts : (callback : Callback C) → Counts (insert_callback callback q)
  insert_callback-Counts callback = record {
    items_counted = v.items_counted;
    keyed_counted = v.keyed_counted;
    callbacks_counted =
        omega (arith, v.callbacks_counted, length-append q.callbacks (callback ∷ []));
    keyed_callbacks_counted =
        keyed_inc is_keyed_callback callback q.keyed_callback_count q.callbacks
          v.keyed_callbacks_counted;
  }

  pub remove_item-Counts :
      (item : Item) (pre post : List Item)
      → q.items ≡ pre ++ item ∷ post
      → Counts (remove_item item (pre ++ post) q)
  remove_item-Counts item pre post e = record {
    items_counted = omega (arith, v.items_counted, ap length e, length-split pre post item);
    keyed_counted =
        keyed_dec is_keyed item q.keyed_count pre post
          (v.keyed_counted ∙ ap (λ xs. count_if is_keyed xs % size_mod) e);
    callbacks_counted = v.callbacks_counted;
    keyed_callbacks_counted = v.keyed_callbacks_counted;
  }

  pub queue_callback_free_-Counts :
      (callback : Callback C) (pre post : List (Callback C))
      → q.callbacks ≡ pre ++ callback ∷ post
      → Counts (queue_callback_free_ callback (pre ++ post) q)
  unfolding queue_callback_free_
  queue_callback_free_-Counts callback pre post e = record {
    items_counted = v.items_counted;
    keyed_counted = v.keyed_counted;
    callbacks_counted =
        omega (arith, v.callbacks_counted, ap length e, length-split pre post callback);
    keyed_callbacks_counted =
        keyed_dec is_keyed_callback callback q.keyed_callback_count pre post
          (v.keyed_callbacks_counted ∙ ap (λ xs. count_if is_keyed_callback xs % size_mod) e);
  }
