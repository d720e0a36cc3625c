-- ===== src/Queue/RoundTrip.antt =====
-- Two calls in a row: an item that is put and taken.
use mathlib.Core.List.{append-nil}
use disqueue.Base.{
  ℕ, suc, ◌+◌, ◌%◌, ◌<◌, ◌≡◌, refl, subst, ◌∙◌, ap, Bool, true, false, Option, none, some, [], ◌∷◌,
  ◌++◌, Bytes, ok, Result, length, arith, All, length-append,
}
use disqueue.Queue.State.{
  Item, Queue, Store, Invoke, size_mod, size_inc, size_dec, item_matches, callback_accepts,
}
use disqueue.Queue.Item.{Alloc}
use disqueue.Queue.Ops.{Status, pending, insert_item, remove_item, queue_take, queue_put}
use disqueue.Queue.Counts.{Counts, insert_item-Counts}
use disqueue.Queue.First.{
  All-refuted, queue_take-hit, new_item, queued_store, has_memory, Puts, no_memory, kept, consumed,
  queue_put-Puts,
}

size_dec-size_inc : (a n : ℕ) → a ≡ n % size_mod → size_dec (size_inc a) ≡ a
size_dec-size_inc a n e = omega arith

pub item_matches-inserted :
    (by : Option Bytes) (item : Item) (b : Bool)
    → item_matches by (record item { inserted = b }) ≡ item_matches by item
unfolding item_matches
item_matches-inserted none item b = refl
item_matches-inserted (some k) item b = refl

module _ {C : Type 0} {q : Queue C} (v : Counts q) where
  pub remove_item-insert_item :
      (item : Item) → remove_item item (q.items ++ []) (insert_item item q) ≡ q
  remove_item-insert_item item = rw (append-nil q.items) (
      ground (
        arith,
        size_dec-size_inc q.item_count (length q.items) v.items_counted,
        size_dec-size_inc q.keyed_count _ v.keyed_counted,
      ))

module _ {C X : Type 0} (invoke : Invoke C X) where
  -- On a queue whose counters are right and whose lists are shorter than 2^64, an item that no
  -- callback accepts, and that is the first to fit a key, is what the next queue_take by that key
  -- returns, if there is memory for it; the queue is then as it was, its counters included.
  pub queue_put-take :
      (key : Option Bytes) (value : Bytes) (mem : Alloc) (by : Option Bytes) (s : Store C X)
      → Counts s.queue
      → length s.queue.items + 1 < size_mod
      → length s.queue.callbacks < size_mod
      → has_memory key mem ≡ true
      → All (λ c. callback_accepts key c ≡ false) s.queue.callbacks
      → All (λ x. item_matches by x ≡ false) s.queue.items
      → item_matches by (new_item s.next key value) ≡ true
      → (queue_put invoke key value mem s ≡ ok (pending, queued_store key value s))
        × (queue_take by (queued_store key value s) ≡ (
          some (new_item s.next key value),
          record s { detached = new_item s.next key value ∷ s.detached; next = suc s.next },
        ))
  queue_put-take key value mem by s v b d m u none_fits fits =
      (put_pending (queue_put-Puts invoke key value mem s v d), take_new)
    where
      new : Item
      new = record (new_item s.next key value) { inserted = true }

      put_pending :
          {r : Result (Status × Store C X)}
          → Puts invoke key value mem s r
          → r ≡ ok (pending, queued_store key value s)
      put_pending (no_memory n e) = cc
      put_pending (kept _ _ e) = e
      put_pending (consumed c pre post _ l _ a e) = absurd (
          All-refuted (callback_accepts key) pre post c
            (subst (All (λ c. callback_accepts key c ≡ false)) l u) a)

      take_new : queue_take by (queued_store key value s) ≡ (
        some (new_item s.next key value),
        record s { detached = new_item s.next key value ∷ s.detached; next = suc s.next },
      )
      take_new =
          queue_take-hit by (queued_store key value s) new s.queue.items []
            (insert_item-Counts v new) (omega (arith, length-append s.queue.items (new ∷ []))) refl
            none_fits (item_matches-inserted by (new_item s.next key value) true ∙ fits)
          ∙ ap
              (λ (q : Queue C). (
                some (new_item s.next key value),
                record s {
                  queue = q;
                  detached = new_item s.next key value ∷ s.detached;
                  next = suc s.next;
                },
              ))
              (remove_item-insert_item v new)
