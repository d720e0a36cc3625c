-- ===== src/Queue/Borrow.antt =====
-- The memory of an item that its queue does not hold: which addresses were handed out, and what a read
-- or a free through one does. queue_put and queue_wait free an item when its callback has returned.
use disqueue.Base.{
  ℕ, ◌<◌, ◌≡◌, refl, true, false, none, List, [], ◌∷◌, ok, fault, use_after_free, arith, All, find,
  is_zero, ==_refl,
}
use disqueue.Queue.State.{Item, Store}
use disqueue.Queue.Item.{queue_item_free, load, at}

-- No item of the list has an address from `n` on.
abbrev pub AddrsBelow : ℕ → List Item → Type 0
AddrsBelow n = All (λ x. x.addr < n)

pub find-AddrsBelow : (a : ℕ) (xs : List Item) → AddrsBelow a xs → find (at a) xs ≡ none
unfolding find
find-AddrsBelow a [] h = refl
find-AddrsBelow a (x ∷ xs) h = ground (arith, find-AddrsBelow a xs h.1)

-- Every address in use was handed out, and `next` was not.
pub record IsFresh {C X : Type 0} (s : Store C X) : Type 0 where
  pub detached_below : AddrsBelow s.next s.detached
  pub items_below : AddrsBelow s.next s.queue.items

module _ {C X : Type 0} where
  pub load-head :
      (item : Item) (rest : List Item) (s : Store C X)
      → load item.addr (record s { detached = item ∷ rest }) ≡ ok item
  unfolding load find
  load-head item rest s = rw (==_refl item.addr, load) refl

  -- A free of the item that was detached last.
  pub queue_item_free-head :
      (item : Item) (rest : List Item) (s : Store C X)
      → item.inserted ≡ false
      → is_zero item.lockcount ≡ true
      → queue_item_free item.addr (record s { detached = item ∷ rest })
        ≡ ok (record s { detached = rest })
  unfolding queue_item_free
  queue_item_free-head item rest s i z =
      rw (load-head item rest s) (rw z (rw (i, ==_refl item.addr) refl))

  -- A pointer that was never handed out, or whose block is free again, cannot be read or freed.
  pub queue_item_free-dangling :
      (a : ℕ) (s : Store C X)
      → AddrsBelow a s.detached
      → AddrsBelow a s.queue.items
      → queue_item_free a s ≡ fault use_after_free
  unfolding queue_item_free
  queue_item_free-dangling a s d i =
      rw (find-AddrsBelow a s.detached d, find-AddrsBelow a s.queue.items i, load) refl
