-- ===== src/Queue/Item.antt =====
-- queue_item_* of src/queue.c: reading, locking and freeing an item through a pointer.
use disqueue.Base.{
  ℕ, suc, Bool, not, ◌&&◌, Option, none, some, List, [], ◌∷◌, Bytes, ◌==◌, if◌then◌else◌, find, pos,
  suc_ℤ, pred_ℤ, is_zero, Result, ok, fault, use_after_free, ◌>>=◌, zero, false,
}
use disqueue.Queue.State.{Item, Store}

abbrev pub at : ℕ → Item → Bool
at a item = item.addr == a

-- The item without its first node of that address.
unfoldable pub remove : ℕ → List Item → List Item
remove a [] = []
remove a (x ∷ xs) = if at a x then xs else x ∷ remove a xs

-- A write through a pointer to an item.
unfoldable pub update : ℕ → (Item → Item) → List Item → List Item
update a f [] = []
update a f (x ∷ xs) = (if at a x then f x else x) ∷ update a f xs

abbrev pub or_else {ℓ} : {A : Type ℓ} → Option A → Option A → Option A
or_else none y = y
or_else (some a) y = some a

-- Reads through a pointer, given what lies there.
abbrev pub deref : Option Item → Result Item
deref none = fault use_after_free
deref (some item) = ok item

-- The calls to malloc that make an item: its node and the two copies by strdup.
pub record Alloc : Type 0 where
  pub node : Bool
  pub key : Bool
  pub value : Bool

-- `if (key) { copy = strdup(key); if (!copy) … }`.
abbrev pub copies : Option Bytes → Bool → Bool
copies none done = Bool.true
copies (some k) done = done

module _ {C X : Type 0} where
  -- The item behind a pointer, which dangles if there is none.
  unfoldable pub load : ℕ → Store C X → Result Item
  unfolding find
  load a s = deref (or_else (find (at a) s.detached) (find (at a) s.queue.items))

  unfoldable pub store : ℕ → (Item → Item) → Store C X → Store C X
  unfolding update
  store a f s = record s {
    detached = update a f s.detached;
    queue = record s.queue { items = update a f s.queue.items };
  }

  unfoldable pub queue_item_get_key : ℕ → Store C X → Result (Option Bytes)
  unfolding load
  queue_item_get_key a s = do item ← load a s; ok item.key

  unfoldable pub queue_item_get_value : ℕ → Store C X → Result Bytes
  unfolding load
  queue_item_get_value a s = do item ← load a s; ok item.value

  unfoldable pub queue_item_free_ : ℕ → Store C X → Result (Store C X)
  unfolding load remove
  queue_item_free_ a s = do
    item ← load a s
    ok (record s {
      detached = remove a s.detached;
      queue = if item.inserted then record s.queue { items = remove a s.queue.items } else s.queue;
    })

  unfoldable pub queue_item_free : ℕ → Store C X → Result (Store C X)
  unfolding load queue_item_free_
  queue_item_free a s = do
    item ← load a s
    if is_zero item.lockcount then queue_item_free_ a s else ok s

  unfoldable pub queue_item_lock : ℕ → Store C X → Result (Store C X)
  unfolding load store
  queue_item_lock a s = do
    item ← load a s
    ok (store a (λ x. record x { lockcount = suc_ℤ x.lockcount }) s)

  unfoldable pub queue_item_unlock : ℕ → Store C X → Result (Store C X)
  unfolding load store queue_item_free
  queue_item_unlock a s = do
    item ← load a s
    unlocked item (store a (λ x. record x { lockcount = pred_ℤ x.lockcount }) s)
    where
      -- The item is ready to be freed.
      unlocked : Item → Store C X → Result (Store C X)
      unlocked item s' =
          if is_zero (pred_ℤ item.lockcount) && not item.inserted
          then queue_item_free a s'
          else ok s'

  -- An item that the caller holds; `none` where an allocation fails.
  unfoldable pub queue_item_new_ : Option Bytes → Bytes → Alloc → Store C X → Option ℕ × Store C X
  queue_item_new_ key value mem s =
      if mem.node && mem.value && copies key mem.key
      then (some s.next, record s { detached = new ∷ s.detached; next = suc s.next })
      else (none, s)
    where
      new : Item
      new = record {
        addr = s.next;
        key = key;
        value = value;
        inserted = false;
        lockcount = pos zero;
      }
