-- ===== src/Queue/First.antt =====
-- What queue_take, queue_peek, queue_put and queue_wait find: the first node that fits, in the order
-- in which the nodes were linked.
use mathlib.Core.Option
use disqueue.Base.{
  ℕ, zero, suc, ◌<◌, ◌≡◌, refl, Bool, true, false, ◌&&◌, Option, none, some, List, ◌∷◌, ◌++◌, Bytes,
  ◌>>=◌, ok, Result, length, All, Bool-cases, inl, inr, split_first, missed, hit,
  split_first-Splits, find-split_first, pos, Option-cases, sym, subst, All-split, split_first-hit,
}
use disqueue.Queue.State.{Item, Callback, Store, Invoke, size_mod, item_matches, callback_accepts}
use disqueue.Queue.Item.{Alloc, copies, queue_item_free}
use disqueue.Queue.Ops.{
  Status, failed, pending, done, insert_item, insert_callback, remove_item, queue_callback_free_,
  queue_take, queue_peek, queue_put, queue_wait, call, may_match, may_deliver,
}
use disqueue.Queue.Counts.{Counts}
use disqueue.Queue.Skips.{may_match-false, may_deliver-false}

-- An item out of its owner's list.
abbrev pub detach : Item → Item
detach item = record item { inserted = false }

-- A new item, before it is linked.
abbrev pub new_item : ℕ → Option Bytes → Bytes → Item
new_item a key value = record {
  addr = a;
  key = key;
  value = value;
  inserted = false;
  lockcount = pos zero;
}

module _ {A : Type 0} (p : A → Bool) (pre post : List A) (x : A) where
  -- An element that passes refutes that none does.
  pub All-refuted : All (λ y. p y ≡ false) (pre ++ x ∷ post) → p x ≡ true → ⊥
  All-refuted h e = let d = (All-split (λ y. p y ≡ false) pre post x h).0 in cc

module _ {C X : Type 0} where
  -- The store once the item is taken out, its neighbours joined.
  abbrev pub taken_store : Item → List Item → Store C X → Store C X
  taken_store item rest s = record s {
    queue = remove_item item rest s.queue;
    detached = detach item ∷ s.detached;
  }

  -- What taking by a key may come to.
  pub data Takes (key : Option Bytes) (s : Store C X) (r : Option Item × Store C X) : Type 0 where
    nothing : All (λ x. item_matches key x ≡ false) s.queue.items → r ≡ (none, s) → Takes key s r
    first :
        (item : Item) (pre post : List Item)
        → s.queue.items ≡ pre ++ item ∷ post
        → All (λ x. item_matches key x ≡ false) pre
        → item_matches key item ≡ true
        → r ≡ (some (detach item), taken_store item (pre ++ post) s)
        → Takes key s r

  -- On a queue whose counters are right and that has fewer than 2^64 items, queue_take returns the
  -- first item that fits the key and unlinks it alone; where no item of the list fits, it returns
  -- NULL and nothing changes.
  pub queue_take-Takes :
      (key : Option Bytes) (s : Store C X)
      → Counts s.queue
      → length s.queue.items < size_mod
      → Takes key s (queue_take key s)
  unfolding queue_take
  queue_take-Takes key s v b = elim (Bool-cases (may_match key s.queue)) [
    | inr e ↦ nothing (may_match-false key v b e) (rw (e, queue_take) refl)
    | inl e ↦ elim (split_first-Splits (item_matches key) s.queue.items) [
      | missed o h ↦ nothing h (rw (e, o, queue_take) refl)
      | hit item pre post o l h m ↦ first item pre post l h m (rw (e, o, queue_take) refl)
    ]
  ]

  -- The item that is first to fit is the one that queue_take returns.
  pub queue_take-hit :
      (key : Option Bytes) (s : Store C X) (item : Item) (pre post : List Item)
      → Counts s.queue
      → length s.queue.items < size_mod
      → s.queue.items ≡ pre ++ item ∷ post
      → All (λ x. item_matches key x ≡ false) pre
      → item_matches key item ≡ true
      → queue_take key s ≡ (some (detach item), taken_store item (pre ++ post) s)
  unfolding queue_take
  queue_take-hit key s item pre post v b l h m = elim (Bool-cases (may_match key s.queue)) [
    | inr e ↦ absurd (
        All-refuted (item_matches key) pre post item
          (subst (All (λ x. item_matches key x ≡ false)) l (may_match-false key v b e)) m)
    | inl e ↦
        let found : split_first (item_matches key) s.queue.items ≡ some (item, pre ++ post) =
          subst (λ xs. split_first (item_matches key) xs ≡ some (item, pre ++ post)) (sym l)
            (split_first-hit (item_matches key) pre post item h m) in
        rw (e, found, queue_take) refl
  ]

  -- queue_peek shows the item that queue_take takes, whatever the counters of the queue are.
  pub queue_take-peek :
      (key : Option Bytes) (s : Store C X)
      → (queue_take key s).0 ≡ Option.map detach (queue_peek key s)
  unfolding queue_take queue_peek
  queue_take-peek key s = elim (Bool-cases (may_match key s.queue)) [
    | inr e ↦ rw (e, queue_take) refl
    | inl e ↦ elim (Option-cases (split_first (item_matches key) s.queue.items)) [
      | inl o ↦
          rw (e, o, queue_take)
            (rw (find-split_first (item_matches key) s.queue.items, o, queue_peek) refl)
      | inr (r, o) ↦
          rw (e, o, queue_take)
            (rw (find-split_first (item_matches key) s.queue.items, o, queue_peek) refl)
    ]
  ]

abbrev pub has_memory : Option Bytes → Alloc → Bool
has_memory key mem = mem.node && copies key mem.key && mem.value

module _ {C X : Type 0} where
  -- The store once no callback took the new item: the item stands last.
  abbrev pub queued_store : Option Bytes → Bytes → Store C X → Store C X
  queued_store key value s = record s {
    queue = insert_item (record (new_item s.next key value) { inserted = true }) s.queue;
    next = suc s.next;
  }

  -- The store in which a callback is called: it is unlinked, and the new item is in no list.
  abbrev pub offering :
      Option Bytes → Bytes → Callback C → List (Callback C) → Store C X → Store C X
  offering key value callback rest s = record s {
    queue = queue_callback_free_ callback rest s.queue;
    detached = new_item s.next key value ∷ s.detached;
    next = suc s.next;
  }

module _ {C X : Type 0} (invoke : Invoke C X) where
  abbrev pub delivered :
      Option Bytes
      → Bytes
      → Callback C
      → List (Callback C)
      → Store C X
      → Result (Status × Store C X)
  delivered key value callback rest s = do
    called ← call invoke callback.addcb s.next (offering key value callback rest s)
    freed ← queue_item_free s.next called
    ok (done, freed)

  -- What putting an item may come to.
  pub data Puts (key : Option Bytes) (value : Bytes) (mem : Alloc) (s : Store C X)
      (r : Result (Status × Store C X)) : Type 0 where
    no_memory : has_memory key mem ≡ false → r ≡ ok (failed, s) → Puts key value mem s r
    kept :
        has_memory key mem ≡ true
        → All (λ c. callback_accepts key c ≡ false) s.queue.callbacks
        → r ≡ ok (pending, queued_store key value s)
        → Puts key value mem s r
    consumed :
        (callback : Callback C) (pre post : List (Callback C))
        → has_memory key mem ≡ true
        → s.queue.callbacks ≡ pre ++ callback ∷ post
        → All (λ c. callback_accepts key c ≡ false) pre
        → callback_accepts key callback ≡ true
        → r ≡ delivered key value callback (pre ++ post) s
        → Puts key value mem s r

  -- On a queue whose counters are right and that has fewer than 2^64 callbacks, queue_put hands the
  -- item to the callback that has waited longest of those that accept its key, and to no other;
  -- where no callback accepts it, it links the item behind all others; without memory it changes
  -- nothing.
  pub queue_put-Puts :
      (key : Option Bytes) (value : Bytes) (mem : Alloc) (s : Store C X)
      → Counts s.queue
      → length s.queue.callbacks < size_mod
      → Puts key value mem s (queue_put invoke key value mem s)
  unfolding queue_put
  queue_put-Puts key value mem s v b = elim (Bool-cases (has_memory key mem)) [
    | inr n ↦ no_memory n (rw (n, queue_put) refl)
    | inl m ↦ elim (Bool-cases (may_deliver key s.queue)) [
      | inr e ↦ kept m (may_deliver-false key v b e) (rw (m, e, queue_put) refl)
      | inl e ↦ elim (split_first-Splits (callback_accepts key) s.queue.callbacks) [
        | missed o h ↦ kept m h (rw (m, e, o, queue_put) refl)
        | hit callback pre post o l h a ↦
            consumed callback pre post m l h a (rw (m, e, o, queue_put) refl)
      ]
    ]
  ]

  -- The callback that is first to accept is the one that queue_put calls.
  pub queue_put-hit :
      (key : Option Bytes) (value : Bytes) (mem : Alloc) (s : Store C X) (c : Callback C)
      (pre post : List (Callback C))
      → Counts s.queue
      → length s.queue.callbacks < size_mod
      → has_memory key mem ≡ true
      → s.queue.callbacks ≡ pre ++ c ∷ post
      → All (λ d. callback_accepts key d ≡ false) pre
      → callback_accepts key c ≡ true
      → queue_put invoke key value mem s ≡ delivered key value c (pre ++ post) s
  unfolding queue_put
  queue_put-hit key value mem s c pre post v b m l h a =
      elim (Bool-cases (may_deliver key s.queue)) [
        | inr e ↦ absurd (
            All-refuted (callback_accepts key) pre post c
              (subst (All (λ d. callback_accepts key d ≡ false)) l (may_deliver-false key v b e)) a)
        | inl e ↦
            let found : split_first (callback_accepts key) s.queue.callbacks
                ≡ some (c, pre ++ post) =
              subst (λ cs. split_first (callback_accepts key) cs ≡ some (c, pre ++ post)) (sym l)
                (split_first-hit (callback_accepts key) pre post c h a) in
            rw (m, e, found, queue_put) refl
      ]

  -- What waiting for an item may come to.
  pub data Waits (key : Option Bytes) (c : C) (mem : Bool) (s : Store C X)
      (r : Result (Status × Store C X)) : Type 0 where
    served :
        (item : Item) (pre post : List Item)
        → s.queue.items ≡ pre ++ item ∷ post
        → All (λ x. item_matches key x ≡ false) pre
        → item_matches key item ≡ true
        → r ≡ (
            invoke c item.addr (taken_store item (pre ++ post) s) >>= λ called.
            queue_item_free item.addr called >>= λ freed. ok (done, freed))
        → Waits key c mem s r
    registered :
        mem ≡ true
        → All (λ x. item_matches key x ≡ false) s.queue.items
        → r
          ≡ ok (
            pending,
            record s { queue = insert_callback (record { key = key; addcb = some c }) s.queue },
          )
        → Waits key c mem s r
    refused :
        mem ≡ false
        → All (λ x. item_matches key x ≡ false) s.queue.items
        → r ≡ ok (failed, s)
        → Waits key c mem s r

  -- On a queue whose counters are right and that has fewer than 2^64 items, queue_wait serves the
  -- caller at once with the first item that fits; where none fits, it links the callback behind all
  -- others, or changes nothing if there is no memory for it.
  pub queue_wait-Waits :
      (key : Option Bytes) (c : C) (mem : Bool) (s : Store C X)
      → Counts s.queue
      → length s.queue.items < size_mod
      → Waits key c mem s (queue_wait invoke key c mem s)
  unfolding queue_wait
  queue_wait-Waits key c mem s v b = elim (queue_take-Takes key s v b) [
    | first item pre post l h m e ↦ served item pre post l h m (rw e refl)
    | nothing h e ↦ elim (Bool-cases mem) [
      | inl m ↦ registered m h (rw e (rw m refl))
      | inr m ↦ refused m h (rw e (rw m refl))
    ]
  ]
