-- ===== src/Queue/Lock.antt =====
-- The lock count of an item: queue_item_lock, queue_item_unlock and queue_item_free together.
use mathlib.Core.Option
use disqueue.Base.{
  ℕ, ◌≡◌, refl, ap, true, false, Option, none, some, List, [], ◌∷◌, ok, ◌>>=◌, inl, inr, zero, pos,
  find, arith, and_false, suc_ℤ, pred_ℤ, is_zero, pred_ℤ-suc_ℤ, Bool-cases,
}
use disqueue.Queue.State.{Item, Store}
use disqueue.Queue.Item.{
  at, load, store, update, or_else, deref, queue_item_lock, queue_item_unlock, queue_item_free,
}
use disqueue.Queue.Borrow.{queue_item_free-head, load-head}

abbrev pub locked : Item → Item
locked x = record x { lockcount = suc_ℤ x.lockcount }

abbrev unlocked : Item → Item
unlocked x = record x { lockcount = pred_ℤ x.lockcount }

unlocked-locked : (x : Item) → unlocked (locked x) ≡ x
unlocked-locked x = rw (pred_ℤ-suc_ℤ x.lockcount)

update-locked : (a : ℕ) (xs : List Item) → update a unlocked (update a locked xs) ≡ xs
unfolding update
update-locked a [] = refl
update-locked a (x ∷ xs) = elim (Bool-cases (at a x)) [
  | inl e ↦ rw (e, e, update-locked a xs, unlocked-locked x) refl
  | inr e ↦ rw (e, e, update-locked a xs) refl
]

find-update :
    (a : ℕ) (xs : List Item) → find (at a) (update a locked xs) ≡ Option.map locked (find (at a) xs)
unfolding find update
find-update a [] = refl
find-update a (x ∷ xs) = elim (Bool-cases (at a x)) [
  | inl e ↦ rw (e, e) refl
  | inr e ↦ rw (e, e, find-update a xs) refl
]

deref-locked :
    (o p : Option Item) (item : Item)
    → deref (or_else o p) ≡ ok item
    → deref (or_else (Option.map locked o) (Option.map locked p)) ≡ ok (locked item)
deref-locked (some x) p item e = ground arith
deref-locked none (some x) item e = ground arith
deref-locked none none item e = cc

module _ {C X : Type 0} where
  store-locked : (a : ℕ) (s : Store C X) → store a unlocked (store a locked s) ≡ s
  unfolding store
  store-locked a s = rw (update-locked a s.detached, update-locked a s.queue.items) refl

  pub load-locked :
      (a : ℕ) (s : Store C X) (item : Item)
      → load a s ≡ ok item
      → load a (store a locked s) ≡ ok (locked item)
  unfolding load store
  load-locked a s item e =
      rw (find-update a s.detached, find-update a s.queue.items)
        (deref-locked (find (at a) s.detached) (find (at a) s.queue.items) item e)

  -- A lock and then an unlock of an item that its queue still holds change nothing, and free
  -- nothing.
  pub queue_item_unlock-lock :
      (a : ℕ) (s : Store C X) (item : Item)
      → load a s ≡ ok item
      → item.inserted ≡ true
      → (queue_item_lock a s >>= queue_item_unlock a) ≡ ok s
  unfolding queue_item_lock queue_item_unlock
  queue_item_unlock-lock a s item e i = rw e (
      rw (load-locked a s item e)
        (rw i (rw (and_false (is_zero (pred_ℤ (suc_ℤ item.lockcount))), store-locked a s) refl)))

  free_locked :
      (a : ℕ) (s : Store C X) (item : Item)
      → load a s ≡ ok item
      → item.lockcount ≡ pos zero
      → queue_item_free a (store a locked s) ≡ ok (store a locked s)
  unfolding queue_item_free
  free_locked a s item e z = rw (load-locked a s item e) (rw z refl)

  unlock_locked :
      (a : ℕ) (s : Store C X) (item : Item)
      → load a s ≡ ok item
      → item.inserted ≡ false
      → item.lockcount ≡ pos zero
      → queue_item_unlock a (store a locked s) ≡ queue_item_free a s
  unfolding queue_item_unlock
  unlock_locked a s item e i z =
      rw (load-locked a s item e) (rw (i, z) (ap (queue_item_free a) (store-locked a s)))

  -- Where an item that was taken last has a lock count of 0, a lock, a free and an unlock of it
  -- free it once: the free of the locked item does nothing, and the unlock frees it.
  pub queue_item_unlock-free-lock :
      (item : Item) (rest : List Item) (s : Store C X)
      → item.inserted ≡ false
      → item.lockcount ≡ pos zero
      → (queue_item_lock item.addr (record s { detached = item ∷ rest })
          >>= queue_item_free item.addr
          >>= queue_item_unlock item.addr)
        ≡ ok (record s { detached = rest })
  unfolding queue_item_lock
  queue_item_unlock-free-lock item rest s i z =
      let held : Store C X = record s { detached = item ∷ rest } in
      let e = load-head item rest s in
      rw e (
        rw (free_locked item.addr held item e z) (
          rw (unlock_locked item.addr held item e i z)
            (queue_item_free-head item rest s i (rw z refl))))
