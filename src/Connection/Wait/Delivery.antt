-- ===== src/Connection/Wait/Delivery.antt =====
-- What becomes of an item that is delivered over a WebSocket: connection_queue_callback_wait_ frees
-- the item, and queue_put and queue_wait free it once more.
use disqueue.Base.{
  ℕ, ◌<◌, ◌≡◌, refl, ◌∙◌, ap, Bool, true, false, Option, none, some, List, ◌∷◌, ◌++◌, Bytes, ◌>>=◌,
  ok, fault, use_after_free, Result, length, arith, All, find, is_zero, ◌==◌,
}
use disqueue.Json.{JsonC}
use disqueue.Queue.State.{Item, Callback, Store, size_mod, item_matches, callback_accepts}
use disqueue.Queue.Item.{Alloc, load, queue_item_free, at}
use disqueue.Queue.Ops.{Status, done, call, wait_after, queue_put, queue_wait, queue_callback_free_}
use disqueue.Queue.Counts.{Counts}
use disqueue.Queue.First.{
  detach, new_item, taken_store, offering, has_memory, queue_put-hit, queue_take-hit,
}
use disqueue.Queue.Borrow.{IsFresh, find-AddrsBelow, load-head, queue_item_free-head}
use disqueue.Manager.State.{Want}
use disqueue.Manager.Wants.{
  load_want, remove_want, cancel_where, manager_queue_want_close, manager_queue_want_free,
  manager_queue_want_is_cancelled,
}
use disqueue.Manager.Wants.Cancel.{cancel, load_want-cancel_where}
use disqueue.World.{World}
use disqueue.Connection.Wait.{
  Outside, answer, connection_queue_callback_wait_, connection_ws_callback_close,
}

-- What queue_put and queue_wait do once the callback has returned.
abbrev free_after : ℕ → Result (Store ℕ World) → Result (Status × Store ℕ World)
free_after a r = do called ← r; freed ← queue_item_free a called; ok (done, freed)

module _ (j : JsonC) (out : Outside) where
  -- Two binds after the same result agree where they agree on what it returns.
  >>=-ext :
      {A B : Type 0} (r : Result A) (f g : A → Result B)
      → ((a : A) → f a ≡ g a)
      → (r >>= f) ≡ (r >>= g)
  >>=-ext (ok a) f g h = h a
  >>=-ext (fault e) f g h = refl

  >>=-assoc :
      {A B C : Type 0} (r : Result A) (f : A → Result B) (g : B → Result C)
      → ((r >>= f) >>= g) ≡ (r >>= λ a. f a >>= g)
  >>=-assoc (ok a) f g = refl
  >>=-assoc (fault e) f g = refl

  -- What the callback does with an item that was detached last and that nobody has locked.
  callback-head :
      (want : ℕ) (item : Item) (rest : List Item) (s : Store ℕ World)
      → item.inserted ≡ false
      → is_zero item.lockcount ≡ true
      → connection_queue_callback_wait_ j out want item.addr (record s { detached = item ∷ rest })
        ≡ (answer j out want (ok item) s.ext >>= λ w. ok (record s { detached = rest; ext = w }))
  unfolding connection_queue_callback_wait_
  callback-head want item rest s i z = rw (load-head item rest s) (
      >>=-ext (answer j out want (ok item) s.ext) _ _
        (λ w. queue_item_free-head item rest (record s { ext = w }) i z))

  -- A free through a pointer that leads to no item.
  queue_item_free-lost :
      (a : ℕ) (s : Store ℕ World)
      → find (at a) s.detached ≡ none
      → find (at a) s.queue.items ≡ none
      → queue_item_free a s ≡ fault use_after_free
  unfolding queue_item_free load
  queue_item_free-lost a s d i = rw (d, i) refl

  -- The callback, and the free that follows it in queue_put and queue_wait.
  twice :
      (want : ℕ) (item : Item) (rest : List Item) (s : Store ℕ World)
      → item.inserted ≡ false
      → is_zero item.lockcount ≡ true
      → find (at item.addr) rest ≡ none
      → find (at item.addr) s.queue.items ≡ none
      → free_after item.addr (
          connection_queue_callback_wait_ j out want item.addr
            (record s { detached = item ∷ rest }))
        ≡ (answer j out want (ok item) s.ext >>= λ w. fault use_after_free)
  twice want item rest s i z d q =
      ap (free_after item.addr) (callback-head want item rest s i z)
      ∙ >>=-assoc (answer j out want (ok item) s.ext) _ _
      ∙ >>=-ext (answer j out want (ok item) s.ext) _ _ (λ w.
        rw (queue_item_free-lost item.addr (record s { detached = rest; ext = w }) d q) refl)

  -- On a queue whose counters are right, with fewer than 2^64 callbacks, and with memory for the
  -- item: a put whose item goes to a want of a WebSocket never returns. The want is answered, if
  -- that succeeds, and then the item, which the callback has freed, is freed again.
  pub queue_put-double_free :
      (key : Option Bytes) (value : Bytes) (mem : Alloc) (s : Store ℕ World) (c : Callback ℕ)
      (want : ℕ) (pre post : List (Callback ℕ))
      → Counts s.queue
      → IsFresh s
      → length s.queue.callbacks < size_mod
      → has_memory key mem ≡ true
      → s.queue.callbacks ≡ pre ++ c ∷ post
      → All (λ d. callback_accepts key d ≡ false) pre
      → callback_accepts key c ≡ true
      → c.addcb ≡ some want
      → queue_put (connection_queue_callback_wait_ j out) key value mem s
        ≡ (answer j out want (ok (new_item s.next key value)) s.ext >>= λ w. fault use_after_free)
  unfolding queue_callback_free_
  queue_put-double_free key value mem s c want pre post v fresh b m l h a cb =
      let given = offering key value c (pre ++ post) s in
      queue_put-hit (connection_queue_callback_wait_ j out) key value mem s c pre post v b m l h a
      ∙ ap (λ o. free_after s.next (call (connection_queue_callback_wait_ j out) o s.next given)) cb
      ∙ twice want (new_item s.next key value) s.detached given refl refl
          (find-AddrsBelow s.next s.detached fresh.detached_below)
          (find-AddrsBelow s.next s.queue.items fresh.items_below)

  -- On a queue whose counters are right and that has fewer than 2^64 items, a wait for a WebSocket
  -- that finds an item, which no lock holds and whose address no other item has, never returns. The
  -- want is answered, if that succeeds, and then the item is freed for the second time.
  pub queue_wait-double_free :
      (key : Option Bytes) (want : ℕ) (mem : Bool) (s : Store ℕ World) (item : Item)
      (pre post : List Item)
      → Counts s.queue
      → length s.queue.items < size_mod
      → s.queue.items ≡ pre ++ item ∷ post
      → All (λ x. item_matches key x ≡ false) pre
      → item_matches key item ≡ true
      → is_zero item.lockcount ≡ true
      → find (at item.addr) s.detached ≡ none
      → find (at item.addr) (pre ++ post) ≡ none
      → queue_wait (connection_queue_callback_wait_ j out) key want mem s
        ≡ (answer j out want (ok (detach item)) s.ext >>= λ w. fault use_after_free)
  unfolding queue_wait
  queue_wait-double_free key want mem s item pre post v b l h m z d q =
      ap (wait_after (connection_queue_callback_wait_ j out) key want mem)
        (queue_take-hit key s item pre post v b l h m)
      ∙ twice want (detach item) s.detached (taken_store item (pre ++ post) s) refl z d q

  -- After the connection of a want is closed, the delivery of an item to that want succeeds and
  -- sends nothing to any connection; the want alone is freed.
  pub connection_ws_callback_close-answer :
      (con want : ℕ) (x : Want) (item : Result Item) (w : World)
      → load_want want w.manager.wants ≡ ok x
      → x.client ≡ con
      → answer j out want item (connection_ws_callback_close con w)
        ≡ ok (record w {
          manager = record w.manager {
            wants = remove_want want (manager_queue_want_close con w.manager).wants;
          };
        })
  unfolding answer connection_ws_callback_close manager_queue_want_close manager_queue_want_free
      manager_queue_want_is_cancelled
  connection_ws_callback_close-answer con want x item w l e =
      let p : Want → Bool = λ y. y.client == con in
      let loaded : load_want want (cancel_where p w.manager.wants) ≡ ok (cancel p x) =
        load_want-cancel_where p want w.manager.wants ∙ rw l refl in
      let closed : (cancel p x).cancelled ≡ true = ground arith in
      rw (loaded, closed) (rw (loaded, manager_queue_want_free) refl)
