-- ===== src/System/Items.antt =====
-- The handlers of src/connection-http.c that reach the items of a queue, on a sound registry.
use disqueue.Base.{
  ℕ, suc, ◌<◌, ◌≡◌, refl, sym, subst, true, false, Option, none, some, List, ◌∷◌, ◌++◌, Bytes,
  arith, All, All-split, find, Bool-cases, inl, inr, Result, ok, fault, ◌>>=◌, breaks, yields,
  breaks_after,
}
use disqueue.Json.{JsonC}
use disqueue.Queue.State.{Item, Callback, Store, size_mod, item_matches, callback_accepts}
use disqueue.Queue.Item.{load}
use disqueue.Queue.Ops.{Status, queue_take, queue_peek, queue_put, may_match, queue_callback_free_}
use disqueue.Queue.Ops
use disqueue.Queue.First.{
  detach, new_item, taken_store, queued_store, has_memory, Takes, nothing, first, queue_take-Takes,
  Puts, no_memory, kept, consumed, queue_put-Puts,
}
use disqueue.Queue.Borrow.{IsFresh, AddrsBelow, queue_item_free-head}
use disqueue.Queue.Distinct.{IsDistinct, find-split, find-stands}
use disqueue.Queue.Invariant.{insert_item-Inv}
use disqueue.Manager.State.{ManagerQueue}
use disqueue.World.{World, focus_world, unfocus_world}
use disqueue.Connection.Wait.{Outside, connection_queue_callback_wait_, answer}
use disqueue.Connection.Wait.Delivery.{queue_put-double_free}
use disqueue.Connection.Http.{Evhttp, Reply, Memory, Request, connection_http_payload_}
use disqueue.Connection.Http.Handlers.{
  Answer, show_item, taken, peeked, put_reply, put_value, connection_http_callback_take,
  connection_http_callback_peek, connection_http_callback_put,
}
use disqueue.Connection.Http.Items.{lock_of, unlock_of}
use disqueue.System.Sound.{
  IsStored, IsKept, IsSound, suc-IsSound, unfocus-IsSound, insert_item-IsKept, remove_item-IsKept,
  HasWant, stored_below,
}
use disqueue.System.Guards.{Leaves, with_queue-Leaves}

module _ (j : JsonC) (out : Outside) (mem : Memory) (e : Evhttp) where
  open e use {Params}

  -- Where nothing was done to a queue.
  same-IsSound :
      (n : ℕ) (mq : ManagerQueue) (w : World)
      → IsKept n w.manager.next w.manager.wants mq.q
      → IsSound n w.manager
      → IsSound (suc n) (unfocus_world mq.addr (focus_world mq w)).manager
  same-IsSound n mq w k s =
      suc-IsSound (unfocus-IsSound mq.addr (focus_world mq w) s (omega arith) s.none_held k)

  pub shown-Leaves :
      (n : ℕ) (r : Result Reply) (next : Reply → Answer j out mem e)
      → ((reply : Reply) → Leaves j out mem e n (next reply))
      → Leaves j out mem e n (r >>= next)
  shown-Leaves n (ok reply) next h = h reply
  shown-Leaves n (fault f) next h = breaks f refl

  taken-Leaves :
      (n : ℕ) (key : Option Bytes) (mq : ManagerQueue) (w : World) (r : Option Item × Store ℕ World)
      → IsKept n w.manager.next w.manager.wants mq.q
      → IsSound n w.manager
      → Takes key (focus_world mq w) r
      → Leaves j out mem e (suc n) (taken j out mem e mq w r)
  taken-Leaves n key mq w r k s (nothing h t) = rw t (yields _ (same-IsSound n mq w k s))
  taken-Leaves n key mq w r k s (first item pre post l h m t) =
      let st =
        (All-split (IsStored w.manager.next) pre post item
          (subst (All (IsStored w.manager.next)) l k.stored)).0 in
      let u : Store ℕ World = record (taken_store item (pre ++ post) (focus_world mq w)) {
        detached = w.manager.detached;
      } in
      rw t (
        shown-Leaves (suc n) (show_item j out mem e _) _ (λ reply.
          rw (queue_item_free-head (detach item) w.manager.detached u refl (rw st.unlocked refl)) (
            yields _ (
              unfocus-IsSound mq.addr u (suc-IsSound s) (omega arith) s.none_held
                (remove_item-IsKept item pre post k l)))))

  pub connection_http_callback_take-Leaves :
      (n : ℕ) (request : Request j out e) (w : World)
      → n < size_mod
      → IsSound n w.manager
      → Leaves j out mem e (suc n) (connection_http_callback_take j out mem e request w)
  unfolding connection_http_callback_take
  connection_http_callback_take-Leaves n request w b s =
      with_queue-Leaves j out mem e n false _ request w s (λ params mq v k t.
        taken-Leaves n _ mq v _ k t (
          queue_take-Takes _ (focus_world mq v) k.inv.counts
            (omega (arith, k.inv.items_bounded, b))))

  -- What queue_peek shows is an item of the queue, and can be read.
  pub peek-stands :
      (n : ℕ) (key : Option Bytes) (mq : ManagerQueue) (w : World) (item : Item)
      → IsKept n w.manager.next w.manager.wants mq.q
      → IsSound n w.manager
      → queue_peek key (focus_world mq w) ≡ some item
      → (load item.addr (focus_world mq w) ≡ ok item) × (item.inserted ≡ true)
  unfolding queue_peek load find
  peek-stands n key mq w item k s q = elim (Bool-cases (may_match key mq.q)) [
    | inr m ↦ let d = rw m at q in absurd cc
    | inl m ↦
        let (pre, post, l) = find-stands (item_matches key) mq.q.items item (rw m at q) in
        let st =
          (All-split (IsStored w.manager.next) pre post item
            (subst (All (IsStored w.manager.next)) l k.stored)).0 in
        let (f, _) = find-split pre post item (subst IsDistinct l k.distinct) in
        (rw (s.none_held, l, f) refl, st.linked)
  ]

  peeked-Leaves :
      (n : ℕ) (key : Option Bytes) (mq : ManagerQueue) (w : World) (o : Option Item)
      → IsKept n w.manager.next w.manager.wants mq.q
      → IsSound n w.manager
      → queue_peek key (focus_world mq w) ≡ o
      → Leaves j out mem e (suc n) (peeked j out mem e mq (focus_world mq w) o)
  peeked-Leaves n key mq w none k s q = yields _ (same-IsSound n mq w k s)
  peeked-Leaves n key mq w (some item) k s q =
      let (l, i) = peek-stands n key mq w item k s q in
      let t : Store ℕ World = focus_world mq w in
      rw (lock_of j out mem e item.addr t item l) (
        shown-Leaves (suc n) (show_item j out mem e _) _ (λ reply.
          rw (unlock_of j out mem e item.addr t item l i) (yields _ (same-IsSound n mq w k s))))

  pub connection_http_callback_peek-Leaves :
      (n : ℕ) (request : Request j out e) (w : World)
      → IsSound n w.manager
      → Leaves j out mem e (suc n) (connection_http_callback_peek j out mem e request w)
  unfolding connection_http_callback_peek
  connection_http_callback_peek-Leaves n request w s =
      with_queue-Leaves j out mem e n false _ request w s
        (λ params mq v k t. peeked-Leaves n _ mq v _ k t refl)

  -- The rest of a handler that puts an item.
  put_reply-Leaves :
      (n : ℕ) (mq : ManagerQueue) (p : Status × Store ℕ World)
      → IsSound n (unfocus_world mq.addr p.1).manager
      → Leaves j out mem e n (put_reply j out mem e mq p)
  put_reply-Leaves n mq (Ops.Status.failed, t) s = yields _ s
  put_reply-Leaves n mq (Ops.Status.pending, t) s =
      shown-Leaves n (connection_http_payload_ j out none) _ (λ reply. yields _ s)
  put_reply-Leaves n mq (Ops.Status.done, t) s =
      shown-Leaves n (connection_http_payload_ j out none) _ (λ reply. yields _ s)

  pub fresh :
      (n : ℕ) (mq : ManagerQueue) (w : World)
      → IsKept n w.manager.next w.manager.wants mq.q
      → IsSound n w.manager
      → IsFresh (focus_world mq w)
  fresh n mq w k s = record {
    detached_below = subst (AddrsBelow w.manager.next) (sym s.none_held) tt;
    items_below = stored_below w.manager.next mq.q.items k.stored;
  }

  -- An item that a callback takes is freed twice.
  consumed-Leaves :
      (n : ℕ) (key : Option Bytes) (value : Bytes) (mq : ManagerQueue) (w : World) (c : Callback ℕ)
      (pre post : List (Callback ℕ))
      → n < size_mod
      → IsKept n w.manager.next w.manager.wants mq.q
      → IsSound n w.manager
      → has_memory key mem.item ≡ true
      → mq.q.callbacks ≡ pre ++ c ∷ post
      → All (λ d. callback_accepts key d ≡ false) pre
      → callback_accepts key c ≡ true
      → Leaves j out mem e (suc n) (
          queue_put (connection_queue_callback_wait_ j out) key value mem.item (focus_world mq w)
          >>= put_reply j out mem e mq)
  consumed-Leaves n key value mq w c pre post b k s m l h a =
      let (want, o, _, _) =
        (All-split (HasWant w.manager.wants) pre post c
          (subst (All (HasWant w.manager.wants)) l k.waiting)).0 in
      rw
        (queue_put-double_free j out key value mem.item (focus_world mq w) c want pre post
          k.inv.counts (fresh n mq w k s) (omega (arith, k.inv.callbacks_bounded, b)) m l h a o)
        (breaks_after (answer j out want _ w) _ (put_reply j out mem e mq))

  put-Leaves :
      (n : ℕ) (key : Option Bytes) (value : Bytes) (mq : ManagerQueue) (w : World)
      (r : Result (Status × Store ℕ World))
      → n < size_mod
      → IsKept n w.manager.next w.manager.wants mq.q
      → IsSound n w.manager
      → r ≡ queue_put (connection_queue_callback_wait_ j out) key value mem.item (focus_world mq w)
      → Puts (connection_queue_callback_wait_ j out) key value mem.item (focus_world mq w) r
      → Leaves j out mem e (suc n) (r >>= put_reply j out mem e mq)
  put-Leaves n key value mq w r b k s q (no_memory m p) =
      rw p (put_reply-Leaves (suc n) mq (Ops.failed, focus_world mq w) (same-IsSound n mq w k s))
  put-Leaves n key value mq w r b k s q (kept m h p) =
      let x = record (new_item w.manager.next key value) { inserted = true } in
      rw p (
        put_reply-Leaves (suc n) mq (Ops.pending, queued_store key value (focus_world mq w))
          (unfocus-IsSound mq.addr (queued_store key value (focus_world mq w)) (suc-IsSound s)
            (omega arith) s.none_held
            (insert_item-IsKept x k refl refl refl (insert_item-Inv k.inv x h))))
  put-Leaves n key value mq w r b k s q (consumed c pre post m l h a p) =
      subst (λ x. Leaves j out mem e (suc n) (x >>= put_reply j out mem e mq)) (sym q)
        (consumed-Leaves n key value mq w c pre post b k s m l h a)

  put_value-Leaves :
      (n : ℕ) (key value : Option Bytes) (mq : ManagerQueue) (w : World)
      → n < size_mod
      → IsKept n w.manager.next w.manager.wants mq.q
      → IsSound n w.manager
      → Leaves j out mem e (suc n) (put_value j out mem e key value mq w)
  put_value-Leaves n key none mq w b k s = yields _ (suc-IsSound s)
  put_value-Leaves n key (some value) mq w b k s = put-Leaves n key value mq w _ b k s refl (
      queue_put-Puts (connection_queue_callback_wait_ j out) key value mem.item (focus_world mq w)
        k.inv.counts (omega (arith, k.inv.callbacks_bounded, b)))

  pub connection_http_callback_put-Leaves :
      (n : ℕ) (request : Request j out e) (w : World)
      → n < size_mod
      → IsSound n w.manager
      → Leaves j out mem e (suc n) (connection_http_callback_put j out mem e request w)
  unfolding connection_http_callback_put
  connection_http_callback_put-Leaves n request w b s =
      with_queue-Leaves j out mem e n false _ request w s
        (λ params mq v k t. put_value-Leaves n _ _ mq v b k t)
