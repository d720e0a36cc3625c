-- ===== src/System/Service.antt =====
-- What a client meets in a world that the server has reached.
use disqueue.Base.{
  ℕ, ◌<◌, ◌≡◌, refl, subst, Bool, true, false, Option, none, some, List, ◌∷◌, ◌++◌, Bytes, codes,
  arith, All, All-split, Result, ok, fault, ◌>>=◌, split_first-Splits, missed, hit, Fault,
}
use disqueue.Json.{JsonC}
use disqueue.Queue.State.{Item, Callback, Store, size_mod, callback_accepts}
use disqueue.Queue.Ops.{queue_peek}
use disqueue.Queue.First.{
  detach, has_memory, taken_store, nothing, first, queue_take-Takes, Takes, All-refuted,
}
use disqueue.Queue.Borrow.{queue_item_free-head, load-head}
use disqueue.Queue.Lock.{locked, load-locked}
use disqueue.Manager.State.{ManagerQueue}
use disqueue.Manager.Registry.{named}
use disqueue.World.{World, focus_world, unfocus_world}
use disqueue.Connection.Wait.{Outside, answer}
use disqueue.Connection.Wait.Delivery.{queue_put-double_free}
use disqueue.Connection.Http.{Evhttp, Reply, Memory, Request}
use disqueue.Connection.Http.Handlers.{
  Answer, show_item, taken, peeked, put_reply, connection_http_callback_take,
  connection_http_callback_peek, connection_http_callback_put,
}
use disqueue.Connection.Http.Guards.{Reaches, with_queue-Reaches}
use disqueue.Connection.Http.Items.{key_of, lock_of, unlock_of}
use disqueue.Ws.Receive.{Opcodes}
use disqueue.System.Sound.{IsStored, IsKept, IsSound, HasWant}
use disqueue.System.Guards.{with_queue-Covers}
use disqueue.System.Items.{peek-stands, fresh}
use disqueue.System.Lookup.{find-AllKept}
use disqueue.System.Reachable.{Reach, Reach-IsSound}

module _ (j : JsonC) (out : Outside) (mem : Memory) (e : Evhttp) where
  open e use {Params, find_header}

  abbrev pub Answers : Answer j out mem e → Type 0
  Answers r = (p : Reply × World) × (r ≡ ok p)

  -- Every item can be shown: no call to malloc that the reply needs fails.
  abbrev pub CanShow : Type 0
  CanShow = (item : Item) → (reply : Reply) × (show_item j out mem e (ok item) ≡ ok reply)

  taken-Answers :
      (n : ℕ) (key : Option Bytes) (mq : ManagerQueue) (w : World) (r : Option Item × Store ℕ World)
      → CanShow
      → IsKept n w.manager.next w.manager.wants mq.q
      → Takes key (focus_world mq w) r
      → Answers (taken j out mem e mq w r)
  taken-Answers n key mq w r c k (nothing h t) = rw t (_, refl)
  taken-Answers n key mq w r c k (first item pre post l h m t) =
      let st =
        (All-split (IsStored w.manager.next) pre post item
          (subst (All (IsStored w.manager.next)) l k.stored)).0 in
      let u : Store ℕ World = record (taken_store item (pre ++ post) (focus_world mq w)) {
        detached = w.manager.detached;
      } in
      let (reply, s) = c (detach item) in
      rw t (
        rw (load-head (detach item) w.manager.detached u) (
          rw s (
            rw (queue_item_free-head (detach item) w.manager.detached u refl (rw st.unlocked refl))
              ((reply, unfocus_world mq.addr u), refl))))

  peeked-Answers :
      (n : ℕ) (key : Option Bytes) (mq : ManagerQueue) (w : World) (o : Option Item)
      → CanShow
      → IsKept n w.manager.next w.manager.wants mq.q
      → IsSound n w.manager
      → queue_peek key (focus_world mq w) ≡ o
      → Answers (peeked j out mem e mq (focus_world mq w) o)
  peeked-Answers n key mq w none c k s q = (_, refl)
  peeked-Answers n key mq w (some item) c k s q =
      let (l, i) = peek-stands j out mem e n key mq w item k s q in
      let t : Store ℕ World = focus_world mq w in
      let (reply, d) = c (locked item) in
      rw (lock_of j out mem e item.addr t item l) (
        rw (load-locked item.addr t item l) (
          rw d (
            rw (unlock_of j out mem e item.addr t item l i)
              ((reply, unfocus_world mq.addr t), refl))))

  -- The first of the callbacks that accept a key, where one does.
  first_accepting :
      (key : Option Bytes) (c : Callback ℕ) (pre post cs : List (Callback ℕ))
      → cs ≡ pre ++ c ∷ post
      → callback_accepts key c ≡ true
      → (d : Callback ℕ) × (before : List (Callback ℕ)) × (after : List (Callback ℕ)) × (cs
          ≡ before ++ d ∷ after)
        × All (λ x. callback_accepts key x ≡ false) before
        × (callback_accepts key d ≡ true)
  first_accepting key c pre post cs l a = elim (split_first-Splits (callback_accepts key) cs) [
    | missed o h ↦ absurd (
        All-refuted (callback_accepts key) pre post c
          (subst (All (λ x. callback_accepts key x ≡ false)) l h) a)
    | hit d before after o k h m ↦ (d, before, after, k, h, m)
  ]

  abbrev pub Faults : Answer j out mem e → Type 0
  Faults r = (f : Fault) × (r ≡ fault f)

  breaks_after-Faults :
      {A B : Type 0} (r : Result A) (f : Fault) (next : B → Answer j out mem e)
      → Faults (r >>= (λ a. fault f) >>= next)
  breaks_after-Faults (ok a) f next = (f, refl)
  breaks_after-Faults (fault g) f next = (g, refl)

  module _ (op : Opcodes) (same : Bytes → Bytes → Bool) where
    -- In a world that the server reaches with fewer than 2^64 requests and messages: take and peek
    -- answer every request, without a fault, if every item can be shown.
    pub connection_http_callback_take-Answers :
        (n : ℕ) (w : World) (request : Request j out e)
        → n < size_mod
        → Reach j op e same n w
        → CanShow
        → Answers (connection_http_callback_take j out mem e request w)
          × Answers (connection_http_callback_peek j out mem e request w)
    unfolding connection_http_callback_take connection_http_callback_peek
    connection_http_callback_take-Answers n w request b r c = (
      with_queue-Covers j out mem e Answers n false _ request w (λ reply v t. ((reply, v), refl))
          (λ params mq v k t. taken-Answers n (key_of j out mem e params) mq v _ c k (
            queue_take-Takes (key_of j out mem e params) (focus_world mq v) k.inv.counts
              (omega (arith, k.inv.items_bounded, b))))
          (Reach-IsSound j op e same n w b r),
      with_queue-Covers j out mem e Answers n false _ request w (λ reply v t. ((reply, v), refl))
          (λ params mq v k t. peeked-Answers n (key_of j out mem e params) mq v _ c k t refl)
          (Reach-IsSound j op e same n w b r),
    )

    -- In a world that the server reaches with fewer than 2^64 requests and messages, and with
    -- memory for the item: a put with a value to a queue in which a client waits that accepts the
    -- key never answers; it ends in a fault.
    pub connection_http_callback_put-Faults :
        (n : ℕ) (w : World) (request : Request j out e) (params : Params) (mq : ManagerQueue)
        (value : Bytes) (c : Callback ℕ) (pre post : List (Callback ℕ))
        → n < size_mod
        → Reach j op e same n w
        → Reaches j out mem e request w params mq
        → find_header params (codes "value") ≡ some value
        → has_memory (key_of j out mem e params) mem.item ≡ true
        → mq.q.callbacks ≡ pre ++ c ∷ post
        → callback_accepts (key_of j out mem e params) c ≡ true
        → Faults (connection_http_callback_put j out mem e request w)
    unfolding connection_http_callback_put
    connection_http_callback_put-Faults n w request params mq value c pre post b r g v m l a =
        let s = Reach-IsSound j op e same n w b r in
        let key = key_of j out mem e params in
        let k =
          find-AllKept n w.manager.next w.manager.wants (named g.name) w.manager.queues mq
            s.queues_kept g.name_found in
        let (d, before, after, l', h, t) = first_accepting key c pre post mq.q.callbacks l a in
        let (want, o, _, _) =
          (All-split (HasWant w.manager.wants) before after d
            (subst (All (HasWant w.manager.wants)) l' k.waiting)).0 in
        rw (with_queue-Reaches j out mem e false _ request w params mq g) (
          rw v (
            rw
              (queue_put-double_free j out key value mem.item (focus_world mq w) d want before after
                k.inv.counts (fresh j out mem e n mq w k s)
                (omega (arith, k.inv.callbacks_bounded, b)) m l' h t o)
              (breaks_after-Faults (answer j out want _ w) _ (put_reply j out mem e mq))))
