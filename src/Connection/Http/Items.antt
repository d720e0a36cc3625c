-- ===== src/Connection/Http/Items.antt =====
-- What connection_http_callback_take, connection_http_callback_peek and connection_http_callback_put
-- do with the items of a queue.
use disqueue.Base.{
  ℕ, ◌<◌, true, false, Option, none, some, List, [], ◌∷◌, ◌++◌, Bytes, codes, length, All, ok, ◌≡◌,
  refl, ap, sym, subst, ◌∙◌, is_zero,
}
use disqueue.Json.{JsonC}
use disqueue.Protocol.{created, protocol_encode_item, protocol_create_success}
use disqueue.Queue.State.{Item, Store, size_mod, item_matches, callback_accepts}
use disqueue.Queue.Item.{load, store, queue_item_lock, queue_item_unlock}
use disqueue.Queue.Ops.{pending, remove_item, queue_take, queue_peek, queue_put}
use disqueue.Queue.Counts.{Counts}
use disqueue.Queue.First.{
  detach, queued_store, has_memory, queue_take-hit, nothing, first, queue_take-Takes, no_memory,
  kept, consumed, queue_put-Puts, All-refuted,
}
use disqueue.Queue.Borrow.{load-head, queue_item_free-head}
use disqueue.Queue.Lock.{locked, load-locked, queue_item_unlock-lock}
use disqueue.Manager.State.{ManagerQueue}
use disqueue.World.{World, focus_world, unfocus_world}
use disqueue.Connection.Wait.{Outside, connection_queue_callback_wait_}
use disqueue.Connection.Http.{
  Evhttp, Reply, Memory, http_ok, http_badrequest, http_notfound, content_type, Request,
  connection_http_json_, connection_http_payload_, http_created, reply_of,
}
use disqueue.Connection.Http.Handlers.{
  error, show_item, encoded_reply, put_value, taken, peeked, connection_http_callback_take,
  connection_http_callback_peek, connection_http_callback_put,
}
use disqueue.Connection.Http.Guards.{Reaches, unfocus-focus, with_queue-Reaches}

module _ (j : JsonC) (out : Outside) (mem : Memory) (e : Evhttp) where
  open j use {Json}
  open e use {Params, find_header}

  abbrev pub key_of : Params → Option Bytes
  key_of params = find_header params (codes "key")

  -- The item can be sent as this text.
  pub record Shows (item : Item) (text : Bytes) : Type 0 where
    pub object : Json
    pub response : Json
    pub encoded : protocol_encode_item j out.encode item ≡ some object
    pub wrapped : protocol_create_success j out.success (some object) ≡ created response
    pub printed : j.print response ≡ some text

  abbrev pub shown : Bytes → Reply
  shown text = record { code = http_ok; headers = content_type ∷ []; body = text }

  show_item-Shows :
      (item : Item) (text : Bytes)
      → Shows item text
      → show_item j out mem e (ok item) ≡ ok (shown text)
  unfolding show_item connection_http_payload_ connection_http_json_
  show_item-Shows item text s =
      ap (encoded_reply j out mem e) s.encoded
      ∙ ap (http_created j out (some s.object)) s.wrapped
      ∙ ap (λ t. ok (reply_of j out [] http_ok t)) s.printed

  locked-Shows : (item : Item) (text : Bytes) → Shows item text → Shows (locked item) text
  unfolding protocol_encode_item
  locked-Shows item text s = record {
    object = s.object;
    response = s.response;
    encoded = s.encoded;
    wrapped = s.wrapped;
    printed = s.printed;
  }

  pub lock_of :
      (a : ℕ) (s : Store ℕ World) (item : Item)
      → load a s ≡ ok item
      → queue_item_lock a s ≡ ok (store a locked s)
  unfolding queue_item_lock
  lock_of a s item l = rw l refl

  pub unlock_of :
      (a : ℕ) (s : Store ℕ World) (item : Item)
      → load a s ≡ ok item
      → item.inserted ≡ true
      → queue_item_unlock a (store a locked s) ≡ ok s
  unlock_of a s item l i = sym (rw (lock_of a s item l) refl) ∙ queue_item_unlock-lock a s item l i

  -- On a queue whose counters are right and that has fewer than 2^64 items, and where the item can
  -- be encoded, taking answers 200 with the first item that fits the key, if no lock holds it, and
  -- removes it from its queue and frees it; the other items keep their order, and nothing else
  -- changes.
  pub connection_http_callback_take-first :
      (request : Request j out e) (w : World) (params : Params) (mq : ManagerQueue) (item : Item)
      (pre post : List Item) (text : Bytes)
      → Reaches j out mem e request w params mq
      → Counts mq.q
      → length mq.q.items < size_mod
      → mq.q.items ≡ pre ++ item ∷ post
      → All (λ x. item_matches (key_of params) x ≡ false) pre
      → item_matches (key_of params) item ≡ true
      → is_zero item.lockcount ≡ true
      → Shows (detach item) text
      → connection_http_callback_take j out mem e request w
        ≡ ok (
          shown text,
          unfocus_world mq.addr
              (record (focus_world mq w) { queue = remove_item item (pre ++ post) mq.q }),
        )
  unfolding connection_http_callback_take
  connection_http_callback_take-first request w params mq item pre post text r v b l h m z sh =
      let s : Store ℕ World = focus_world mq w in
      let t : Store ℕ World = record s { queue = remove_item item (pre ++ post) mq.q } in
      with_queue-Reaches j out mem e false _ request w params mq r
      ∙ ap (taken j out mem e mq w) (queue_take-hit (key_of params) s item pre post v b l h m)
      ∙ rw (load-head (detach item) s.detached t) (
          rw (show_item-Shows (detach item) text sh)
            (rw (queue_item_free-head (detach item) s.detached t refl z) refl))

  take_none :
      (key : Option Bytes) (s : Store ℕ World)
      → Counts s.queue
      → length s.queue.items < size_mod
      → All (λ x. item_matches key x ≡ false) s.queue.items
      → queue_take key s ≡ (none, s)
  take_none key s v b h = elim (queue_take-Takes key s v b) [
    | nothing h' n ↦ n
    | first item pre post l h' m n ↦ absurd (
        All-refuted (item_matches key) pre post item
          (subst (All (λ x. item_matches key x ≡ false)) l h) m)
  ]

  -- On a queue whose counters are right and that has fewer than 2^64 items, taking by a key that no
  -- item fits answers 404 and changes nothing.
  pub connection_http_callback_take-none :
      (request : Request j out e) (w : World) (params : Params) (mq : ManagerQueue)
      → Reaches j out mem e request w params mq
      → Counts mq.q
      → length mq.q.items < size_mod
      → All (λ x. item_matches (key_of params) x ≡ false) mq.q.items
      → connection_http_callback_take j out mem e request w
        ≡ ok (error j out mem e http_notfound (codes "no item to take"), w)
  unfolding connection_http_callback_take
  connection_http_callback_take-none request w params mq r v b h =
      with_queue-Reaches j out mem e false _ request w params mq r
      ∙ ap (taken j out mem e mq w) (take_none (key_of params) (focus_world mq w) v b h)
      ∙ ap (λ x. ok (error j out mem e http_notfound (codes "no item to take"), x))
          (unfocus-focus j out mem e request w params mq r)

  -- Where queue_peek shows an item of the queue and the item can be encoded, peeking answers 200
  -- with it and leaves everything as it was: the item stays in its queue, and its lock count is
  -- restored.
  pub connection_http_callback_peek-found :
      (request : Request j out e) (w : World) (params : Params) (mq : ManagerQueue) (item : Item)
      (text : Bytes)
      → Reaches j out mem e request w params mq
      → queue_peek (key_of params) (focus_world mq w) ≡ some item
      → load item.addr (focus_world mq w) ≡ ok item
      → item.inserted ≡ true
      → Shows item text
      → connection_http_callback_peek j out mem e request w ≡ ok (shown text, w)
  unfolding connection_http_callback_peek
  connection_http_callback_peek-found request w params mq item text r q l i sh =
      let s : Store ℕ World = focus_world mq w in
      let held : Store ℕ World = store item.addr locked s in
      with_queue-Reaches j out mem e false _ request w params mq r
      ∙ ap (peeked j out mem e mq s) q
      ∙ rw (lock_of item.addr s item l) (
          rw (load-locked item.addr s item l) (
            rw (show_item-Shows (locked item) text (locked-Shows item text sh)) (
              rw (unlock_of item.addr s item l i)
                (ap (λ x. ok (shown text, x)) (unfocus-focus j out mem e request w params mq r)))))

  put_kept :
      (key : Option Bytes) (value : Bytes) (s : Store ℕ World)
      → Counts s.queue
      → length s.queue.callbacks < size_mod
      → has_memory key mem.item ≡ true
      → All (λ c. callback_accepts key c ≡ false) s.queue.callbacks
      → queue_put (connection_queue_callback_wait_ j out) key value mem.item s
        ≡ ok (pending, queued_store key value s)
  put_kept key value s v b m h =
      elim (queue_put-Puts (connection_queue_callback_wait_ j out) key value mem.item s v b) [
        | no_memory n q ↦ cc
        | kept m' h' q ↦ q
        | consumed c pre post m' l h' a q ↦ absurd (
            All-refuted (callback_accepts key) pre post c
              (subst (All (λ d. callback_accepts key d ≡ false)) l h) a)
      ]

  -- On a queue whose counters are right and that has fewer than 2^64 callbacks, of which none
  -- accepts the key, and with memory, putting a value answers 200 without a payload, and the item
  -- stands last in its queue.
  pub connection_http_callback_put-kept :
      (request : Request j out e) (w : World) (params : Params) (mq : ManagerQueue)
      (value text : Bytes) (response : Json)
      → Reaches j out mem e request w params mq
      → find_header params (codes "value") ≡ some value
      → Counts mq.q
      → length mq.q.callbacks < size_mod
      → has_memory (key_of params) mem.item ≡ true
      → All (λ c. callback_accepts (key_of params) c ≡ false) mq.q.callbacks
      → protocol_create_success j out.success none ≡ created response
      → j.print response ≡ some text
      → connection_http_callback_put j out mem e request w
        ≡ ok (
          shown text,
          unfocus_world mq.addr (queued_store (key_of params) value (focus_world mq w)),
        )
  unfolding connection_http_callback_put connection_http_payload_ connection_http_json_
  connection_http_callback_put-kept request w params mq value text response r hv v b m h c t =
      with_queue-Reaches j out mem e false _ request w params mq r
      ∙ ap (λ x. put_value j out mem e (key_of params) x mq w) hv
      ∙ rw (put_kept (key_of params) value (focus_world mq w) v b m h)
          (rw (c, connection_http_payload_) (rw (t, connection_http_json_) refl))

  -- On a queue that the request names, putting without a value answers 400 and changes nothing.
  pub connection_http_callback_put-missing :
      (request : Request j out e) (w : World) (params : Params) (mq : ManagerQueue)
      → Reaches j out mem e request w params mq
      → find_header params (codes "value") ≡ none
      → connection_http_callback_put j out mem e request w
        ≡ ok (error j out mem e http_badrequest (codes "missing parameter 'value'"), w)
  unfolding connection_http_callback_put
  connection_http_callback_put-missing request w params mq r hv =
      with_queue-Reaches j out mem e false _ request w params mq r
      ∙ ap (λ x. put_value j out mem e (key_of params) x mq w) hv
