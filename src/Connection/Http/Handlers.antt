-- ===== src/Connection/Http/Handlers.antt =====
-- The request handlers of src/connection-http.c.
use disqueue.Base.{
  ℕ, suc, ◌+◌, Bool, true, false, ◌&&◌, Option, none, some, [], Bytes, codes, if◌then◌else◌, Result,
  ok, ◌>>=◌,
}
use disqueue.Json.{JsonC}
use disqueue.Protocol.{protocol_encode_item}
use disqueue.Queue.State.{Item, Store}
use disqueue.Queue.Item.{load, queue_item_free, queue_item_lock, queue_item_unlock}
use disqueue.Queue.Ops.{Status, queue_take, queue_peek, queue_put}
use disqueue.Queue.Ops
use disqueue.Manager.State.{ManagerQueue}
use disqueue.Manager.Wants.{manager_queue_want_remove}
use disqueue.Manager.Registry.{manager_queue_free, manager_queue_foreach}
use disqueue.World.{World, focus_world, unfocus_world}
use disqueue.Connection.Wait.{Outside, connection_queue_callback_wait_}
use disqueue.Connection.Http.{
  Evhttp, get, post, delete, Reply, Memory, http_badrequest, http_notfound, http_badmethod,
  connection_http_error_, connection_http_payload_, Validated, refused, valid,
  connection_http_validate_, Request, connection_http_read_, read_error, Handler,
}

module _ (j : JsonC) (out : Outside) (mem : Memory) (e : Evhttp) where
  open j use {Json}
  open e use {Params}

  abbrev pub error : ℕ → Bytes → Reply
  error = connection_http_error_ j out []

  abbrev pub Answer : Type 0
  Answer = Result (Reply × World)

  -- The body of a handler behind connection_http_validate_.
  abbrev pub validated : (ManagerQueue → World → Answer) → Validated j out → Answer
  validated body (refused r w) = ok (r, w)
  validated body (valid mq w) = body mq w

  abbrev pub of_params : (Params → World → Answer) → Option Params → World → Answer
  of_params body none w = ok (read_error j out e, w)
  of_params body (some params) w = body params w

  -- `connection_http_read_ … || connection_http_validate_ …`, with the return, before the body.
  abbrev pub with_queue :
      Bool → (Params → ManagerQueue → World → Answer) → Request j out e → World → Answer
  with_queue create_new body request w =
      of_params
        (λ params w'.
          validated (body params)
            (connection_http_validate_ j out create_new (e.find_header params (codes "name")) w'))
        (connection_http_read_ j out e request) w

  -- The reply with an encoded item.
  abbrev pub encoded_reply : Option Json → Result Reply
  encoded_reply none = ok (error 0 (codes "failed to encode item"))
  encoded_reply (some object) = connection_http_payload_ j out (some object)

  -- The reply that shows an item.
  unfoldable pub show_item : Result Item → Result Reply
  unfolding connection_http_payload_ protocol_encode_item
  show_item item = do i ← item; encoded_reply (protocol_encode_item j out.encode i)

  -- What the two handlers that show an item do with what they find.
  abbrev pub taken : ManagerQueue → World → Option Item × Store ℕ World → Answer
  taken mq w (none, s) = ok (error http_notfound (codes "no item to take"), unfocus_world mq.addr s)
  taken mq w (some item, s) = do
    reply ← show_item (load item.addr s)
    s' ← queue_item_free item.addr s
    ok (reply, unfocus_world mq.addr s')

  abbrev pub peeked : ManagerQueue → Store ℕ World → Option Item → Answer
  peeked mq s none = ok (error http_notfound (codes "no item to peek"), unfocus_world mq.addr s)
  peeked mq s (some item) = do
    locked ← queue_item_lock item.addr s
    reply ← show_item (load item.addr locked)
    s' ← queue_item_unlock item.addr locked
    ok (reply, unfocus_world mq.addr s')

  unfoldable pub connection_http_callback_take : Handler j out e
  unfolding show_item connection_http_read_ connection_http_validate_ queue_take
  connection_http_callback_take = with_queue false (λ params mq w.
      taken mq w (queue_take (e.find_header params (codes "key")) (focus_world mq w)))

  unfoldable pub connection_http_callback_peek : Handler j out e
  unfolding show_item connection_http_read_ connection_http_validate_ queue_peek
  connection_http_callback_peek = with_queue false (λ params mq w.
      peeked mq (focus_world mq w)
        (queue_peek (e.find_header params (codes "key")) (focus_world mq w)))

  -- The reply to the answer of queue_put.
  abbrev pub put_reply : ManagerQueue → Status × Store ℕ World → Answer
  put_reply mq (Ops.Status.failed, s) =
      ok (error 0 (codes "failed to put item"), unfocus_world mq.addr s)
  put_reply mq (Ops.Status.pending, s) = do
    reply ← connection_http_payload_ j out none
    ok (reply, unfocus_world mq.addr s)
  put_reply mq (Ops.Status.done, s) = do
    reply ← connection_http_payload_ j out none
    ok (reply, unfocus_world mq.addr s)

  abbrev pub put_value : Option Bytes → Option Bytes → ManagerQueue → World → Answer
  put_value key none mq w = ok (error http_badrequest (codes "missing parameter 'value'"), w)
  put_value key (some value) mq w = do
    put ← queue_put (connection_queue_callback_wait_ j out) key value mem.item (focus_world mq w)
    put_reply mq put

  unfoldable pub connection_http_callback_put : Handler j out e
  unfolding connection_http_read_ connection_http_validate_ connection_http_payload_
  connection_http_callback_put = with_queue false (λ params.
      put_value (e.find_header params (codes "key")) (e.find_header params (codes "value")))

  -- The state is the list and the number of calls so far.
  unfoldable pub list_foreach_callback : ManagerQueue → Json × ℕ → Bool × (Json × ℕ)
  list_foreach_callback mq (list, n) =
      if mem.build n
      then if mem.build (suc n)
        then (true, (j.push list (j.string mq.id), 2 + n))
        else (false, (list, 2 + n))
      else (false, (list, suc n))

  abbrev pub listed : Bool × (Json × ℕ) → Result Reply
  listed (false, list) = ok (error 0 (codes "failed to list queues"))
  listed (true, (list, n)) = connection_http_payload_ j out (some list)

  unfoldable pub connection_http_callback_list_ : Handler j out e
  unfolding connection_http_read_ list_foreach_callback manager_queue_foreach
  connection_http_callback_list_ request w =
      of_params
        (λ params w'. do
          reply ←
              if mem.build 0
              then listed
                  (manager_queue_foreach list_foreach_callback w'.manager.queues (j.array, 1))
              else ok (error 0 (codes "failed to create list"))
          ok (reply, w'))
        (connection_http_read_ j out e request) w

  -- Where the name gets no memory, the queue is freed, also one that was there before.
  unfoldable pub connection_http_callback_new_ : Handler j out e
  unfolding connection_http_read_ connection_http_validate_ connection_http_payload_
  connection_http_callback_new_ = with_queue true (λ params mq w.
      if mem.build 0
      then (do reply ← connection_http_payload_ j out (some (j.string mq.id)); ok (reply, w))
      else (do
        m ← manager_queue_free mq w.manager
        ok (error 0 (codes "failed to encode queue name"), record w { manager = m })))

  unfoldable pub connection_http_callback_info_ : Handler j out e
  unfolding connection_http_read_ connection_http_validate_ connection_http_payload_
  connection_http_callback_info_ = with_queue false (λ params mq w. do
    reply ←
        if mem.build 0 && mem.build 1 && mem.build 2
        then connection_http_payload_ j out
            (some (j.add j.object (codes "name") (some (j.string mq.id))))
        else ok (error 0 (codes "failed to encode queue info"))
    ok (reply, w))

  unfoldable pub connection_http_callback_delete_ : Handler j out e
  unfolding connection_http_read_ connection_http_validate_ connection_http_payload_
      manager_queue_want_remove manager_queue_free
  connection_http_callback_delete_ = with_queue true (λ params mq w. do
    m ← manager_queue_free mq (manager_queue_want_remove mq.addr w.manager)
    reply ← connection_http_payload_ j out none
    ok (reply, record w { manager = m }))

  -- What both `switch` statements answer to a command they do not name.
  abbrev pub unsupported : Handler j out e
  unsupported request w = ok (error http_badmethod (codes "method not supported"), w)

  unfoldable pub connection_http_callback_queues : Handler j out e
  unfolding connection_http_callback_list_ connection_http_callback_new_
  connection_http_callback_queues request = elim request.command [
    | get ↦ connection_http_callback_list_ request
    | post ↦ connection_http_callback_new_ request
    | _ ↦ unsupported request
  ]

  unfoldable pub connection_http_callback_queue : Handler j out e
  unfolding connection_http_callback_info_ connection_http_callback_delete_
  connection_http_callback_queue request = elim request.command [
    | post ↦ connection_http_callback_info_ request
    | delete ↦ connection_http_callback_delete_ request
    | _ ↦ unsupported request
  ]
