-- ===== src/Connection/Http/Listing.antt =====
-- What connection_http_callback_list_ answers: the names of all queues.
use disqueue.Base.{ℕ, suc, ◌+◌, true, some, List, [], ◌∷◌, Bytes, ok, ◌≡◌, refl}
use disqueue.Json.{JsonC}
use disqueue.Protocol.{created, protocol_create_success}
use disqueue.Manager.State.{ManagerQueue}
use disqueue.Manager.Registry.{manager_queue_foreach}
use disqueue.World.{World}
use disqueue.Connection.Wait.{Outside}
use disqueue.Connection.Http.{
  Evhttp, Memory, Request, connection_http_read_, connection_http_json_, connection_http_payload_,
}
use disqueue.Connection.Http.Handlers.{list_foreach_callback, connection_http_callback_list_}
use disqueue.Connection.Http.Items.{shown}

module _ (j : JsonC) (out : Outside) (mem : Memory) (e : Evhttp) where
  open j use {Json}
  open e use {Params}

  -- The array with the names of these queues behind what it holds.
  abbrev pub with_names : List ManagerQueue → Json → Json
  with_names [] array = array
  with_names (mq ∷ qs) array = with_names qs (j.push array (j.string mq.id))

  foreach-with_names :
      (qs : List ManagerQueue) (array : Json) (n : ℕ)
      → ((k : ℕ) → mem.build k ≡ true)
      → (k : ℕ) × (manager_queue_foreach (list_foreach_callback j out mem e) qs (array, n)
          ≡ (true, (with_names qs array, k)))
  unfolding manager_queue_foreach list_foreach_callback
  foreach-with_names [] array n b = (n, refl)
  foreach-with_names (mq ∷ qs) array n b =
      let (k, h) = foreach-with_names qs (j.push array (j.string mq.id)) (2 + n) b in
      (k, rw (b n) (rw (b (suc n)) h))

  -- Where a request is read and there is memory, listing answers 200 with the array of the names of
  -- all queues, in the order of the registry, if the reply can be made, and changes nothing.
  pub connection_http_callback_list_-with_names :
      (request : Request j out e) (w : World) (params : Params) (response : Json) (text : Bytes)
      → connection_http_read_ j out e request ≡ some params
      → ((k : ℕ) → mem.build k ≡ true)
      → protocol_create_success j out.success (some (with_names w.manager.queues j.array))
        ≡ created response
      → j.print response ≡ some text
      → connection_http_callback_list_ j out mem e request w ≡ ok (shown j out mem e text, w)
  unfolding connection_http_callback_list_ connection_http_payload_ connection_http_json_
  connection_http_callback_list_-with_names request w params response text r b c t =
      let (k, h) = foreach-with_names w.manager.queues j.array 1 b in
      rw r (rw (b 0) (rw h (rw (c, connection_http_payload_) (rw (t, connection_http_json_) refl))))
