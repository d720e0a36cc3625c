-- ===== src/Connection/Wait.antt =====
-- src/connection-ws.c: the requests that wait for an item, over a WebSocket.
pub mod Delivery
pub mod Pointers
pub mod Runs
pub mod Answer
use disqueue.Base.{
  ℕ, ◌+◌, Bool, true, false, not, ◌&&◌, ◌||◌, Option, none, some, List, [], ◌∷◌, Bytes, codes,
  if◌then◌else◌, Result, ok, fault, use_after_free, ◌>>=◌,
}
use disqueue.Json.{JsonC, Calls}
use disqueue.Protocol.{
  Created, created, failed, protocol_create_success, protocol_create_failure, protocol_encode_item,
  protocol_failure_fallback,
}
use disqueue.Queue.State.{Item, Store}
use disqueue.Queue.Item.{load, queue_item_free}
use disqueue.Queue.Ops.{Status, queue_wait}
use disqueue.Queue.Ops
use disqueue.Manager.State.{Manager, ManagerQueue}
use disqueue.Manager.Wants.{
  manager_queue_want_new, manager_queue_want_free, manager_queue_want_is_cancelled,
  manager_queue_want_get_connection, manager_queue_want_get_identifier, manager_queue_want_close,
}
use disqueue.Manager.Registry.{Platform, manager_queue_get}
use disqueue.World.{World, focus_world, unfocus_world}
use disqueue.Ws.{Wire, evws_connection_send}

-- What the code outside answers while one request is handled.
pub record Outside : Type 0 where
  pub wire : Wire
  pub success : Calls
  pub failure : Calls
  pub encode : Calls
  pub respond : Calls
  pub platform : Platform
  pub want_memory : Bool
  pub callback_memory : Bool
  pub read : Bool

module _ (j : JsonC) (out : Outside) where
  open j use {Json}

  -- The text of a response, or the fallback where there is none.
  unfoldable pub text_of : Created j → Bytes
  text_of (failed n) = protocol_failure_fallback
  text_of (created o) = elim (j.print o) [ none ↦ protocol_failure_fallback | some s ↦ s ]

  unfoldable pub connection_ws_json_ : ℕ → Created j → World → Result World
  unfolding text_of
  connection_ws_json_ con c w = evws_connection_send out.wire con (text_of c) w

  unfoldable pub connection_ws_error_ : ℕ → Bytes → World → Result World
  unfolding connection_ws_json_
  connection_ws_error_ con message w =
      connection_ws_json_ con (protocol_create_failure j out.failure message) w

  -- The payload is released once more where protocol_create_success has released it already.
  abbrev pub ws_created : ℕ → Created j → World → Result World
  ws_created con (failed n) w = fault use_after_free
  ws_created con (created o) w = connection_ws_json_ con (created o) w

  unfoldable pub connection_ws_payload_ : ℕ → Json → World → Result World
  unfolding connection_ws_json_
  connection_ws_payload_ con payload w =
      ws_created con (protocol_create_success j out.success (some payload)) w

  -- The response once the item is encoded.
  abbrev pub send_detail : ℕ → Json → Option Json → World → Result World
  send_detail con response none w = connection_ws_error_ con (codes "failed to add item") w
  send_detail con response (some detail) w =
      if not (out.respond 3)
      then connection_ws_error_ con (codes "failed to add item") w
      else connection_ws_payload_ con (j.add response (codes "item") (some detail)) w

  -- connection_queue_callback_wait_ up to `cleanup`, for a want that is not cancelled. The item is
  -- read only where it is encoded.
  unfoldable pub send_item : ℕ → Result Item → World → Result World
  unfolding connection_ws_error_ connection_ws_payload_
  send_item want item w = do
    con ← manager_queue_want_get_connection want w.manager
    id ← manager_queue_want_get_identifier want w.manager
    let response = j.add j.object (codes "id") (some (j.string id))
    if not (out.respond 0)
        then connection_ws_error_ con (codes "failed to create response") w
        else if not (out.respond 1 && out.respond 2)
        then connection_ws_error_ con (codes "failed to add identifier") w
        else item >>= λ i. send_detail con response (protocol_encode_item j out.encode i) w

  -- The world once the want is answered and freed.
  unfoldable pub answer : ℕ → Result Item → World → Result World
  unfolding send_item
  answer want item w = do
    cancelled ← manager_queue_want_is_cancelled want w.manager
    answered ← if cancelled then ok w else send_item want item w
    manager ← manager_queue_want_free want answered.manager
    ok (record answered { manager = manager })

  unfoldable pub connection_queue_callback_wait_ : ℕ → ℕ → Store ℕ World → Result (Store ℕ World)
  unfolding answer
  connection_queue_callback_wait_ want a s = do
    w ← answer want (load a s) s.ext
    queue_item_free a (record s { ext = w })

  -- `none` where the key is missing, or is no string.
  unfoldable pub json_get_string : Json → Bytes → Option Bytes
  json_get_string o k = elim (j.get o k) [
    | none ↦ none
    | some attribute ↦ elim attribute [ none ↦ none | some v ↦ j.get_string v ]
  ]

  unfoldable pub connection_ws_read_ : Bytes → Option Json
  connection_ws_read_ body = if out.read then j.parse body else none

  -- From the call of queue_wait on: a want that cannot wait is freed, and the client is told.
  unfoldable pub waited : ℕ → ℕ → ℕ → Result (Status × Store ℕ World) → Result World
  unfolding connection_ws_error_
  waited con mq want r = do
    (status, s) ← r
    let w = unfocus_world mq s
    elim status [
      | Ops.Status.failed ↦ do
        manager ← manager_queue_want_free want w.manager
        connection_ws_error_ con (codes "failed to wait for want") (record w { manager = manager })
      | _ ↦ ok w
    ]

  -- From the lookup of the queue on.
  unfoldable pub wait_on :
      ℕ → Bytes → Option Bytes → Option ManagerQueue × Manager → World → Result World
  unfolding waited connection_ws_error_ connection_queue_callback_wait_
  wait_on con id key (none, m) w = connection_ws_error_ con (codes "queue not found") w
  wait_on con id key (some mq, m) w =
      let (want, m') = manager_queue_want_new id con mq.addr out.want_memory m in
      elim want [
        | none ↦ connection_ws_error_ con (codes "failed to create want") w
        | some a ↦ waited con mq.addr a (
            queue_wait connection_queue_callback_wait_ key a out.callback_memory
              (focus_world mq (record w { manager = m' })))
      ]

  -- The test behind the lookup of `queue` asks for the identifier again, so a request that names no
  -- queue goes on, and manager_queue_get is called with NULL.
  unfoldable pub connection_ws_callback_wait : ℕ → Bytes → World → Result World
  unfolding connection_ws_error_ wait_on json_get_string connection_ws_read_
  connection_ws_callback_wait con body w = elim (connection_ws_read_ body) [
    | none ↦ connection_ws_error_ con (codes "failed to read message") w
    | some request ↦ elim (json_get_string request (codes "identifier")) [
      | none ↦ connection_ws_error_ con (codes "no identifier") w
      | some id ↦
          wait_on con id (json_get_string request (codes "key"))
            (manager_queue_get out.platform (json_get_string request (codes "queue")) false
              w.manager)
            w
    ]
  ]

-- connection_ws_callback_close and connection_ws_callback_error.
unfoldable pub connection_ws_callback_close : ℕ → World → World
connection_ws_callback_close con w = record w { manager = manager_queue_want_close con w.manager }

unfoldable pub connection_ws_callback_error : ℕ → World → World
connection_ws_callback_error con w = record w { manager = manager_queue_want_close con w.manager }
