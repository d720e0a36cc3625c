-- ===== src/Tests/System.antt =====
-- The theorems on the whole server, in a world that it reaches: a queue is made, a client connects
-- and waits for an item.
use disqueue.Base.{
  ℕ, ◌≡◌, refl, true, false, Option, none, some, List, [], ◌∷◌, Bytes, codes, if◌then◌else◌, ok,
  arith, find, strcase_eq, tolower,
}
use disqueue.Auth.{same_bytes}
use disqueue.Json.{JsonC}
use disqueue.Protocol.{
  key_key, value_key, success_key, message_key, payload_key, protocol_encode_item,
  protocol_create_success, protocol_create_base,
}
use disqueue.Queue.State.{item_matches, Callback, callback_accepts}
use disqueue.Queue.Ops.{queue_new, queue_wait, queue_take, may_match, uuid4, empty_queue}
use disqueue.Manager.State.{ManagerQueue, Want, manager_startup}
use disqueue.Manager.Uuid.{sample, queue_get_uuid, hex_digits, hex_digit, htonl, htons, load_le}
use disqueue.Manager.Wants.{manager_queue_want_new}
use disqueue.Manager.Registry.{create, manager_queue_get, set_queue}
use disqueue.World.{World, load_connection, store_connection}
use disqueue.Connection.Wait.{
  Outside, connection_ws_callback_wait, connection_ws_read_, json_get_string, wait_on, waited,
}
use disqueue.Connection.Http.{
  Evhttp, get, post, Request, connection_http_read_, connection_http_validate_,
  connection_http_payload_, connection_http_json_,
}
use disqueue.Connection.Http.Guards.{Reaches}
use disqueue.Connection.Http.Handlers.{
  show_item, connection_http_callback_new_, connection_http_callback_queues,
  connection_http_callback_take, connection_http_callback_peek, connection_http_callback_put,
}
use disqueue.Routes.{Listener, listener_of, manager_add_server, route_at, dispatch}
use disqueue.Ws.{evws_connection_write_}
use disqueue.Ws.Header.{header_contains, strtok, skip_spaces, any_token}
use disqueue.Ws.Receive.{
  Opcodes, Received, evws_connection_read_cb_, received, evws_wslay_on_msg_callback_,
  evws_message_new_, evws_message_get_buffer, evws_message_free, is_owned, load_message,
  remove_message,
}
use disqueue.Ws.Upgrade.{
  connection_new, create_security_key, evws_connection_new_, shake_hands, evws_upgrade_http_cb_,
}
use disqueue.System.RoundTrip.{connection_http_callback_put-take}
use disqueue.Connection.Http.Items.{Shows, shown}
use disqueue.Queue.First.{new_item}
use disqueue.System.Sound.{IsSound}
use disqueue.System.Reachable.{
  Step, requested, upgraded, readable, Reach, started, stepped, Reach-IsSound,
}
use disqueue.System.Service.{
  Answers, CanShow, Faults, connection_http_callback_take-Answers,
  connection_http_callback_put-Faults,
}
use disqueue.Tests.Data.{
  unread, no_auths, Document, null_member, truth, member, text, empty_object, document_get,
  document_string, documents, outside, platform_of, plenty, no_queues,
}
use disqueue.Tests.Startup.{handshake}

-- A libevent whose headers are a list; a body names the queue.
unfoldable field_in : List (Bytes × Bytes) → Bytes → Option Bytes
unfolding same_bytes
field_in [] k = none
field_in ((name, value) ∷ rest) k =
    let later = field_in rest k in if same_bytes name k then some value else later

abbrev fields_of : Bytes → List (Bytes × Bytes)
fields_of [] = []
fields_of (b ∷ bytes) = (codes "name", b ∷ bytes) ∷ (codes "value", codes "v") ∷ []

abbrev fields : Evhttp
fields = record {
  Params = List (Bytes × Bytes);
  parse_query = λ body. some (fields_of body);
  find_header = field_in;
}

abbrev made_id : Bytes
made_id = queue_get_uuid 4 (uuid4 sample)

-- A json-c that reads every text as a wait on the queue that was made.
abbrev waits : JsonC
waits = record documents {
  parse = λ s. some (
      member (member empty_object (codes "identifier") (text (codes "i"))) (codes "queue")
        (text made_id));
}

abbrev random_outside : Outside
random_outside = record outside { platform = record (platform_of 4) { random = some sample } }

abbrev asking : Bytes → Request waits random_outside fields
asking body = record { command = post; headers = []; body = body }

abbrev connecting : Request waits random_outside fields
connecting = record {
  command = get;
  headers =
      (codes "Upgrade", codes "websocket")
      ∷ (codes "Connection", codes "Upgrade")
      ∷ (codes "Sec-WebSocket-Version", codes "13")
      ∷ (codes "Sec-WebSocket-Key", codes "k")
      ∷ [];
  body = [];
}

abbrev listener : Listener
listener = (manager_add_server (λ n. true) none none (listener_of 1 2) no_queues).1

abbrev opcodes : Opcodes
opcodes = record { text_frame = 1; binary_frame = 2; is_ctrl_frame = λ n. false }

abbrev waiting : Received waits opcodes
waiting = record { opcode = 1; msg = codes "hi"; memory = true; out = random_outside }

abbrev first_world : World
first_world = record { manager = manager_startup no_queues; connections = [] }

abbrev made_queue : ManagerQueue
made_queue = record { addr = 0; q = empty_queue (uuid4 sample); id = made_id }

abbrev made_world : World
made_world = record {
  manager = record no_queues { queues = made_queue ∷ []; next = 1 };
  connections = [];
}

abbrev connected_world : World
connected_world = record {
  manager = record no_queues { queues = made_queue ∷ []; next = 2 };
  connections = connection_new 1 ∷ [];
}

abbrev waiting_callback : Callback ℕ
waiting_callback = record { key = none; addcb = some 3 }

abbrev waited_queue : ManagerQueue
waited_queue = record {
  addr = 0;
  q = record (empty_queue (uuid4 sample)) { callback_count = 1; callbacks = waiting_callback ∷ [] };
  id = made_id;
}

abbrev waited_want : Want
waited_want = record { addr = 3; identifier = codes "i"; cancelled = false; queue = 0; client = 1 }

abbrev waited_world : World
waited_world = record {
  manager = record no_queues { queues = waited_queue ∷ []; wants = waited_want ∷ []; next = 4 };
  connections = connection_new 1 ∷ [];
}

made : Step waits opcodes fields same_bytes 1 first_world made_world
unfolding manager_add_server dispatch route_at same_bytes connection_http_callback_queues
    connection_http_callback_new_ connection_http_read_ connection_http_validate_ field_in
    manager_queue_get create queue_new manager_startup connection_http_payload_
    connection_http_json_ protocol_create_success protocol_create_base
made =
    requested random_outside plenty unread listener (codes "/queues") (asking []) first_world
      made_world no_auths no_auths _ refl

connected : Step waits opcodes fields same_bytes 0 made_world connected_world
unfolding evws_upgrade_http_cb_ shake_hands create_security_key evws_connection_new_ field_in
    same_bytes header_contains strtok skip_spaces any_token strcase_eq tolower
connected =
    upgraded random_outside plenty unread none handshake connecting made_world connected_world
      no_auths no_auths _ refl

waited_for : Step waits opcodes fields same_bytes 1 connected_world waited_world
unfolding load_connection find evws_connection_read_cb_ received evws_wslay_on_msg_callback_
    evws_message_new_ evws_message_get_buffer evws_message_free is_owned load_message remove_message
    store_connection connection_ws_callback_wait connection_ws_read_ json_get_string wait_on waited
    evws_connection_write_ document_get document_string same_bytes manager_queue_get
    manager_queue_want_new queue_wait queue_take may_match set_queue strcase_eq queue_get_uuid
    hex_digits hex_digit htonl htons load_le tolower uuid4
waited_for = readable outside.wire true 1 (waiting ∷ []) connected_world waited_world refl

reached : Reach waits opcodes fields same_bytes 2 waited_world
unfolding manager_startup
reached =
    stepped 1 1 connected_world waited_world
      (stepped 0 1 made_world connected_world
        (stepped 1 0 first_world made_world (started no_queues [] refl) made) connected)
      waited_for

Reach-IsSound_example : IsSound 2 waited_world.manager
Reach-IsSound_example =
    Reach-IsSound waits opcodes fields same_bytes 2 waited_world (omega arith) reached

can_show : CanShow waits random_outside plenty fields
unfolding show_item protocol_encode_item connection_http_payload_ connection_http_json_
    protocol_create_success protocol_create_base
can_show item =
    elim item.key
      as (λ k.
        (reply : _) × (show_item waits random_outside plenty fields (ok (record item { key = k }))
          ≡ ok reply)) [ none ↦ (_, refl) | some k ↦ (_, refl) ]

connection_http_callback_take-Answers_example :
    Answers waits random_outside plenty fields (
      connection_http_callback_take waits random_outside plenty fields
        (asking made_id)
        waited_world)
    × Answers waits random_outside plenty fields (
        connection_http_callback_peek waits random_outside plenty fields
          (asking made_id)
          waited_world)
connection_http_callback_take-Answers_example =
    connection_http_callback_take-Answers waits random_outside plenty fields opcodes same_bytes 2
      waited_world (asking made_id) (omega arith) reached can_show

waited-Reaches :
    Reaches waits random_outside plenty fields
      (asking made_id)
      waited_world
      (fields_of made_id)
      waited_queue
unfolding connection_http_read_ field_in same_bytes find strcase_eq queue_get_uuid hex_digits
    hex_digit htonl htons load_le uuid4
waited-Reaches = record {
  is_read = refl;
  name = made_id;
  has_name = refl;
  name_sized = refl;
  name_found = refl;
  located = refl;
}

connection_http_callback_put-Faults_example :
    Faults waits random_outside plenty fields (
      connection_http_callback_put waits random_outside plenty fields (asking made_id) waited_world)
unfolding field_in same_bytes callback_accepts queue_get_uuid hex_digits hex_digit
connection_http_callback_put-Faults_example =
    connection_http_callback_put-Faults waits random_outside plenty fields opcodes same_bytes 2
      waited_world (asking made_id) (fields_of made_id) waited_queue (codes "v") waiting_callback []
      [] (omega arith) reached waited-Reaches refl refl refl refl

made_reached : Reach waits opcodes fields same_bytes 1 made_world
unfolding manager_startup
made_reached = stepped 1 0 first_world made_world (started no_queues [] refl) made

made-Reaches :
    Reaches waits random_outside plenty fields
      (asking made_id)
      made_world
      (fields_of made_id)
      made_queue
unfolding connection_http_read_ field_in same_bytes find strcase_eq queue_get_uuid hex_digits
    hex_digit htonl htons load_le uuid4
made-Reaches = record {
  is_read = refl;
  name = made_id;
  has_name = refl;
  name_sized = refl;
  name_found = refl;
  located = refl;
}

abbrev put_document : Document
put_document = member (null_member empty_object key_key) value_key (text (codes "v"))

abbrev succeeded : Document
succeeded = member (null_member empty_object message_key) success_key (truth true)

put-Shows : Shows waits random_outside plenty fields (new_item 1 none (codes "v")) (codes "{}")
unfolding protocol_encode_item protocol_create_success
put-Shows = record {
  object = put_document;
  response = member succeeded payload_key put_document;
  encoded = refl;
  wrapped = refl;
  printed = refl;
}

connection_http_callback_put-take_example :
    (v : World) × (connection_http_callback_put waits random_outside plenty fields
        (asking made_id)
        made_world
      ≡ ok (shown waits random_outside plenty fields (codes "{}"), v))
    × (connection_http_callback_take waits random_outside plenty fields (asking made_id) v
        ≡ ok (
          shown waits random_outside plenty fields (codes "{}"),
          record made_world { manager = record made_world.manager { next = 2 } },
        ))
unfolding field_in same_bytes protocol_create_success item_matches queue_get_uuid hex_digits
    hex_digit
connection_http_callback_put-take_example =
    connection_http_callback_put-take waits random_outside plenty fields opcodes same_bytes 1
      made_world (asking made_id) (asking made_id) (fields_of made_id) (fields_of made_id)
      made_queue (codes "v") (codes "{}") (codes "{}") succeeded (omega arith) made_reached
      made-Reaches made-Reaches refl refl tt tt refl refl refl put-Shows
