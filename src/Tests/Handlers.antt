-- ===== src/Tests/Handlers.antt =====
-- The theorems on the request handlers, at the inputs of Tests/Data.
use disqueue.Base.{
  ℕ, ◌≡◌, refl, true, none, some, [], ◌∷◌, codes, ok, fault, use_after_free, ◌>>=◌, arith, find,
  strcase_eq, ◌==◌,
}
use disqueue.Auth.{same_bytes}
use disqueue.Protocol.{
  protocol_encode_item, protocol_create_success, key_key, value_key, success_key, message_key,
  payload_key,
}
use disqueue.Queue.State.{Store, item_matches}
use disqueue.Queue.Item.{load}
use disqueue.Queue.Ops.{queue_wait, queue_peek, remove_item, may_match}
use disqueue.Queue.First.{detach}
use disqueue.Manager.Uuid.{sample, queue_get_uuid, hex_digits, hex_digit, htonl, htons, load_le}
use disqueue.Manager.Wants.{
  manager_queue_want_close, load_want, remove_want, manager_queue_want_remove,
}
use disqueue.Manager.Wants.Cancel.{Cancels}
use disqueue.World.{
  text_frame, World, load_connection, store_connection, focus_world, unfocus_world,
}
use disqueue.Connection.Wait.{connection_ws_callback_close, answer, connection_queue_callback_wait_}
use disqueue.Connection.Wait.Answer.{Sends, answer-Sends}
use disqueue.Connection.Wait.Delivery.{queue_wait-double_free, connection_ws_callback_close-answer}
use disqueue.Connection.Http.{
  Evhttp, post, Request, ConnectionParams, connection_http_read_, connection_http_authenticated,
  connection_ws_authenticated,
}
use disqueue.Connection.Http.Handlers.{
  Answer, connection_http_callback_list_, connection_http_callback_take,
  connection_http_callback_peek, connection_http_callback_put, connection_http_callback_info_,
  connection_http_callback_delete_,
}
use disqueue.Connection.Http.Guards.{
  Reaches, Misses, missing, missing_text, proceed, with_queue-404, connection_http_authenticated-ws,
}
use disqueue.Connection.Http.Items.{
  Shows, shown, connection_http_callback_take-first, connection_http_callback_peek-found,
}
use disqueue.Connection.Http.Listing.{connection_http_callback_list_-with_names}
use disqueue.Connection.Http.Registered.{
  Without, Acknowledges, connection_http_callback_delete_-unknown,
  connection_http_callback_delete_-known,
}
use disqueue.Ws.{with_frame}
use disqueue.Tests.Data.{
  plaintext, unread, no_auths, element, empty_array, open_connection, apple, item_of, keyed_item,
  stocked, stocked-Counts, want, stocked_queue, registry, no_queues, documents, Document, member,
  null_member, empty_object, text, truth, Form, form, form_find, forms, outside, plenty, world,
}
use disqueue.Tests.Registry.{sample-IsUuid, platform-HasMemory}

abbrev stocked_world : Store ℕ World
stocked_world = record { queue = stocked; detached = []; next = 4; ext = world }

queue_wait-double_free_example :
    queue_wait (connection_queue_callback_wait_ documents outside) (some apple) 3 true stocked_world
    ≡ (answer documents outside 3 (ok (detach keyed_item)) world >>= λ w. fault use_after_free)
unfolding item_matches strcase_eq find
queue_wait-double_free_example =
    queue_wait-double_free documents outside (some apple) 3 true stocked_world keyed_item
      (item_of 0 none ∷ []) [] stocked-Counts (omega arith) refl (refl, tt) refl refl refl refl

connection_ws_callback_close-answer_example :
    answer documents outside 3 (ok keyed_item) (connection_ws_callback_close 7 world)
    ≡ ok (record world {
      manager = record registry {
        wants = remove_want 3 (manager_queue_want_close 7 registry).wants;
      };
    })
unfolding load_want find
connection_ws_callback_close-answer_example =
    connection_ws_callback_close-answer documents outside 7 3 want (ok keyed_item) world refl refl

abbrev pub request : Request documents outside forms
request = record { command = post; headers = form none none none; body = queue_get_uuid 4 sample }

abbrev params : Form
params = form (some (queue_get_uuid 4 sample)) none (some (codes "v"))

request-Reaches : Reaches documents outside plenty forms request world params stocked_queue
unfolding connection_http_read_ form_find same_bytes find strcase_eq queue_get_uuid hex_digits
    hex_digit htonl htons load_le
request-Reaches = record {
  is_read = refl;
  name = queue_get_uuid 4 sample;
  has_name = refl;
  name_sized = refl;
  name_found = refl;
  located = refl;
}

abbrev empty_world : World
empty_world = record { manager = no_queues; connections = [] }

request-Misses : Misses documents outside plenty forms request empty_world
unfolding connection_http_read_ form_find same_bytes find queue_get_uuid hex_digits
request-Misses = record {
  params = params;
  is_read = refl;
  name = queue_get_uuid 4 sample;
  has_name = refl;
  name_sized = refl;
  name_missing = refl;
}

with_queue-404_example :
    let answer : Answer documents outside plenty forms = ok (
      missing documents outside plenty forms (missing_text documents outside plenty forms),
      empty_world,
    ) in
    (connection_http_callback_take documents outside plenty forms request empty_world ≡ answer)
    × (connection_http_callback_peek documents outside plenty forms request empty_world ≡ answer)
    × (connection_http_callback_put documents outside plenty forms request empty_world ≡ answer)
    × (connection_http_callback_info_ documents outside plenty forms request empty_world ≡ answer)
with_queue-404_example =
    with_queue-404 documents outside plenty forms request empty_world request-Misses

abbrev guarded : ConnectionParams documents outside forms
guarded = record {
  auth = plaintext;
  realm = codes "r";
  cb = connection_http_callback_take documents outside plenty forms;
}

connection_http_authenticated-ws_example :
    connection_http_authenticated documents outside forms plenty unread guarded request world
      no_auths
    ≡ (connection_ws_authenticated documents outside forms plenty unread guarded request no_auths
        >>= proceed documents outside plenty forms guarded request world)
connection_http_authenticated-ws_example =
    connection_http_authenticated-ws documents outside plenty forms unread guarded request world
      no_auths

-- What is sent for an item without a key.
abbrev item_document : Document
item_document = member (null_member empty_object key_key) value_key (text (codes "v"))

abbrev success : Document
success = member (null_member empty_object message_key) success_key (truth true)

first-Shows : Shows documents outside plenty forms (item_of 0 none) (codes "{}")
unfolding protocol_encode_item protocol_create_success
first-Shows = record {
  object = item_document;
  response = member success payload_key item_document;
  encoded = refl;
  wrapped = refl;
  printed = refl;
}

taken-Shows : Shows documents outside plenty forms (detach (item_of 0 none)) (codes "{}")
unfolding protocol_encode_item protocol_create_success
taken-Shows = record {
  object = item_document;
  response = member success payload_key item_document;
  encoded = refl;
  wrapped = refl;
  printed = refl;
}

connection_http_callback_take-first_example :
    connection_http_callback_take documents outside plenty forms request world
    ≡ ok (
      shown documents outside plenty forms (codes "{}"),
      unfocus_world 2 (record (focus_world stocked_queue world) {
        queue = remove_item (item_of 0 none) (keyed_item ∷ []) stocked;
      }),
    )
unfolding item_matches form_find same_bytes
connection_http_callback_take-first_example =
    connection_http_callback_take-first documents outside plenty forms request world params
      stocked_queue (item_of 0 none) [] (keyed_item ∷ []) (codes "{}") request-Reaches
      stocked-Counts (omega arith) refl tt refl refl taken-Shows

connection_http_callback_peek-found_example :
    connection_http_callback_peek documents outside plenty forms request world
    ≡ ok (shown documents outside plenty forms (codes "{}"), world)
unfolding queue_peek may_match item_matches form_find same_bytes load find
connection_http_callback_peek-found_example =
    connection_http_callback_peek-found documents outside plenty forms request world params
      stocked_queue (item_of 0 none) (codes "{}") request-Reaches refl refl refl first-Shows

acknowledged : Acknowledges documents outside plenty forms (codes "{}")
unfolding protocol_create_success
acknowledged = record { response = success; wrapped = refl; printed = refl }

connection_http_callback_delete_-unknown_example :
    connection_http_callback_delete_ documents outside plenty forms request empty_world
    ≡ ok (
      shown documents outside plenty forms (codes "{}"),
      record empty_world { manager = record (manager_queue_want_remove 0 no_queues) { next = 1 } },
    )
unfolding connection_http_read_ form_find same_bytes find
connection_http_callback_delete_-unknown_example =
    connection_http_callback_delete_-unknown documents outside plenty forms request empty_world
      params sample (codes "{}") refl refl refl (platform-HasMemory 4) sample-IsUuid refl tt
      acknowledged

connection_http_callback_delete_-known_example :
    (w' : World) × (connection_http_callback_delete_ documents outside plenty forms request world
      ≡ ok (shown documents outside plenty forms (codes "{}"), w'))
    × Without stocked_queue registry.queues w'.manager.queues
    × Cancels (λ x. x.queue == 2) registry w'.manager
    × (w'.manager.detached ≡ [])
    × (w'.connections ≡ world.connections)
unfolding find
connection_http_callback_delete_-known_example =
    connection_http_callback_delete_-known documents outside plenty forms request world params
      stocked_queue (codes "{}") request-Reaches stocked-Counts ((refl, refl), ((refl, refl), tt))
      acknowledged

-- A form with a key that no item has, and without a value.
abbrev keyed_forms : Evhttp
keyed_forms = record {
  Params = Form;
  parse_query = λ body. some (form (some body) (some (codes "pear")) none);
  find_header = form_find;
}

abbrev keyed_request : Request documents outside keyed_forms
keyed_request = record {
  command = post;
  headers = form none none none;
  body = queue_get_uuid 4 sample;
}

abbrev keyed_params : Form
keyed_params = form (some (queue_get_uuid 4 sample)) (some (codes "pear")) none

keyed-Reaches :
    Reaches documents outside plenty keyed_forms keyed_request world keyed_params stocked_queue
unfolding connection_http_read_ form_find same_bytes find strcase_eq queue_get_uuid hex_digits
    hex_digit htonl htons load_le
keyed-Reaches = record {
  is_read = refl;
  name = queue_get_uuid 4 sample;
  has_name = refl;
  name_sized = refl;
  name_found = refl;
  located = refl;
}

-- What is sent to the want for the item with a key.
abbrev keyed_document : Document
keyed_document = member (member empty_object key_key (text apple)) value_key (text (codes "v"))

keyed-Sends : Sends documents outside want keyed_item (codes "{}") world
unfolding protocol_encode_item protocol_create_success load_connection find
keyed-Sends = record {
  calls = λ n. refl;
  detail = keyed_document;
  encoded = refl;
  response =
      member success payload_key (
        member (member empty_object (codes "id") (text (codes "w"))) (codes "item") keyed_document);
  wrapped = refl;
  printed = refl;
  connection = open_connection;
  is_open = refl;
  is_active = refl;
  accepted = record { queued = refl; sent = refl; is_open = refl };
}

answer-Sends_example :
    answer documents outside 3 (ok keyed_item) world
    ≡ ok (record world {
      manager = record registry { wants = remove_want 3 registry.wants };
      connections = store_connection 7 (with_frame (text_frame (codes "{}"))) world.connections;
    })
unfolding load_want find
answer-Sends_example =
    answer-Sends documents outside 3 want keyed_item (codes "{}") world refl refl keyed-Sends

-- The list of the one queue of the registry.
abbrev listing : Document
listing = member success payload_key (element empty_array (text (queue_get_uuid 4 sample)))

connection_http_callback_list_-with_names_example :
    connection_http_callback_list_ documents outside plenty forms request world
    ≡ ok (shown documents outside plenty forms (codes "{}"), world)
unfolding connection_http_read_ protocol_create_success
connection_http_callback_list_-with_names_example =
    connection_http_callback_list_-with_names documents outside plenty forms request world params
      listing (codes "{}") refl (λ k. refl) refl refl
