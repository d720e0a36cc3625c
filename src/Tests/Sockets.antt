-- ===== src/Tests/Sockets.antt =====
-- The theorems on src/ws.c.
use disqueue.Base.{
  ℕ, negsuc, arith, ◌≡◌, ◌≢◌, refl, true, false, Option, none, some, List, [], ◌∷◌, Bytes, codes,
  if◌then◌else◌, ok, fault, use_after_free, ◌>>=◌, find, strcase_eq, tolower,
}
use disqueue.Auth.{same_bytes}
use disqueue.Manager.Wants.{load_want}
use disqueue.World.{text_frame, store_connection, Connection, World, load_connection}
use disqueue.Connection.Wait.{
  answer, connection_ws_callback_wait, connection_ws_read_, json_get_string, connection_ws_error_,
  connection_ws_json_, text_of,
}
use disqueue.Connection.Http.{Evhttp, get, Request}
use disqueue.Ws.{
  with_frame, evws_connection_send, evws_connection_send_, evws_connection_write_,
  remove_connection, eof, error, evws_connection_event_cb_,
}
use disqueue.Ws.Callbacks.{evws_wslay_recv_callback_, evws_wslay_recv_callback_-IsSsize}
use disqueue.Ws.Messages.{SameMessages}
use disqueue.Ws.Freed.{evws_connection_read_cb_-SameMessages}
use disqueue.Ws.Receive.{
  Opcodes, Received, evws_connection_read_cb_, received, evws_wslay_on_msg_callback_,
  evws_message_new_, evws_message_get_buffer, evws_message_free, is_owned, load_message,
  remove_message,
}
use disqueue.Protocol.{protocol_create_failure, protocol_create_base}
use disqueue.Ws.Header.{
  header_contains, header_of, has_word, starts, header_contains-header_of, strtok, skip_spaces,
  any_token,
}
use disqueue.Ws.Gone.{IsCalm, evws_connection_event_cb_-IsCalm}
use disqueue.Ws.Dangling.{evws_connection_event_cb_-dangling}
use disqueue.Ws.Upgrade.{evws_upgrade_http_cb_}
use disqueue.Ws.Upgrade.Opening.{Opens, evws_upgrade_http_cb_-Opens}
use disqueue.Tests.Data.{
  unread, no_auths, document_get, document_string, documents, keyed_item, outside, plenty, registry,
  want, world, open_connection,
}
use disqueue.Tests.Startup.{handshake}

abbrev words : List Bytes
words = codes "te" ∷ codes "up" ∷ []

header_contains-header_of_example :
    header_contains (header_of words) (codes "UP") ≡ has_word words (codes "UP")
header_contains-header_of_example = header_contains-header_of words (codes "UP") (
  starts b't' (codes "e") refl (refl, (refl, tt)),
  (starts b'u' (codes "p") refl (refl, (refl, tt)), tt),
)

-- A space behind a word hides it.
spaced : header_contains (codes "up ,te") (codes "up") ≡ false
unfolding header_contains strtok skip_spaces any_token strcase_eq tolower
spaced = refl

evws_connection_event_cb_-IsCalm_example :
    (w' : World) × (evws_connection_event_cb_ outside.wire error 7 world ≡ ok w')
    × IsCalm 7 w'
    × ((b : ℕ) → b ≢ 7 → load_connection b w'.connections ≡ load_connection b world.connections)
unfolding load_connection find
evws_connection_event_cb_-IsCalm_example =
    evws_connection_event_cb_-IsCalm outside.wire error 7 world open_connection refl refl

abbrev closed_connection : Connection
closed_connection = record open_connection { active = false }

abbrev closed_world : World
closed_world = record { manager = registry; connections = closed_connection ∷ [] }

evws_connection_event_cb_-dangling_example :
    (evws_connection_event_cb_ outside.wire eof 7 closed_world
      >>= answer documents outside 3 (ok keyed_item))
    ≡ fault use_after_free
unfolding load_connection find remove_connection load_want
evws_connection_event_cb_-dangling_example =
    evws_connection_event_cb_-dangling documents outside outside.wire 7 3 closed_world
      closed_connection want keyed_item refl refl refl refl refl refl

-- A libevent whose headers are a list.
unfoldable header_in : List (Bytes × Bytes) → Bytes → Option Bytes
unfolding same_bytes
header_in [] k = none
header_in ((name, value) ∷ rest) k =
    let later = header_in rest k in if same_bytes name k then some value else later

abbrev headers : Evhttp
headers = record {
  Params = List (Bytes × Bytes);
  parse_query = λ body. none;
  find_header = header_in;
}

abbrev upgrading : Request documents outside headers
upgrading = record {
  command = get;
  headers =
      (codes "Upgrade", codes "websocket")
      ∷ (codes "Connection", codes "Upgrade")
      ∷ (codes "Sec-WebSocket-Version", codes "13")
      ∷ (codes "Sec-WebSocket-Key", codes "k")
      ∷ [];
  body = [];
}

evws_upgrade_http_cb_-Opens_example :
    Opens documents outside plenty headers unread none handshake upgrading world no_auths (
      evws_upgrade_http_cb_ documents outside plenty headers unread none handshake upgrading world
        no_auths)
evws_upgrade_http_cb_-Opens_example =
    evws_upgrade_http_cb_-Opens documents outside plenty headers unread none handshake upgrading
      world no_auths

abbrev opcodes : Opcodes
opcodes = record { text_frame = 1; binary_frame = 2; is_ctrl_frame = λ n. false }

-- A message that names no identifier, and is told so.
abbrev hello : Received documents opcodes
hello = record { opcode = 1; msg = codes "hi"; memory = true; out = outside }

abbrev told_world : World
told_world = record {
  manager = record registry { next = 5 };
  connections = with_frame (text_frame (codes "{}")) open_connection ∷ [];
}

evws_connection_read_cb_-SameMessages_example : SameMessages world told_world
unfolding load_connection find evws_connection_read_cb_ received evws_wslay_on_msg_callback_
    evws_message_new_ evws_message_get_buffer evws_message_free is_owned load_message remove_message
    store_connection connection_ws_callback_wait connection_ws_read_ json_get_string
    connection_ws_error_ connection_ws_json_ text_of evws_connection_send evws_connection_send_
    evws_connection_write_ document_get document_string protocol_create_failure protocol_create_base
evws_connection_read_cb_-SameMessages_example =
    evws_connection_read_cb_-SameMessages documents opcodes outside.wire true 7 (hello ∷ []) world
      told_world refl refl

evws_wslay_recv_callback_-IsSsize_example :
    evws_wslay_recv_callback_ (negsuc 0) ≡ record { returned = negsuc 0; failure = false }
evws_wslay_recv_callback_-IsSsize_example =
    evws_wslay_recv_callback_-IsSsize (negsuc 0) (omega arith)
