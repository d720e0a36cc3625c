-- ===== src/Ws/Upgrade.antt =====
-- How src/ws.c turns a request into a connection: evws_upgrade_http_cb_, create_security_key and
-- evws_connection_new_. OpenSSL, atoi and the memory are parameters. A `%s` that prints NULL is
-- taken as defined.
pub mod Opening
use disqueue.Base.{
  ℕ, zero, suc, ◌+◌, ◌*◌, ◌/◌, Bool, true, false, not, ◌&&◌, ◌||◌, Option, none, some, List, [],
  ◌∷◌, ◌++◌, Bytes, codes, length, ltb, ◌==◌, if◌then◌else◌, ℤ, pos, negsuc, Result, ok, fault,
  use_after_free, null_dereference, ◌>>=◌,
}
use disqueue.Json.{JsonC}
use disqueue.Auth.Methods.{Auths, AuthOutside}
use disqueue.World.{Connection, World}
use disqueue.Connection.Wait.{Outside}
use disqueue.Connection.Http.{
  Evhttp, Command, get, Reply, Memory, Request, http_badrequest, http_internal,
  connection_ws_authenticated, with_auths,
}
use disqueue.Routes.{Params, queues, connection_params}
use disqueue.Ws.Header.{header_contains}

-- BIO_f_md with EVP_sha1, BIO_f_base64, and whether strdup gets its memory.
pub record Digest : Type 0 where
  pub sha1 : Bytes → Bytes
  pub base64 : Bytes → Bytes
  pub memory : Bool

-- The version of the request, atoi, the memory of the copies of the headers `Upgrade` and
-- `Connection`, and what evws_connection_new_ calls: calloc, evhttp_connection_take_ownership and
-- wslay_event_context_server_init.
pub record Handshake : Type 0 where
  pub major : ℕ
  pub minor : ℕ
  pub atoi : Bytes → ℤ
  pub upgrade_copied : Bool
  pub connection_copied : Bool
  pub digest : Digest
  pub calloc : Bool
  pub take_ownership : Bool
  pub server_init : Bool

-- REQ_VERSION_BEFORE.
abbrev pub req_version_before : ℕ → ℕ → ℕ → ℕ → Bool
req_version_before major minor major_v minor_v =
    ltb major major_v || major == major_v && ltb minor minor_v

abbrev pub sha_hash_size : ℕ
sha_hash_size = 20

-- The bytes that BIO_read may write of the 29 of `accept_key`.
abbrev pub accept_key_size : ℕ
accept_key_size = (sha_hash_size * 8 + 4) / 6 + 1

abbrev pub security_key : Bytes
security_key = codes "258EAFA5-E914-47DA-95CA-C5AB0DC85B11"

abbrev pub take : ℕ → Bytes → Bytes
take zero bytes = []
take (suc n) [] = []
take (suc n) (b ∷ bytes) = b ∷ take n bytes

-- From the text in base64 on.
abbrev pub read_key : Bool → Bytes → Option Bytes
read_key memory [] = none
read_key memory (b ∷ text) = if memory then some (take accept_key_size (b ∷ text)) else none

unfoldable pub create_security_key : Digest → Bytes → Option Bytes
create_security_key d key =
    let digest = d.sha1 (key ++ security_key) in
    if length digest == sha_hash_size then read_key d.memory (d.base64 digest) else none

abbrev pub connection_new : ℕ → Connection
connection_new a = record { addr = a; active = true; reading = true; outbox = []; messages = [] }

unfoldable pub evws_connection_new_ : Handshake → World → Option Connection
evws_connection_new_ h w =
    if h.calloc && h.take_ownership && h.server_init
    then some (connection_new w.manager.next)
    else none

-- evhttp_send_error without a text of its own.
abbrev pub send_error : List (Bytes × Bytes) → ℕ → Reply
send_error headers code = record { code = code; headers = headers; body = [] }

-- The reply that switches the protocol.
abbrev pub switching : Bytes → Reply
switching key = record {
  code = 101;
  headers =
      (codes "Sec-WebSocket-Accept", key)
      ∷ (codes "Upgrade", codes "websocket")
      ∷ (codes "Connection", codes "Upgrade")
      ∷ [];
  body = [];
}

-- TAILQ_INSERT_TAIL.
abbrev pub insert_connection : Connection → World → World
insert_connection c w = record {
  manager = record w.manager { next = suc w.manager.next };
  connections = w.connections ++ c ∷ [];
}

abbrev pub Upgraded : Type 0
Upgraded = Result (List Reply × World)

-- From the call of evws_connection_new_ on.
abbrev pub switched : Bytes → Option Connection → World → Upgraded
switched key none w = ok (switching key ∷ send_error [] http_internal ∷ [], w)
switched key (some c) w = ok (switching key ∷ [], insert_connection c w)

-- From the call of create_security_key on.
abbrev pub with_key : Handshake → Option Bytes → World → Upgraded
with_key h none w = ok (send_error [] http_internal ∷ [], w)
with_key h (some key) w = switched key (evws_connection_new_ h w) w

-- From the answer of upgradecb on, which may have sent an error.
abbrev pub unless_denied : Handshake → Bytes → Option Reply → World → Upgraded
unless_denied h key (some reply) w = ok (reply ∷ [], w)
unless_denied h key none w = with_key h (create_security_key h.digest key) w

abbrev pub is_13 : ℤ → Bool
is_13 (pos n) = n == 13
is_13 (negsuc n) = false

-- `version_header && atoi(version_header) == 13`.
abbrev pub has_version : Handshake → Option Bytes → Bool
has_version h none = false
has_version h (some version) = is_13 (h.atoi version)

abbrev pub is_get : Command → Bool
is_get Command.get = true
is_get _ = false

-- The text of strdup(NULL) is no text.
abbrev pub to_copy : Option Bytes → Result Bytes
to_copy none = fault null_dereference
to_copy (some text) = ok text

-- The end of the branch for a request that is no upgrade: what fprintf prints has been freed, if
-- there is any.
abbrev pub print_freed : Bool → World → Upgraded
print_freed true w = fault use_after_free
print_freed false w = ok (send_error [] http_badrequest ∷ [], w)

module _ (j : JsonC) (out : Outside) (mem : Memory) (e : Evhttp) where
  open e use {find_header}

  -- `ws->upgradecb` with its argument, `none` where it lets the request pass.
  abbrev pub upgradecb :
      AuthOutside → Option (Option Params) → Request j out e → Auths → Result (Auths × Option Reply)
  upgradecb o none request s = ok (s, none)
  upgradecb o (some none) request s = fault null_dereference
  upgradecb o (some (some p)) request s =
      connection_ws_authenticated j out e mem o (connection_params j out mem e p queues) request s

  -- What becomes of a request, and the data of the authentications after it.
  abbrev pub Shaken : Type 0
  Shaken = Result (Auths × (List Reply × World))

  -- From the lookup of the key on.
  abbrev pub with_request_key :
      AuthOutside
      → Option (Option Params)
      → Handshake
      → Request j out e
      → Option Bytes
      → World
      → Auths
      → Shaken
  with_request_key o cb h request none w s = ok (s, (send_error [] http_badrequest ∷ [], w))
  with_request_key o cb h request (some key) w s = do
    denied ← upgradecb o cb request s
    with_auths j out e denied.0 (unless_denied h key denied.1 w)

  -- From the request line on.
  unfoldable pub shake_hands :
      AuthOutside → Option (Option Params) → Handshake → Request j out e → World → Auths → Shaken
  unfolding connection_ws_authenticated create_security_key evws_connection_new_
  shake_hands o cb h request w s =
      if not (is_get request.command) || req_version_before h.major h.minor 1 1
      then ok (s, (send_error [] http_badrequest ∷ [], w))
      else if not (has_version h (find_header request.headers (codes "Sec-WebSocket-Version")))
      then ok (
        s,
        (send_error ((codes "Sec-WebSocket-Version", codes "13") ∷ []) http_badrequest ∷ [], w),
      )
      else with_request_key o cb h request (find_header request.headers (codes "Sec-WebSocket-Key"))
          w s

  abbrev pub is_upgrade : Handshake → Bytes → Bytes → Bool
  is_upgrade h upgrade connection =
      h.upgrade_copied
      && h.connection_copied
      && header_contains upgrade (codes "websocket")
      && header_contains connection (codes "Upgrade")

  unfoldable pub evws_upgrade_http_cb_ :
      AuthOutside → Option (Option Params) → Handshake → Request j out e → World → Auths → Shaken
  unfolding header_contains shake_hands
  evws_upgrade_http_cb_ o cb h request w s = do
    upgrade ← to_copy (find_header request.headers (codes "Upgrade"))
    connection ← to_copy (find_header request.headers (codes "Connection"))
    if is_upgrade h upgrade connection
        then shake_hands o cb h request w s
        else with_auths j out e s (print_freed (h.upgrade_copied || h.connection_copied) w)
