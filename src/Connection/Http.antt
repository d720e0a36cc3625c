-- ===== src/Connection/Http.antt =====
-- src/connection-http.c: the replies, the guards that the handlers share, and authentication.
-- libevent's parser of a form and its lookup in a list of headers are a parameter.
pub mod Handlers
pub mod Guards
pub mod Items
pub mod Listing
pub mod Registered
use disqueue.Base.{
  ℕ, Bool, true, false, not, ◌&&◌, ◌||◌, Option, none, some, List, [], ◌∷◌, ◌++◌, Bytes, codes,
  ◌==◌, length, if◌then◌else◌, Result, ok, fault, use_after_free, ◌>>=◌,
}
use disqueue.Json.{JsonC}
use disqueue.Auth.Methods.{Auth, Auths, AuthOutside, auth_verify_at}
use disqueue.Protocol.{
  Created, created, failed, protocol_create_success, protocol_create_failure,
  protocol_failure_fallback,
}
use disqueue.Queue.Item.{Alloc}
use disqueue.Manager.State.{Manager, ManagerQueue}
use disqueue.Manager.Registry.{manager_queue_get, uuid_str_len}
use disqueue.World.{World}
use disqueue.Connection.Wait.{Outside}

-- evhttp_parse_query_str, from an empty list, and evhttp_find_header.
pub record Evhttp : Type 1 where
  pub Params : Type 0
  pub parse_query : Bytes → Option Params
  pub find_header : Params → Bytes → Option Bytes

-- EVHTTP_REQ_GET, EVHTTP_REQ_POST, EVHTTP_REQ_DELETE and the commands that no handler names.
pub data Command : Type 0 where
  get post delete other : Command

pub record Reply : Type 0 where
  pub code : ℕ
  pub headers : List (Bytes × Bytes)
  pub body : Bytes

-- Whether malloc serves the handlers: for an item, for the calls to json-c that a handler makes
-- itself, and for the text of a header.
pub record Memory : Type 0 where
  pub item : Alloc
  pub build : ℕ → Bool
  pub header : Bool

abbrev pub http_ok : ℕ
http_ok = 200

abbrev pub http_badrequest : ℕ
http_badrequest = 400

abbrev pub http_notfound : ℕ
http_notfound = 404

abbrev pub http_badmethod : ℕ
http_badmethod = 405

abbrev pub http_internal : ℕ
http_internal = 500

abbrev pub content_type : Bytes × Bytes
content_type = (codes "Content-Type", codes "application/json")

module _ (j : JsonC) (out : Outside) where
  open j use {Json}

  abbrev pub printed : Created j → Option Bytes
  printed (failed n) = none
  printed (created o) = j.print o

  -- `headers` is what was added to the output before; `none` is a text that could not be made.
  abbrev pub reply_of : List (Bytes × Bytes) → ℕ → Option Bytes → Reply
  reply_of headers code none = record {
    code = http_internal;
    headers = headers ++ content_type ∷ [];
    body = protocol_failure_fallback;
  }
  reply_of headers code (some repr) = record {
    code = code;
    headers = headers ++ content_type ∷ [];
    body = repr;
  }

  unfoldable pub connection_http_json_ : List (Bytes × Bytes) → ℕ → Created j → Reply
  connection_http_json_ headers code object = reply_of headers code (printed object)

  unfoldable pub connection_http_error_ : List (Bytes × Bytes) → ℕ → Bytes → Reply
  unfolding connection_http_json_
  connection_http_error_ headers code message =
      connection_http_json_ headers (if code == 0 then http_internal else code)
        (protocol_create_failure j out.failure message)

  -- The payload, if there is one, is released once more where protocol_create_success has done so.
  abbrev pub http_created : Option Json → Created j → Result Reply
  http_created payload (created o) = ok (connection_http_json_ [] http_ok (created o))
  http_created none (failed n) = ok (connection_http_error_ [] 0 (codes "failed to encode payload"))
  http_created (some p) (failed n) = fault use_after_free

  unfoldable pub connection_http_payload_ : Option Json → Result Reply
  unfolding connection_http_json_ connection_http_error_
  connection_http_payload_ payload =
      http_created payload (protocol_create_success j out.success payload)

  -- The queue that a request names, or the error that was sent.
  pub data Validated : Type 0 where
    refused : Reply → World → Validated
    valid : ManagerQueue → World → Validated

  abbrev pub looked_up : Bool → World → Option ManagerQueue × Manager → Validated
  looked_up create_new w (some mq, m) = valid mq (record w { manager = m })
  looked_up true w (none, m) =
      refused (connection_http_error_ [] 0 (codes "failed to create new queue"))
        (record w { manager = m })
  looked_up false w (none, m) =
      refused (connection_http_error_ [] http_notfound (codes "queue does not exist"))
        (record w { manager = m })

  abbrev pub is_invalid : Option Bytes → Bool
  is_invalid none = false
  is_invalid (some name) = not (length name == uuid_str_len)

  -- `name` is what evhttp_find_header finds.
  unfoldable pub connection_http_validate_ : Bool → Option Bytes → World → Validated
  unfolding connection_http_error_
  connection_http_validate_ create_new name w =
      if is_invalid name
      then refused (connection_http_error_ [] http_badrequest (codes "invalid queue id")) w
      else looked_up create_new w (manager_queue_get out.platform name create_new w.manager)

  module _ (e : Evhttp) where
    open e use {Params}

    pub record Request : Type 0 where
      pub command : Command
      pub headers : Params
      pub body : Bytes

    -- `none` where an error is sent.
    unfoldable pub connection_http_read_ : Request → Option Params
    connection_http_read_ request = if out.read then e.parse_query request.body else none

    abbrev pub read_error : Reply
    read_error = connection_http_error_ [] 0 (codes "failed to read post body")

    abbrev pub Handler : Type 0
    Handler = Request → World → Result (Reply × World)

    -- struct connection_params; `auth` points to the object.
    pub record ConnectionParams : Type 0 where
      pub auth : Auth
      pub realm : Bytes
      pub cb : Handler

    unfoldable pub connection_http_auth_callback :
        Bool → Auth → Bytes → Handler → Option ConnectionParams
    connection_http_auth_callback mem auth realm cb =
        if mem then some (record { auth = auth; realm = realm; cb = cb }) else none

    -- The header that is added to the reply.
    unfoldable pub connection_http_auth_required_ : Memory → Bytes → Bytes × Bytes
    connection_http_auth_required_ mem realm =
        if mem.header
        then (codes "WWW-Authenticate", codes "Basic realm=\"" ++ realm ++ codes "\"")
        else (codes "WWW-Authenticate", codes "Basic realm=\"auth\"")

    -- What a callback does, and the data of the authentications beside it.
    abbrev pub with_auths {ℓ} : {A : Type ℓ} → Auths → Result A → Result (Auths × A)
    with_auths s r = do answer ← r; ok (s, answer)

    -- From the answer of auth_verify on.
    abbrev pub admitted :
        ConnectionParams → Request → World → Bool × Auths → Result (Auths × (Reply × World))
    unfolding connection_http_error_
    admitted params request w (false, s) =
        ok (s, (connection_http_error_ [] 403 (codes "authentication failed"), w))
    admitted params request w (true, s) = with_auths s (params.cb request w)

    unfoldable pub connection_http_authenticated :
        Memory
        → AuthOutside
        → ConnectionParams
        → Request
        → World
        → Auths
        → Result (Auths × (Reply × World))
    unfolding connection_http_auth_required_ connection_http_error_ auth_verify_at
    connection_http_authenticated mem o params request w s =
        elim (e.find_header request.headers (codes "Authorization")) [
          | none ↦ ok (
            s,
            (
              connection_http_error_ (connection_http_auth_required_ mem params.realm ∷ []) 401
                  (codes "authentication required"),
              w,
            ),
          )
          | some authstring ↦
              auth_verify_at o authstring params.auth s >>= admitted params request w
        ]

    -- connection_ws_authenticated of src/connection-ws.c: the error that is sent in place of 1.
    abbrev pub ws_admitted : Bool × Auths → Auths × Option Reply
    unfolding connection_http_error_
    ws_admitted (false, s) =
        (s, some (connection_http_error_ [] 403 (codes "authentication failed")))
    ws_admitted (true, s) = (s, none)

    unfoldable pub connection_ws_authenticated :
        Memory → AuthOutside → ConnectionParams → Request → Auths → Result (Auths × Option Reply)
    unfolding connection_http_auth_required_ connection_http_error_ auth_verify_at
    connection_ws_authenticated mem o params request s =
        elim (e.find_header request.headers (codes "Authorization")) [
          | none ↦ ok (
            s,
            some (
                connection_http_error_ (connection_http_auth_required_ mem params.realm ∷ []) 401
                  (codes "authentication required")),
          )
          | some authstring ↦ do
            answer ← auth_verify_at o authstring params.auth s
            ok (ws_admitted answer)
        ]
