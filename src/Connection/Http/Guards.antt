-- ===== src/Connection/Http/Guards.antt =====
-- What stands before the body of the handlers: the request is read, and its queue is found.
use disqueue.Base.{
  ℕ, Bool, false, none, some, List, [], ◌∷◌, Bytes, codes, length, find, ok, ◌≡◌, refl, ap, sym,
  ◌∙◌, inl, inr, Bool-cases, Option-cases, Option, Result, ◌>>=◌, Result-cases,
}
use mathlib.Core.Option.{some-injective}
use disqueue.Json.{JsonC}
use disqueue.Auth.Methods.{Auths, AuthOutside, auth_verify_at}
use disqueue.Protocol.{protocol_create_failure, protocol_failure_fallback}
use disqueue.Manager.State.{ManagerQueue}
use disqueue.Manager.Registry.{manager_queue_get, named, queue_at, set_queue}
use disqueue.World.{World, focus_world, unfocus_world}
use disqueue.Connection.Wait.{Outside}
use disqueue.Connection.Http.{
  Evhttp, Memory, Reply, printed, with_auths, connection_http_error_, connection_http_json_,
  http_notfound, Request, connection_http_read_, connection_http_validate_,
  connection_http_authenticated, connection_ws_authenticated, ConnectionParams,
}
use disqueue.Connection.Http.Handlers.{
  error, with_queue, Answer, connection_http_callback_take, connection_http_callback_peek,
  connection_http_callback_put, connection_http_callback_info_,
}

pub set_queue_same :
    (a : ℕ) (mq : ManagerQueue) (qs : List ManagerQueue)
    → find (queue_at a) qs ≡ some mq
    → set_queue a mq.q qs ≡ qs
unfolding find set_queue
set_queue_same a mq [] h = refl
set_queue_same a mq (x ∷ xs) h = elim (Bool-cases (queue_at a x)) [
  | inl e ↦
      let same : x ≡ mq = some-injective x mq (sym (rw (e, find) refl) ∙ h) in
      rw e (ap (λ y. record x { q = y.q } ∷ xs) (sym same))
  | inr e ↦ rw e (ap (λ ys. x ∷ ys) (set_queue_same a mq xs (sym (rw (e, find) refl) ∙ h)))
]

module _ (j : JsonC) (out : Outside) (mem : Memory) (e : Evhttp) where
  open e use {Params, find_header}

  -- A request that is read, and that names a queue of the registry.
  pub record Reaches (request : Request j out e) (w : World) (params : Params) (mq : ManagerQueue)
      : Type 0 where
    pub is_read : connection_http_read_ j out e request ≡ some params
    pub name : Bytes
    pub has_name : find_header params (codes "name") ≡ some name
    pub name_sized : length name ≡ 36
    pub name_found : find (named name) w.manager.queues ≡ some mq
    pub located : find (queue_at mq.addr) w.manager.queues ≡ some mq

  -- A request that is read, and that names no queue of the registry.
  pub record Misses (request : Request j out e) (w : World) : Type 0 where
    pub params : Params
    pub is_read : connection_http_read_ j out e request ≡ some params
    pub name : Bytes
    pub has_name : find_header params (codes "name") ≡ some name
    pub name_sized : length name ≡ 36
    pub name_missing : find (named name) w.manager.queues ≡ none

  pub unfocus-focus :
      (request : Request j out e) (w : World) (params : Params) (mq : ManagerQueue)
      → Reaches request w params mq
      → unfocus_world mq.addr (focus_world mq w) ≡ w
  unfocus-focus request w params mq r =
      ap (λ qs. record w { manager = record w.manager { queues = qs } })
        (set_queue_same mq.addr mq w.manager.queues r.located)

  pub with_queue-Reaches :
      (create_new : Bool) (body : Params → ManagerQueue → World → Answer j out mem e)
      (request : Request j out e) (w : World) (params : Params) (mq : ManagerQueue)
      → Reaches request w params mq
      → with_queue j out mem e create_new body request w ≡ body params mq w
  unfolding connection_http_validate_ manager_queue_get
  with_queue-Reaches create_new body request w params mq r =
      rw (r.is_read, r.has_name, r.name_sized, r.name_found) refl

  with_queue-Misses :
      (body : Params → ManagerQueue → World → Answer j out mem e) (request : Request j out e)
      (w : World)
      → Misses request w
      → with_queue j out mem e false body request w
        ≡ ok (error j out mem e http_notfound (codes "queue does not exist"), w)
  unfolding connection_http_validate_ manager_queue_get
  with_queue-Misses body request w r = rw (r.is_read, r.has_name, r.name_sized, r.name_missing) refl

  -- What protocol_create_failure makes for a queue that does not exist, if it can.
  abbrev pub missing_text : Option Bytes
  missing_text =
      printed j out (protocol_create_failure j out.failure (codes "queue does not exist"))

  -- The reply for a queue that does not exist, by that text.
  abbrev pub missing : Option Bytes → Reply
  missing none = record {
    code = 500;
    headers = (codes "Content-Type", codes "application/json") ∷ [];
    body = protocol_failure_fallback;
  }
  missing (some text) = record {
    code = 404;
    headers = (codes "Content-Type", codes "application/json") ∷ [];
    body = text;
  }

  error-missing :
      error j out mem e http_notfound (codes "queue does not exist") ≡ missing missing_text
  unfolding connection_http_error_ connection_http_json_
  error-missing = elim (Option-cases missing_text) [ inl n ↦ rw n refl | inr (text, n) ↦ rw n refl ]

  -- Where a request is read and its name, of 36 bytes, is that of no queue, take, peek, put and
  -- info change nothing and answer 404 with the text of the failure, or 500 with the fallback where
  -- that text cannot be made.
  pub with_queue-404 :
      (request : Request j out e) (w : World)
      → Misses request w
      → let answer : Answer j out mem e = ok (missing missing_text, w) in
        (connection_http_callback_take j out mem e request w ≡ answer)
        × (connection_http_callback_peek j out mem e request w ≡ answer)
        × (connection_http_callback_put j out mem e request w ≡ answer)
        × (connection_http_callback_info_ j out mem e request w ≡ answer)
  unfolding connection_http_callback_take connection_http_callback_peek connection_http_callback_put
      connection_http_callback_info_
  with_queue-404 request w r =
      let same = ap (λ reply. ok (reply, w)) error-missing in
      (
        with_queue-Misses _ request w r ∙ same,
        with_queue-Misses _ request w r ∙ same,
        with_queue-Misses _ request w r ∙ same,
        with_queue-Misses _ request w r ∙ same,
      )

  -- What HTTP does once WebSocket would go on: the callback, or the error that was sent.
  abbrev pub proceed :
      ConnectionParams j out e
      → Request j out e
      → World
      → Auths × Option Reply
      → Result (Auths × (Reply × World))
  proceed params request w (s, none) = with_auths j out e s (params.cb request w)
  proceed params request w (s, some reply) = ok (s, (reply, w))

  -- HTTP and WebSocket refuse the same requests with the same reply, after the same change to the
  -- data of the authentication, and both fault where the header cannot be verified; HTTP then
  -- changes nothing else, and a request that WebSocket lets through goes to the callback.
  pub connection_http_authenticated-ws :
      (o : AuthOutside) (params : ConnectionParams j out e) (request : Request j out e) (w : World)
      (s : Auths)
      → connection_http_authenticated j out e mem o params request w s
        ≡ (connection_ws_authenticated j out e mem o params request s >>= proceed params request w)
  unfolding connection_http_authenticated connection_ws_authenticated
  connection_http_authenticated-ws o params request w s =
      elim (Option-cases (find_header request.headers (codes "Authorization"))) [
        | inl n ↦ rw (n, connection_http_authenticated, connection_ws_authenticated) refl
        | inr (text, n) ↦ elim (Result-cases (auth_verify_at o text params.auth s)) [
          | inr (f, v) ↦ rw (n, v, connection_http_authenticated, connection_ws_authenticated) refl
          | inl ((b, s'), v) ↦ elim (Bool-cases b) [
            | inl t ↦ rw (n, v, t, connection_http_authenticated, connection_ws_authenticated) refl
            | inr t ↦ rw (n, v, t, connection_http_authenticated, connection_ws_authenticated) refl
          ]
        ]
      ]
