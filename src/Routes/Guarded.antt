-- ===== src/Routes/Guarded.antt =====
-- With an authentication, no request reaches a handler without a header that is accepted.
use mathlib.Core.Option.{some-injective}
use disqueue.Base.{
  ℕ, Bool, true, false, Option, none, some, List, [], ◌∷◌, Bytes, codes, Result, Fault, ok, fault,
  null_dereference, ◌≡◌, ◌≢◌, refl, sym, ap, subst, ◌∙◌, ◌⊎◌, inl, inr, All, Bool-cases, arith,
}
use disqueue.Json.{JsonC, Calls}
use disqueue.Protocol.{protocol_create_failure}
use disqueue.Auth.Methods.{Auth, Auths, AuthOutside, auth_verify_at}
use disqueue.Manager.State.{Manager}
use disqueue.World.{World}
use disqueue.Connection.Wait.{Outside}
use disqueue.Connection.Http.{
  Evhttp, Reply, Memory, Request, ConnectionParams, connection_http_authenticated,
  connection_http_error_, connection_http_json_, connection_http_auth_required_, reply_of, printed,
  http_ok,
}
use disqueue.Routes.{
  Endpoint, queues, queue, take, peek, put, Route, authenticated, Listener, params_of, with_routes,
  manager_add_server, route_at, connection_params, serve, served, Served, dispatch,
}

route_at-All :
    {R : Type 0} (P : R → Type 0) (same : Bytes → Bytes → Bool) (path : Bytes)
    (rs : List (Bytes × R)) (r : R)
    → All (λ p. P p.1) rs
    → route_at same path rs ≡ some r
    → P r
unfolding route_at
route_at-All P same path [] r h e = cc
route_at-All P same path ((p, x) ∷ rs) r h e = elim (Bool-cases (same p path)) [
  | inl s ↦ subst P (some-injective x r (sym (rw (s, route_at) refl) ∙ e)) h.0
  | inr s ↦ route_at-All P same path rs r h.1 (sym (rw (s, route_at) refl) ∙ e)
]

-- A route with this authentication in front of it, whose params may have got no memory.
abbrev IsGuarded : Auth → Bytes → Route → Type 0
IsGuarded auth realm r =
    (mem : Bool) × ((c : Endpoint) × (r ≡ authenticated (params_of mem auth realm) c))

routes-IsGuarded :
    (calls : Calls) (auth : Auth) (realm : Bytes) (l : Listener)
    → All (λ p. IsGuarded auth realm p.1) (with_routes calls (some auth) (some realm) l).routes
routes-IsGuarded calls auth realm l =
    let guard : (n : ℕ) (c : Endpoint)
        → IsGuarded auth realm (authenticated (params_of (calls n) auth realm) c) =
      λ n c. (calls n, (c, refl)) in
    (guard 1 queues, (guard 2 queue, (guard 3 take, (guard 4 peek, (guard 5 put, tt)))))

module _ (j : JsonC) (out : Outside) (mem : Memory) (e : Evhttp) where
  open e use {find_header}

  -- The request has no header of authorization, or one that the authentication does not accept;
  -- with what becomes of the data of the authentications.
  pub data Rejects (o : AuthOutside) (auth : Auth) (request : Request j out e) (s : Auths)
      (after : Result Auths) : Type 0 where
    no_header :
        find_header request.headers (codes "Authorization") ≡ none
        → after ≡ ok s
        → Rejects o auth request s after
    not_accepted :
        (text : Bytes) (s' : Auths)
        → find_header request.headers (codes "Authorization") ≡ some text
        → auth_verify_at o text auth s ≡ ok (false, s')
        → after ≡ ok s'
        → Rejects o auth request s after
    not_verified :
        (text : Bytes) (f : Fault)
        → find_header request.headers (codes "Authorization") ≡ some text
        → auth_verify_at o text auth s ≡ fault f
        → after ≡ fault f
        → Rejects o auth request s after

  -- An error is sent and the world stays as it is, or the verification breaks.
  pub data IsRefused (w : World) (after : Result Auths) (r : Served j out mem e) : Type 0 where
    answered :
        (s : Auths) (reply : Reply)
        → after ≡ ok s
        → r ≡ ok (s, (reply, w))
        → reply.code ≢ http_ok
        → IsRefused w after r
    broken : (f : Fault) → after ≡ fault f → r ≡ fault f → IsRefused w after r

  reply_of-code :
      (headers : List (Bytes × Bytes)) (code : ℕ) (text : Option Bytes)
      → code ≢ http_ok
      → (reply_of j out headers code text).code ≢ http_ok
  reply_of-code headers code none h = λ d. absurd (omega arith)
  reply_of-code headers code (some t) h = h

  authenticated-IsRefused :
      (o : AuthOutside) (params : ConnectionParams j out e) (request : Request j out e) (w : World)
      (s : Auths) (after : Result Auths)
      → Rejects o params.auth request s after
      → IsRefused w after (connection_http_authenticated j out e mem o params request w s)
  unfolding connection_http_authenticated connection_http_error_ connection_http_json_
  authenticated-IsRefused o params request w s after (no_header n a) =
      let headers = connection_http_auth_required_ j out e mem params.realm ∷ [] in
      let message =
        printed j out (protocol_create_failure j out.failure (codes "authentication required")) in
      answered s (reply_of j out headers 401 message) a (rw (n, connection_http_authenticated) refl)
        (reply_of-code headers 401 message (λ d. absurd (omega arith)))
  authenticated-IsRefused o params request w s after (not_accepted text s' n v a) =
      let message =
        printed j out (protocol_create_failure j out.failure (codes "authentication failed")) in
      answered s' (reply_of j out [] 403 message) a (rw (n, v, connection_http_authenticated) refl)
        (reply_of-code [] 403 message (λ d. absurd (omega arith)))
  authenticated-IsRefused o params request w s after (not_verified text f n v a) =
      broken f a (rw (n, v, connection_http_authenticated) refl)

  serve-IsRefused :
      (o : AuthOutside) (auth : Auth) (realm : Bytes) (alloc : Bool) (c : Endpoint)
      (request : Request j out e) (w : World) (s : Auths) (after : Result Auths)
      → Rejects o auth request s after
      → (serve j out mem e o (authenticated (params_of alloc auth realm) c) request w s
          ≡ fault null_dereference)
        ⊎ IsRefused w after
            (serve j out mem e o (authenticated (params_of alloc auth realm) c) request w s)
  serve-IsRefused o auth realm false c request w s after u = inl refl
  serve-IsRefused o auth realm true c request w s after u = inr (
      authenticated-IsRefused o
        (connection_params j out mem e (record { auth = auth; realm = realm }) c) request w s after
        u)

  served-IsRefused :
      (o : AuthOutside) (auth : Auth) (realm : Bytes) (x : Option Route) (request : Request j out e)
      (w : World) (s : Auths) (after : Result Auths) (r : Served j out mem e)
      → ((y : Route) → x ≡ some y → IsGuarded auth realm y)
      → Rejects o auth request s after
      → served j out mem e o x request w s ≡ some r
      → (r ≡ fault null_dereference) ⊎ IsRefused w after r
  served-IsRefused o auth realm none request w s after r g u d = cc
  served-IsRefused o auth realm (some x) request w s after r g u d =
      let (alloc, (c, k)) = g x refl in
      subst (λ t. (t ≡ fault null_dereference) ⊎ IsRefused w after t)
        (ap (λ y. serve j out mem e o y request w s) (sym k)
          ∙ some-injective (serve j out mem e o x request w s) r d)
        (serve-IsRefused o auth realm alloc c request w s after u)

  -- On a server that was added with an authentication and a realm, a request whose header of
  -- authorization is missing or is not accepted is answered by an error and leaves the world as it
  -- is, at whatever path it reaches a callback, or it breaks as the verification of its header
  -- does; or NULL is dereferenced, where the params of that callback got no memory.
  pub manager_add_server-guarded :
      (calls : Calls) (auth : Auth) (realm : Bytes) (l : Listener) (m : Manager)
      (same : Bytes → Bytes → Bool) (o : AuthOutside) (path : Bytes) (request : Request j out e)
      (w : World) (s : Auths) (after : Result Auths) (r : Served j out mem e)
      → calls 0 ≡ true
      → Rejects o auth request s after
      → dispatch j out mem e same o
          (manager_add_server calls (some auth) (some realm) l m).1
          path
          request
          w
          s
        ≡ some r
      → (r ≡ fault null_dereference) ⊎ IsRefused w after r
  unfolding manager_add_server dispatch
  manager_add_server-guarded calls auth realm l m same o path request w s after r c u d =
      let routes = (with_routes calls (some auth) (some realm) l).routes in
      let q : (manager_add_server calls (some auth) (some realm) l m).1.routes ≡ routes =
        rw (c, manager_add_server) refl in
      served-IsRefused o auth realm (route_at same path routes) request w s after r
        (λ x.
          route_at-All (IsGuarded auth realm) same path routes x
            (routes-IsGuarded calls auth realm l))
        u (ap (λ rs. served j out mem e o (route_at same path rs) request w s) (sym q) ∙ d)
