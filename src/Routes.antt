-- ===== src/Routes.antt =====
-- manager_add_server of src/manager.c: the callbacks that it gives to evhttp and to src/ws.c, and the
-- call of the one that stands at a path.
pub mod Evws
pub mod Guarded
pub use Evws.*
use disqueue.Base.{
  ℕ, suc, ◌+◌, Bool, true, false, Option, none, some, List, [], ◌∷◌, ◌++◌, Bytes, codes,
  if◌then◌else◌, Result, ok, fault, null_dereference,
}
use disqueue.Json.{JsonC, Calls}
use disqueue.Auth.Methods.{Auth, Auths, AuthOutside}
use disqueue.Manager.State.{Manager, Server}
use disqueue.World.{World}
use disqueue.Connection.Wait.{Outside}
use disqueue.Connection.Http.{
  Evhttp, Reply, Memory, Request, Handler, ConnectionParams, connection_http_authenticated,
  with_auths,
}
use disqueue.Connection.Http.Handlers.{
  connection_http_callback_queues, connection_http_callback_queue, connection_http_callback_take,
  connection_http_callback_peek, connection_http_callback_put,
}

-- Route n of the five in the order of the calls of evhttp_set_cb.
abbrev pub routes_of : (ℕ → Endpoint → Route) → List (Bytes × Route)
routes_of r =
    (codes "/queues", r 0 queues)
    ∷ (codes "/queue", r 1 queue)
    ∷ (codes "/take", r 2 take)
    ∷ (codes "/peek", r 3 peek)
    ∷ (codes "/put", r 4 put)
    ∷ []

-- The calls that give an evws its callbacks; `bound` is whether evhttp_set_cb takes the path.
abbrev pub with_callbacks : Bool → Listener → Listener
with_callbacks bound l =
    evws_set_error_cb true
      (evws_set_close_cb true (evws_set_cb true (evws_bind_path bound (codes "/take/ws") l).1))

-- connection_http_auth_callback.
abbrev pub params_of : Bool → Auth → Bytes → Option Params
params_of mem auth realm = if mem then some (record { auth = auth; realm = realm }) else none

-- The callbacks by whether there is an authentication with a realm; calls 1 to 6 are those of
-- connection_http_auth_callback.
abbrev pub with_routes : Calls → Option Auth → Option Bytes → Listener → Listener
with_routes calls (some auth) (some realm) l =
    evws_set_upgrade_cb (some (params_of (calls 6) auth realm)) (record l {
      routes = routes_of (λ n e. authenticated (params_of (calls (suc n)) auth realm) e);
    })
with_routes calls (some auth) none l = record l { routes = routes_of (λ n e. plain e) }
with_routes calls none realm l = record l { routes = routes_of (λ n e. plain e) }

unfoldable pub manager_add_server :
    Calls → Option Auth → Option Bytes → Listener → Manager → Bool × Listener × Manager
manager_add_server calls auth realm l m =
    if calls 0
    then (
      true,
      with_callbacks (calls 7) (with_routes calls auth realm l),
      record m { servers = record { http = l.http; ws = l.ws } ∷ m.servers },
    )
    else (false, l, m)

-- The route at a path; evhttp compares the whole path.
unfoldable pub route_at {ℓ} :
    {R : Type ℓ} → (Bytes → Bytes → Bool) → Bytes → List (Bytes × R) → Option R
route_at same path [] = none
route_at same path ((p, r) ∷ rest) =
    let later = route_at same path rest in if same p path then some r else later

module _ (j : JsonC) (out : Outside) (mem : Memory) (e : Evhttp) where
  abbrev pub endpoint : Endpoint → Handler j out e
  endpoint queues = connection_http_callback_queues j out mem e
  endpoint queue = connection_http_callback_queue j out mem e
  endpoint take = connection_http_callback_take j out mem e
  endpoint peek = connection_http_callback_peek j out mem e
  endpoint put = connection_http_callback_put j out mem e

  abbrev pub connection_params : Params → Endpoint → ConnectionParams j out e
  connection_params p c = record { auth = p.auth; realm = p.realm; cb = endpoint c }

  -- What a callback answers, and the data of the authentications after it.
  abbrev pub Served : Type 0
  Served = Result (Auths × (Reply × World))

  -- connection_http_authenticated reads its params before all else that it does with them.
  abbrev pub serve : AuthOutside → Route → Request j out e → World → Auths → Served
  serve o (plain c) request w s = with_auths j out e s (endpoint c request w)
  serve o (authenticated none c) request w s = fault null_dereference
  serve o (authenticated (some p) c) request w s =
      connection_http_authenticated j out e mem o (connection_params p c) request w s

  abbrev pub served : AuthOutside → Option Route → Request j out e → World → Auths → Option Served
  served o none request w s = none
  served o (some r) request w s = some (serve o r request w s)

  -- What a listener does with a request for a path, if it has a callback for it.
  unfoldable pub dispatch :
      (Bytes → Bytes → Bool)
      → AuthOutside
      → Listener
      → Bytes
      → Request j out e
      → World
      → Auths
      → Option Served
  unfolding route_at connection_http_authenticated
  dispatch same o l path request w s = served o (route_at same path l.routes) request w s
