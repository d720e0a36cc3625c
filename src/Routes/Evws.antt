-- ===== src/Routes/Evws.antt =====
-- The callbacks of src/ws.c and what an evhttp knows: struct evws, its making and its setters. The one
-- function of the program that each setter is given is a Boolean here: whether it is set.
use disqueue.Base.{ℕ, Bool, true, false, Option, none, some, List, [], ◌∷◌, Bytes, if◌then◌else◌}
use disqueue.Auth.{same_bytes}
use disqueue.Auth.Methods.{Auth}

-- connection_http_callback_queues, _queue, _take, _peek and _put.
pub data Endpoint : Type 0 where
  queues queue take peek put : Endpoint

-- What connection_http_auth_callback keeps; the endpoint is in its `cb`.
pub record Params : Type 0 where
  pub auth : Auth
  pub realm : Bytes

-- A callback of evhttp: with connection_http_authenticated in front of it, or without. Params that
-- are NULL are none.
pub data Route : Type 0 where
  plain : Endpoint → Route
  authenticated : Option Params → Endpoint → Route

-- An evhttp with its evws. `tls` is whether ssl_create_bufferevent is set as its bevcb. `routes` are
-- the paths of evhttp for requests, `ws_paths` those for upgrades, `gencb` is whether every other path
-- upgrades. `datacb`, `opencb`, `errorcb` and `closecb` are whether a function is set; `upgradecb` is
-- none where it is not set.
pub record Listener : Type 0 where
  pub http : ℕ
  pub ws : ℕ
  pub tls : Bool
  pub routes : List (Bytes × Route)
  pub ws_paths : List Bytes
  pub gencb : Bool
  pub datacb : Bool
  pub opencb : Bool
  pub errorcb : Bool
  pub closecb : Bool
  pub upgradecb : Option (Option Params)

abbrev pub listener_of : ℕ → ℕ → Listener
listener_of http ws = record {
  http = http;
  ws = ws;
  tls = false;
  routes = [];
  ws_paths = [];
  gencb = false;
  datacb = false;
  opencb = false;
  errorcb = false;
  closecb = false;
  upgradecb = none;
}

-- The address is the answer of calloc.
abbrev pub evws_new : Option ℕ → ℕ → Option Listener
evws_new none http = none
evws_new (some ws) http = some (listener_of http ws)

abbrev pub evws_bind : Listener → Listener
evws_bind l = record l { gencb = true }

-- `set` is whether evhttp_set_cb takes the path.
abbrev pub evws_bind_path : Bool → Bytes → Listener → Bool × Listener
evws_bind_path set path l =
    (set, record l { ws_paths = if set then path ∷ l.ws_paths else l.ws_paths })

-- The paths without the first that is this one, if there is one: evhttp_del_cb.
unfoldable pub without_path : Bytes → List Bytes → List Bytes
without_path path [] = []
without_path path (p ∷ ps) =
    let rest = without_path path ps in if same_bytes p path then ps else p ∷ rest

abbrev pub evws_unbind_path : Bytes → Listener → Listener
evws_unbind_path path l = record l { ws_paths = without_path path l.ws_paths }

abbrev pub evws_set_cb : Bool → Listener → Listener
evws_set_cb cb l = record l { datacb = cb }

abbrev pub evws_set_open_cb : Bool → Listener → Listener
evws_set_open_cb cb l = record l { opencb = cb }

abbrev pub evws_set_error_cb : Bool → Listener → Listener
evws_set_error_cb cb l = record l { errorcb = cb }

abbrev pub evws_set_close_cb : Bool → Listener → Listener
evws_set_close_cb cb l = record l { closecb = cb }

abbrev pub evws_set_upgrade_cb : Option (Option Params) → Listener → Listener
evws_set_upgrade_cb cb l = record l { upgradecb = cb }
