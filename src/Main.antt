-- ===== src/Main.antt =====
-- src/main.c: the command line, and the servers that are set up before the event loop starts.
-- The event loop itself, getopt, libevent and OpenSSL are parameters; what is printed is left out.
pub mod Startup
pub mod Ending
pub mod Keys
pub mod Access
pub mod Forever
use disqueue.Base.{
  ℕ, zero, suc, Bool, true, false, not, ◌&&◌, ◌||◌, Option, none, some, List, [], ◌∷◌, Bytes,
  if◌then◌else◌, Result, ok, fault, ◌>>=◌,
}
use disqueue.Json.{Calls}
use disqueue.Auth.Methods.{Auth}
use disqueue.Config.{
  ConfigJson, ConfigServer, ConfigContext, config_iter_server_begin, config_iter_server_next,
  config_server_get_hostname, config_server_get_port, config_server_get_certificate,
  config_server_get_privatekey, config_server_has_security, config_server_get_authentication,
  config_server_get_realm,
}
use disqueue.Config.Load.{config_load_file}
use disqueue.Ssl.{
  Openssl, SslContext, ssl_setup, ssl_destroy, ssl_load_certificate, ssl_load_privatekey,
}
use disqueue.Manager.State.{Manager, manager_startup}
use disqueue.Manager.Shutdown.{manager_shutdown}
use disqueue.Routes.{Listener, evws_new, manager_add_server}

-- What the libraries answer while one server is set up.
pub record Setup : Type 0 where
  pub http : Option ℕ  -- evhttp_new
  pub bind : Bytes → ℕ → Bool  -- evhttp_bind_socket
  pub ws : Option ℕ  -- calloc under evws_new
  pub openssl : Openssl
  pub add : Calls  -- the calls of calloc under manager_add_server

-- The global variables of the process, and its listeners.
pub record Process : Type 0 where
  pub config : ConfigContext
  pub ssl : SslContext
  pub manager : Manager
  pub listeners : List Listener

abbrev pub and_then : (SslContext → Bool × SslContext) → Bool × SslContext → Bool × SslContext
and_then next (false, c) = (false, c)
and_then next (true, c) = next c

abbrev pub load_keys : Openssl → Option Bytes → Option Bytes → SslContext → Bool × SslContext
load_keys o (some certificate) (some privatekey) c =
    and_then (ssl_load_privatekey o privatekey)
      (and_then (ssl_load_certificate o certificate) (ssl_setup o c))
load_keys o (some certificate) none c = (true, c)
load_keys o none privatekey c = (true, c)

-- `if (config_server_has_security(server)) { … }`.
unfoldable pub secure : Openssl → ConfigServer → SslContext → Bool × SslContext
unfolding ssl_setup ssl_load_certificate ssl_load_privatekey
secure o server c =
    load_keys o (config_server_get_certificate server) (config_server_get_privatekey server) c

unfoldable pub ssl_use : Listener → Listener
ssl_use l = record l { tls = true }

abbrev pub listener_for : ConfigServer → Listener → Listener
listener_for server l = if config_server_has_security server then ssl_use l else l

-- The path under `error`; `http` and `ws` go with it.
abbrev pub failed : Process → Bool × Process
failed p = (false, record p { ssl = ssl_destroy p.ssl })

abbrev pub added : Process → Bool × Listener × Manager → Bool × Process
added p (false, l, m) = failed p
added p (true, l, m) = (true, record p { manager = m; listeners = l ∷ p.listeners })

abbrev pub after_secure :
    Setup → ConfigServer → Listener → Process → Bool × SslContext → Result (Bool × Process)
after_secure o server l p (false, c) = ok (failed (record p { ssl = c }))
after_secure o server l p (true, c) = do
  auth ← config_server_get_authentication server
  realm ← config_server_get_realm server
  ok (
      added (record p { ssl = c })
        (manager_add_server o.add (some auth) (some realm) (listener_for server l) p.manager))

abbrev pub after_ws : Setup → ConfigServer → Option Listener → Process → Result (Bool × Process)
after_ws o server none p = ok (failed p)
after_ws o server (some l) p = after_secure o server l p (secure o.openssl server p.ssl)

abbrev pub after_http : Setup → ConfigServer → Option ℕ → Process → Result (Bool × Process)
after_http o server none p = ok (failed p)
after_http o server (some http) p =
    if o.bind (config_server_get_hostname server) (config_server_get_port server)
    then after_ws o server (evws_new o.ws http) p
    else ok (failed p)

unfoldable pub create_server : Setup → ConfigServer → Process → Result (Bool × Process)
unfolding secure ssl_destroy manager_add_server config_server_get_authentication
    config_server_get_realm
create_server o server p = after_http o server o.http p

-- What getopt returns, with `optarg` for `c`; any other answer is `?`.
pub data GetOpt : Type 0 where
  c_file : Bytes → GetOpt
  h_help : GetOpt
  unknown : GetOpt

-- `config_file` and `show_help` after the loop over the arguments.
unfoldable pub parse_options : List GetOpt → Option Bytes → Bool → Option Bytes × Bool
parse_options [] config_file show_help = (config_file, show_help)
parse_options (c_file f ∷ os) config_file show_help = parse_options os (some f) show_help
parse_options (h_help ∷ os) config_file show_help = parse_options os config_file true
parse_options (unknown ∷ os) config_file show_help = parse_options os config_file true

abbrev pub einval : ℕ
einval = 22

-- How main ends, or that it is in the event loop.
pub data Run : Type 0 where
  exits : ℕ → Run
  serving : Process → Run

abbrev pub with_config : Process → ConfigContext → Process
with_config p c = record p { config = c }

-- The loop over the servers; `none` means that it still runs when the fuel is used up.
abbrev pub created : (Process → Option (Result Run)) → Result (Bool × Process) → Option (Result Run)
created next (fault e) = some (fault e)
created next (ok (false, p)) = some (ok (exits 1))
created next (ok (true, p)) = next p

abbrev pub next_server :
    (ConfigServer → Process → Option (Result Run))
    → Process
    → Option ConfigServer × ConfigContext
    → Option (Result Run)
next_server go p (none, c) = some (ok (serving (with_config p c)))
next_server go p (some server, c) = go server (with_config p c)

unfoldable pub create_servers : ℕ → (ℕ → Setup) → Process → Option (Result Run)
unfolding create_server config_iter_server_next
create_servers zero o p = none
create_servers (suc fuel) o p =
    next_server
      (λ server q. created (create_servers fuel (λ n. o (suc n))) (create_server (o 0) server q)) p
      (config_iter_server_next p.config)

-- From the return of command_line on. `base` is whether event_base_new succeeds.
abbrev pub begun : ℕ → Bool → (ℕ → Setup) → Process → Bool × ConfigContext → Option (Result Run)
begun fuel base o p (false, c) = some (ok (exits 1))
begun fuel base o p (true, c) =
    if base
    then create_servers fuel o (record p { config = c; manager = manager_startup p.manager })
    else some (ok (exits 1))

module _ (j : ConfigJson) where
  -- An exit code, or the context with which main goes on.
  pub data CommandLine : Type 0 where
    returns : ℕ → CommandLine
    goes_on : ConfigContext → CommandLine

  abbrev pub loaded : Bool × ConfigContext → CommandLine
  loaded (false, c) = returns einval
  loaded (true, c) = goes_on c

  abbrev pub with_file :
      (ℕ → Calls) → Calls → Option Bytes × Bool → ConfigContext → Result CommandLine
  with_file mem_a mem_s (config_file, true) c = ok (returns 0)
  with_file mem_a mem_s (none, false) c = ok (goes_on c)
  with_file mem_a mem_s (some f, false) c = do r ← config_load_file j mem_a mem_s f c; ok (loaded r)

  unfoldable pub command_line :
      (ℕ → Calls) → Calls → List GetOpt → ConfigContext → Result CommandLine
  unfolding parse_options config_load_file
  command_line mem_a mem_s os c = with_file mem_a mem_s (parse_options os none false) c

  abbrev pub parsed : ℕ → Bool → (ℕ → Setup) → Process → Result CommandLine → Option (Result Run)
  parsed fuel base o p (fault e) = some (fault e)
  parsed fuel base o p (ok (returns n)) = some (ok (exits n))
  parsed fuel base o p (ok (goes_on c)) = begun fuel base o p (config_iter_server_begin c)

  -- main, up to the call of event_base_dispatch.
  unfoldable pub main :
      ℕ → (ℕ → Calls) → Calls → Bool → (ℕ → Setup) → List GetOpt → Process → Option (Result Run)
  unfolding command_line create_servers config_iter_server_begin manager_startup
  main fuel mem_a mem_s base o os p = parsed fuel base o p (command_line mem_a mem_s os p.config)

-- From the return of event_base_dispatch on, with the manager that the callbacks leave: the exit
-- code. `none` means that manager_shutdown still runs when the fuel is used up.
abbrev pub shut_down : Option (Result Manager) → Option (Result ℕ)
shut_down none = none
shut_down (some r) = some (r >>= λ m. ok 0)

unfoldable pub main_dispatched : ℕ → Bool → Manager → Option (Result ℕ)
unfolding manager_shutdown
main_dispatched fuel succeeded m =
    if succeeded then shut_down (manager_shutdown fuel m) else some (ok 1)
