-- ===== src/Tests/Startup.antt =====
-- The theorems on src/config.c, src/main.c, src/ssl.c and src/manager.c, from a configuration file to
-- the callbacks of a server.
use disqueue.Base.{
  ℕ, ◌≤◌, ◌≡◌, refl, true, Option, none, some, List, [], ◌∷◌, Bytes, codes, if◌then◌else◌, pos,
  fault, null_dereference,
}
use disqueue.Auth.{same_bytes}
use disqueue.Config.{
  ConfigJson, ConfigAuthentication, ConfigServer, ConfigContext, config_unset,
  config_iter_server_begin, config_iter_server_next, config_server_get_authentication,
  config_server_get_realm, config_server_has_security,
}
use disqueue.Config.Entries.{server_from}
use disqueue.Config.Load.{
  config_load_file, load_authentications, load_servers, config_process_server_,
}
use disqueue.Config.Bounds.{IsLoaded, config_load_file-IsLoaded}
use disqueue.Ssl.{Openssl, ssl_unset, ssl_setup, ssl_load_certificate, ssl_load_privatekey}
use disqueue.Manager.State.{manager_startup}
use disqueue.Routes.{Listener, listener_of, manager_add_server}
use disqueue.Ws.Upgrade.{Handshake}
use disqueue.Main.Forever.{main_dispatched-none}
use disqueue.Main.{
  main_dispatched, listener_for, ssl_use, Setup, Process, c_file, secure, create_server,
  create_servers, parse_options, command_line, main,
}
use disqueue.Main.Startup.{Stacked}
use disqueue.Main.Ending.{HasEnded, main-HasEnded}
use disqueue.Main.Access.{Requires, main-Requires}
use disqueue.Main.Keys.{paired, secure-first}
use disqueue.Tests.Data.{
  plaintext, unread, no_auths, documents, forms, outside, plenty, world, no_queues,
}
use disqueue.Tests.Handlers.{request}

-- A configuration file with one server.
pub data Setting : Type 0 where
  file servers server hostname port : Setting

abbrev setting_get : Setting → Bytes → Option Setting
setting_get s k = if same_bytes k (codes "servers") then some servers else none

abbrev setting_at : Option Setting → Bytes → Option (Option Setting)
setting_at s path =
    if same_bytes path (codes "/hostname")
    then some (some hostname)
    else if same_bytes path (codes "/port")
    then some (some port)
    else none

abbrev settings : ConfigJson
settings = record {
  Json = Setting;
  from_file = λ f. some file;
  object_get = setting_get;
  members = λ s. some [];
  elements = λ s. some (some server ∷ []);
  pointer_get = setting_at;
  get_string = λ s. some (codes "h");
  get_int = λ s. pos 80;
}

abbrev plain_server : ConfigServer
plain_server = record {
  hostname = codes "h";
  port = 80;
  certificate = none;
  privatekey = none;
  authentication = none;
}

abbrev configured : List ConfigServer → ConfigContext
configured ss = record { servers = ss; authentications = []; current_iter = [] }

config_load_file-IsLoaded_example : IsLoaded settings (configured (plain_server ∷ []))
unfolding config_load_file load_authentications load_servers config_process_server_ server_from
    same_bytes
config_load_file-IsLoaded_example =
    config_load_file-IsLoaded settings (λ n k. true) (λ n. true) (codes "f") true
      (configured (plain_server ∷ [])) refl

abbrev authentication : ConfigAuthentication
authentication = record {
  name = codes "r";
  type = codes "plaintext";
  file = codes "f";
  auth = plaintext;
}

abbrev secured : Bytes → ConfigServer
secured f = record {
  hostname = codes "h";
  port = 443;
  certificate = some f;
  privatekey = some (codes "k");
  authentication = some authentication;
}

abbrev openssl : Openssl
openssl = record {
  ctx_new = true;
  use_certificate_file = λ c f. true;
  use_privatekey_file = λ c f. true;
  ssl_new = true;
}

abbrev setup : Setup
setup = record {
  http = some 1;
  bind = λ h p. true;
  ws = some 2;
  openssl = openssl;
  add = λ n. true;
}

abbrev at_start : Process
at_start = record {
  config = configured (secured (codes "c") ∷ []);
  ssl = ssl_unset;
  manager = no_queues;
  listeners = [];
}

abbrev first_listener : Listener
first_listener =
    (manager_add_server (λ n. true) (some plaintext) (some (codes "r"))
      (listener_for (secured (codes "c")) (listener_of 1 2)) (manager_startup no_queues)).1

abbrev started : Process
started = record {
  config = configured (secured (codes "c") ∷ []);
  ssl = paired (codes "c") (codes "k");
  manager =
      (manager_add_server (λ n. true) (some plaintext) (some (codes "r"))
        (listener_for (secured (codes "c")) (listener_of 1 2)) (manager_startup no_queues)).2;
  listeners = first_listener ∷ [];
}

-- A handshake with a digest whose text is `x`.
abbrev pub handshake : Handshake
handshake = record {
  major = 1;
  minor = 1;
  atoi = λ s. pos 13;
  upgrade_copied = true;
  connection_copied = true;
  digest = record {
    sha1 = λ s. codes "01234567890123456789";
    base64 = λ s. codes "x";
    memory = true;
  };
  calloc = true;
  take_ownership = true;
  server_init = true;
}

main-Requires_example :
    Stacked
      (Requires documents outside plenty forms same_bytes unread
        (codes "/take")
        handshake
        request
        world
        no_auths)
      started.config.servers
      []
      started.listeners
unfolding main command_line parse_options config_iter_server_begin config_iter_server_next
    create_servers create_server secure ssl_setup ssl_load_certificate ssl_load_privatekey
    config_server_get_authentication config_server_get_realm config_server_has_security ssl_use
main-Requires_example =
    main-Requires documents outside plenty forms same_bytes unread (codes "/take") handshake request
      world no_auths settings 2 (λ n k. true) (λ n. true) true (λ n. setup) [] at_start started refl
      refl

-- A file whose only server has no authentication.
without_authentication :
    main settings 2
      (λ n k. true)
      (λ n. true)
      true
      (λ n. setup)
      (c_file (codes "f") ∷ [])
      (record at_start { config = config_unset })
    ≡ some (fault null_dereference)
unfolding main command_line parse_options config_iter_server_begin config_iter_server_next
    create_servers create_server secure config_server_get_authentication config_load_file
    load_authentications load_servers config_process_server_ server_from same_bytes
without_authentication = refl

main-HasEnded_example :
    (n : ℕ) × ((fuel : ℕ)
      → n ≤ fuel
      → HasEnded (main settings fuel (λ n k. true) (λ n. true) true (λ n. setup) [] at_start))
main-HasEnded_example =
    main-HasEnded settings (λ n k. true) (λ n. true) true (λ n. setup) [] at_start

secure-first_example :
    (paired (codes "c") (codes "k") ≡ paired (codes "c") (codes "k"))
    × (secure openssl (secured (codes "d")) (paired (codes "c") (codes "k"))
        ≡ (true, paired (codes "c") (codes "k")))
unfolding secure ssl_setup ssl_load_certificate ssl_load_privatekey
secure-first_example =
    secure-first openssl openssl (secured (codes "c")) (secured (codes "d")) (codes "c") (codes "k")
      (paired (codes "c") (codes "k")) refl refl refl

main_dispatched-none_example : main_dispatched 100 true started.manager ≡ none
unfolding main command_line parse_options config_iter_server_begin config_iter_server_next
    create_servers create_server secure ssl_setup ssl_load_certificate ssl_load_privatekey
    config_server_get_authentication config_server_get_realm config_server_has_security ssl_use
main_dispatched-none_example =
    main_dispatched-none settings 2 (λ n k. true) (λ n. true) true (λ n. setup) [] at_start started
      started.manager refl refl 100
