-- ===== src/Config.antt =====
-- src/config.c: the configuration, read from a JSON file. json-c is a parameter; a text that it lends
-- is a value here, since the object that it stands in is kept until config_free.
pub mod Entries
pub mod Load
pub mod Bounds
use disqueue.Base.{
  ℕ, zero, suc, ◌+◌, Bool, true, false, not, ◌&&◌, ◌||◌, Option, none, some, List, [], ◌∷◌, Bytes,
  codes, strcase_eq, ltb, if◌then◌else◌, find, ℤ, pos, negsuc, Result, ok, fault, null_dereference,
  ◌>>=◌, is_some,
}
use disqueue.Json.{Calls}
use disqueue.Auth.Methods.{Auth}

-- json-c, as config.c calls it. A `json_object *` that is NULL stands for the value null.
pub record ConfigJson : Type 1 where
  pub Json : Type 0
  pub from_file : Bytes → Option Json  -- json_object_from_file
  pub object_get : Json → Bytes → Option Json  -- json_object_object_get
  pub members : Json → Option (List (Bytes × Option Json))  -- the table behind foreach, if there is one
  pub elements : Json → Option (List (Option Json))  -- the array behind get_idx, if it is one
  pub pointer_get : Option Json → Bytes → Option (Option Json)  -- json_pointer_get
  pub get_string : Option Json → Option Bytes  -- json_object_get_string
  pub get_int : Option Json → ℤ  -- json_object_get_int

-- `auth` is as it stands once the configuration is loaded.
pub record ConfigAuthentication : Type 0 where
  pub name : Bytes
  pub type : Bytes
  pub file : Bytes
  pub auth : Auth

pub record ConfigServer : Type 0 where
  pub hostname : Bytes
  pub port : ℕ
  pub certificate : Option Bytes
  pub privatekey : Option Bytes
  pub authentication : Option ConfigAuthentication

-- `current_iter` is the list from the node on that it points to, and [] where it is NULL.
pub record ConfigContext : Type 0 where
  pub servers : List ConfigServer
  pub authentications : List ConfigAuthentication
  pub current_iter : List ConfigServer

abbrev pub config_unset : ConfigContext
config_unset = record { servers = []; authentications = []; current_iter = [] }

abbrev pub is_node {ℓ} : {A : Type ℓ} → List A → Bool
is_node [] = false
is_node (_ ∷ _) = true

unfoldable pub config_iter_server_begin : ConfigContext → Bool × ConfigContext
config_iter_server_begin c =
    if is_node c.current_iter
    then (false, c)
    else (is_node c.servers, record c { current_iter = c.servers })

unfoldable pub config_iter_server_close : ConfigContext → ConfigContext
config_iter_server_close c = record c { current_iter = [] }

abbrev pub next_from : List ConfigServer → ConfigContext → Option ConfigServer × ConfigContext
next_from [] c = (none, c)
next_from (iter ∷ next) c = (some iter, record c { current_iter = next })

unfoldable pub config_iter_server_next : ConfigContext → Option ConfigServer × ConfigContext
config_iter_server_next c = next_from c.current_iter c

abbrev pub config_server_get_hostname : ConfigServer → Bytes
config_server_get_hostname server = server.hostname

abbrev pub config_server_get_port : ConfigServer → ℕ
config_server_get_port server = server.port

abbrev pub config_server_get_certificate : ConfigServer → Option Bytes
config_server_get_certificate server = server.certificate

abbrev pub config_server_get_privatekey : ConfigServer → Option Bytes
config_server_get_privatekey server = server.privatekey

unfoldable pub config_server_has_security : ConfigServer → Bool
config_server_has_security server = is_some server.certificate && is_some server.privatekey

-- `server->authentication` is read without a test.
abbrev pub referred : Option ConfigAuthentication → Result ConfigAuthentication
referred none = fault null_dereference
referred (some a) = ok a

unfoldable pub config_server_get_authentication : ConfigServer → Result Auth
config_server_get_authentication server = do a ← referred server.authentication; ok a.auth

unfoldable pub config_server_get_realm : ConfigServer → Result Bytes
config_server_get_realm server = do a ← referred server.authentication; ok a.name

unfoldable pub config_authentication_get_ :
    Bytes → List ConfigAuthentication → Option ConfigAuthentication
config_authentication_get_ name entries = find (λ a. strcase_eq a.name name) entries
