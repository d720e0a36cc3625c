-- ===== src/Config/Entries.antt =====
-- config_process_server_ and config_process_authentication_ of src/config.c: what they make of one
-- object of the file.
use disqueue.Base.Options.{◌>>=◌}
use disqueue.Base.{
  ℕ, zero, suc, Bool, true, false, Option, none, some, List, Bytes, codes, ltb, if◌then◌else◌, ℤ,
  pos, negsuc,
}
use disqueue.Json.{Calls}
use disqueue.Auth.Methods.{Auth, auth_method_from_string, auth_set_password_file}
use disqueue.Config.{ConfigJson, ConfigAuthentication, ConfigServer, config_authentication_get_}

abbrev pub shrt_max : ℕ
shrt_max = 32767

-- A positive `int` up to SHRT_MAX.
abbrev pub port_of : ℤ → Option ℕ
port_of (negsuc n) = none
port_of (pos zero) = none
port_of (pos (suc n)) = if ltb shrt_max (suc n) then none else some (suc n)

module _ (j : ConfigJson) where
  open j use {Json}

  -- `json_pointer_get(…) || !json_object_get_string(…)`.
  abbrev pub text_of_found : Option (Option Json) → Option Bytes
  text_of_found none = none
  text_of_found (some obj) = j.get_string obj

  abbrev pub text_at : Option Json → Bytes → Option Bytes
  text_at config path = text_of_found (j.pointer_get config path)

  abbrev pub port_of_found : Option (Option Json) → Option ℕ
  port_of_found none = none
  port_of_found (some obj) = port_of (j.get_int obj)

  -- The certificate with the private key; the outer `none` is the error.
  abbrev pub keys_of : Option (Option Json) → Option Bytes → Option (Option (Bytes × Bytes))
  keys_of none privatekey = some none
  keys_of (some obj) privatekey = do
    certificate ← j.get_string obj
    key ← privatekey
    some (some (certificate, key))

  -- The authentication that a name refers to; the outer `none` is the error.
  abbrev pub authentication_of :
      Option (Option Json) → List ConfigAuthentication → Option (Option ConfigAuthentication)
  authentication_of none entries = some none
  authentication_of (some obj) entries = do
    name ← j.get_string obj
    a ← config_authentication_get_ name entries
    some (some a)

  abbrev pub server_of :
      Bytes → ℕ → Option (Bytes × Bytes) → Option ConfigAuthentication → ConfigServer
  server_of hostname port none a = record {
    hostname = hostname;
    port = port;
    certificate = none;
    privatekey = none;
    authentication = a;
  }
  server_of hostname port (some (certificate, privatekey)) a = record {
    hostname = hostname;
    port = port;
    certificate = some certificate;
    privatekey = some privatekey;
    authentication = a;
  }

  -- The server that an object describes, if it is valid and there is memory.
  unfoldable pub server_from : Bool → Option Json → List ConfigAuthentication → Option ConfigServer
  unfolding config_authentication_get_
  server_from mem config entries =
      if mem
      then (do
        hostname ← text_at config (codes "/hostname")
        port ← port_of_found (j.pointer_get config (codes "/port"))
        keys ←
            keys_of (j.pointer_get config (codes "/security/certificate"))
              (text_at config (codes "/security/privatekey"))
        a ← authentication_of (j.pointer_get config (codes "/authentication")) entries
        some (server_of hostname port keys a))
      else none

  -- The authentication, with the result of auth_set_password_file.
  abbrev pub authentication_from : Bytes → Bytes → Bytes → Bool × Auth → Option ConfigAuthentication
  authentication_from name type file (false, auth) = none
  authentication_from name type file (true, auth) =
      some (record { name = name; type = type; file = file; auth = auth })

  -- The object gets this address. The calls: 1 and 2 are those of auth_new_, 3 is strdup.
  unfoldable pub made_authentication : ℕ → Calls → Bytes → Option Json → Option ConfigAuthentication
  unfolding auth_method_from_string auth_set_password_file
  made_authentication address calls name config = do
    type ← text_at config (codes "/type")
    file ← text_at config (codes "/file")
    auth ← auth_method_from_string address (λ n. calls (suc n)) type
    authentication_from name type file (auth_set_password_file file (calls 3) auth)
