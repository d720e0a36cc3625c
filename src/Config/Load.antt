-- ===== src/Config/Load.antt =====
-- config_load_file of src/config.c, with the loops that fill the context.
use disqueue.Base.{
  ℕ, suc, Bool, true, false, Option, none, some, List, [], ◌∷◌, Bytes, codes, if◌then◌else◌, length,
  Result, ok, fault, null_dereference, ◌>>=◌,
}
use disqueue.Json.{Calls}
use disqueue.Config.{ConfigJson, ConfigAuthentication, ConfigServer, ConfigContext}
use disqueue.Config.Entries.{server_from, made_authentication}

module _ (j : ConfigJson) where
  open j use {Json}

  abbrev pub add_server : Option ConfigServer → ConfigContext → Bool × ConfigContext
  add_server none c = (false, c)
  add_server (some server) c = (true, record c { servers = server ∷ c.servers })

  unfoldable pub config_process_server_ : Bool → Option Json → ConfigContext → Bool × ConfigContext
  unfolding server_from
  config_process_server_ mem config c = add_server (server_from j mem config c.authentications) c

  abbrev pub add_authentication : Option ConfigAuthentication → ConfigContext → Bool × ConfigContext
  add_authentication none c = (false, c)
  add_authentication (some a) c = (true, record c { authentications = a ∷ c.authentications })

  -- The number of entries before it stands for the address of the object. Call 0 is calloc: without memory for the struct, the error path reads `authentication->auth`
  -- through NULL.
  unfoldable pub config_process_authentication_ :
      Calls → Bytes → Option Json → ConfigContext → Result (Bool × ConfigContext)
  unfolding made_authentication
  config_process_authentication_ calls name config c =
      if calls 0
      then ok (
          add_authentication (made_authentication j (length c.authentications) calls name config) c)
      else fault null_dereference

  abbrev pub go_on {ℓ} : {S : Type ℓ} → (S → Result (Bool × S)) → Bool × S → Result (Bool × S)
  go_on next (false, s) = ok (false, s)
  go_on next (true, s) = next s

  -- The two loops; `mem n` is what malloc answers for the n-th entry.
  unfoldable pub load_authentications :
      (ℕ → Calls) → List (Bytes × Option Json) → ConfigContext → Result (Bool × ConfigContext)
  unfolding config_process_authentication_
  load_authentications mem [] c = ok (true, c)
  load_authentications mem ((name, value) ∷ rest) c = do
    r ← config_process_authentication_ (mem 0) name value c
    go_on (load_authentications (λ n. mem (suc n)) rest) r

  abbrev pub process_server : Bool → Option Json → ConfigContext → Bool × ConfigContext
  process_server mem none c = (false, c)
  process_server mem (some server) c = config_process_server_ mem (some server) c

  unfoldable pub load_servers :
      Calls → List (Option Json) → ConfigContext → Result (Bool × ConfigContext)
  unfolding config_process_server_
  load_servers mem [] c = ok (true, c)
  load_servers mem (s ∷ ss) c =
      go_on (load_servers (λ n. mem (suc n)) ss) (process_server (mem 0) s c)

  -- json_object_object_foreach reads the table of its object without a test.
  abbrev pub table_of : Option (List (Bytes × Option Json)) → Result (List (Bytes × Option Json))
  table_of none = fault null_dereference
  table_of (some entries) = ok entries

  abbrev pub members_of : Option Json → Result (List (Bytes × Option Json))
  members_of none = ok []
  members_of (some authentications) = table_of (j.members authentications)

  abbrev pub elements_of : Option Json → Option (List (Option Json))
  elements_of none = none
  elements_of (some servers) = j.elements servers

  abbrev pub load_array :
      Calls → Option (List (Option Json)) → ConfigContext → Result (Bool × ConfigContext)
  load_array mem none c = ok (false, c)
  load_array mem (some servers) c = load_servers mem servers c

  abbrev pub load_object :
      (ℕ → Calls) → Calls → Option Json → ConfigContext → Result (Bool × ConfigContext)
  load_object mem_a mem_s none c = ok (false, c)
  load_object mem_a mem_s (some object) c = do
    entries ← members_of (j.object_get object (codes "authentication"))
    r ← load_authentications mem_a entries c
    go_on (load_array mem_s (elements_of (j.object_get object (codes "servers")))) r

  unfoldable pub config_load_file :
      (ℕ → Calls) → Calls → Bytes → ConfigContext → Result (Bool × ConfigContext)
  unfolding load_authentications load_servers
  config_load_file mem_a mem_s filename c = load_object mem_a mem_s (j.from_file filename) c
