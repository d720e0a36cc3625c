-- ===== src/Config/Bounds.antt =====
-- What holds of every server that a configuration file brings in.
use mathlib.Core.Option.{some-injective}
use disqueue.Base.Options.{>>=-some}
use disqueue.Base.{
  length, Result-cases, ℕ, zero, suc, ◌<◌, ◌≤◌, Bool, true, false, Option, none, some, List, [],
  ◌∷◌, Bytes, codes, ℤ, pos, negsuc, Result, ok, fault, ◌>>=◌, ◌≡◌, refl, sym, subst, inl, inr,
  arith, All, is_some, Bool-cases, Option-cases,
}
use disqueue.Json.{Calls}
use disqueue.Config.{
  ConfigJson, ConfigAuthentication, ConfigServer, ConfigContext, config_authentication_get_,
  config_unset,
}
use disqueue.Config.Entries.{
  shrt_max, port_of, port_of_found, made_authentication, text_at, keys_of, authentication_of,
  server_of, server_from,
}
use disqueue.Config.Load.{
  config_process_server_, config_process_authentication_, add_authentication, go_on, process_server,
  load_servers, load_authentications, members_of, elements_of, load_array, load_object,
  config_load_file,
}

-- The authentication of a server is one of the list, under some name.
abbrev pub Refers : List ConfigAuthentication → Option ConfigAuthentication → Type 0
Refers entries none = Unit
Refers entries (some a) = (name : Bytes) × (config_authentication_get_ name entries ≡ some a)

pub record IsServer (entries : List ConfigAuthentication) (x : ConfigServer) : Type 0 where
  pub port_positive : 0 < x.port
  pub port_bounded : x.port ≤ shrt_max
  pub keys_paired : is_some x.certificate ≡ is_some x.privatekey
  pub refers : Refers entries x.authentication

port_bounds : (z : ℤ) (p : ℕ) → port_of z ≡ some p → (0 < p) × (p ≤ shrt_max)
port_bounds (negsuc n) p h = cc
port_bounds (pos zero) p h = cc
port_bounds (pos (suc n)) p h = ground arith

module _ (j : ConfigJson) where
  open j use {Json}

  port_found_bounds :
      (o : Option (Option Json)) (p : ℕ) → port_of_found j o ≡ some p → (0 < p) × (p ≤ shrt_max)
  port_found_bounds none p h = cc
  port_found_bounds (some obj) p h = port_bounds (j.get_int obj) p h

  authentication-Refers :
      (o : Option (Option Json)) (entries : List ConfigAuthentication)
      (a : Option ConfigAuthentication)
      → authentication_of j o entries ≡ some a
      → Refers entries a
  authentication-Refers none entries a h = subst (Refers entries) (some-injective none a h) tt
  authentication-Refers (some obj) entries a h =
      let (name, _, h') = >>=-some (j.get_string obj) _ a h in
      let (x, found, e) = >>=-some (config_authentication_get_ name entries) _ a h' in
      subst (Refers entries) (some-injective (some x) a e) (name, found)

  server_of-IsServer :
      (entries : List ConfigAuthentication) (hostname : Bytes) (port : ℕ)
      (keys : Option (Bytes × Bytes)) (a : Option ConfigAuthentication)
      → (0 < port) × (port ≤ shrt_max)
      → Refers entries a
      → IsServer entries (server_of j hostname port keys a)
  server_of-IsServer entries hostname port none a b r = record {
    port_positive = b.0;
    port_bounded = b.1;
    keys_paired = refl;
    refers = r;
  }
  server_of-IsServer entries hostname port (some (c, k)) a b r = record {
    port_positive = b.0;
    port_bounded = b.1;
    keys_paired = refl;
    refers = r;
  }

  server_from-IsServer :
      (mem : Bool) (config : Option Json) (entries : List ConfigAuthentication) (x : ConfigServer)
      → server_from j mem config entries ≡ some x
      → IsServer entries x
  unfolding server_from
  server_from-IsServer false config entries x h = cc
  server_from-IsServer true config entries x h =
      let (hostname, _, h1) = >>=-some (text_at j config (codes "/hostname")) _ x h in
      let (port, p, h2) =
        >>=-some (port_of_found j (j.pointer_get config (codes "/port"))) _ x h1 in
      let (keys, _, h3) =
        >>=-some
          (keys_of j (j.pointer_get config (codes "/security/certificate"))
            (text_at j config (codes "/security/privatekey")))
          _ x h2 in
      let (a, r, h4) =
        >>=-some (authentication_of j (j.pointer_get config (codes "/authentication")) entries) _ x
          h3 in
      subst (IsServer entries) (some-injective (server_of j hostname port keys a) x h4) (
        server_of-IsServer entries hostname port keys a
          (port_found_bounds (j.pointer_get config (codes "/port")) port p)
          (authentication-Refers (j.pointer_get config (codes "/authentication")) entries a r))

  -- Every server of the context is valid; its authentication is one of the context.
  abbrev pub IsLoaded : ConfigContext → Type 0
  IsLoaded c = All (IsServer c.authentications) c.servers

  -- What holds of the context where the code returns, with either answer.
  abbrev Holds : (ConfigContext → Type 0) → Result (Bool × ConfigContext) → Type 0
  Holds P (ok (b, c)) = P c
  Holds P (fault e) = Unit

  go_on-Holds :
      (P : ConfigContext → Type 0) (next : ConfigContext → Result (Bool × ConfigContext))
      (r : Bool × ConfigContext)
      → P r.1
      → ((c : ConfigContext) → P c → Holds P (next c))
      → Holds P (go_on j next r)
  go_on-Holds P next (false, c) h k = h
  go_on-Holds P next (true, c) h k = k c h

  bind-Holds :
      (P : ConfigContext → Type 0) (r : Result (Bool × ConfigContext))
      (next : Bool × ConfigContext → Result (Bool × ConfigContext))
      → Holds P r
      → ((a : Bool × ConfigContext) → P a.1 → Holds P (next a))
      → Holds P (r >>= next)
  bind-Holds P (ok a) next h k = k a h
  bind-Holds P (fault e) next h k = tt

  process-IsLoaded :
      (mem : Bool) (s : Option Json) (c : ConfigContext)
      → IsLoaded c
      → IsLoaded (process_server j mem s c).1
  unfolding config_process_server_
  process-IsLoaded mem none c h = h
  process-IsLoaded mem (some s) c h =
      elim (Option-cases (server_from j mem (some s) c.authentications)) [
        | inl e ↦ rw e h
        | inr (x, e) ↦ rw e (server_from-IsServer mem (some s) c.authentications x e, h)
      ]

  servers-IsLoaded :
      (mem : Calls) (ss : List (Option Json)) (c : ConfigContext)
      → IsLoaded c
      → Holds IsLoaded (load_servers j mem ss c)
  unfolding load_servers
  servers-IsLoaded mem [] c h = h
  servers-IsLoaded mem (s ∷ ss) c h =
      go_on-Holds IsLoaded (load_servers j (λ n. mem (suc n)) ss) (process_server j (mem 0) s c)
        (process-IsLoaded (mem 0) s c h) (servers-IsLoaded (λ n. mem (suc n)) ss)

  -- While the authentications are read there is no server.
  abbrev HasNone : ConfigContext → Type 0
  HasNone c = c.servers ≡ []

  HasNone-IsLoaded : (c : ConfigContext) → HasNone c → IsLoaded c
  HasNone-IsLoaded c h = subst (All (IsServer c.authentications)) (sym h) tt

  add-HasNone :
      (a : Option ConfigAuthentication) (c : ConfigContext)
      → HasNone c
      → HasNone (add_authentication j a c).1
  add-HasNone none c h = h
  add-HasNone (some a) c h = h

  process-HasNone :
      (calls : Calls) (name : Bytes) (config : Option Json) (c : ConfigContext)
      → HasNone c
      → Holds HasNone (config_process_authentication_ j calls name config c)
  unfolding config_process_authentication_
  process-HasNone calls name config c h = elim (Bool-cases (calls 0)) [
    | inl e ↦
        rw e (add-HasNone (made_authentication j (length c.authentications) calls name config) c h)
    | inr e ↦ rw e tt
  ]

  authentications-HasNone :
      (mem : ℕ → Calls) (entries : List (Bytes × Option Json)) (c : ConfigContext)
      → HasNone c
      → Holds HasNone (load_authentications j mem entries c)
  unfolding load_authentications
  authentications-HasNone mem [] c h = h
  authentications-HasNone mem ((name, value) ∷ rest) c h =
      bind-Holds HasNone (config_process_authentication_ j (mem 0) name value c)
        (go_on j (load_authentications j (λ n. mem (suc n)) rest))
        (process-HasNone (mem 0) name value c h)
        (λ r k.
          go_on-Holds HasNone (load_authentications j (λ n. mem (suc n)) rest) r k
            (authentications-HasNone (λ n. mem (suc n)) rest))

  Holds-HasNone : (r : Result (Bool × ConfigContext)) → Holds HasNone r → Holds IsLoaded r
  Holds-HasNone (ok (b, c)) h = HasNone-IsLoaded c h
  Holds-HasNone (fault e) h = tt

  array-IsLoaded :
      (mem : Calls) (servers : Option (List (Option Json))) (c : ConfigContext)
      → IsLoaded c
      → Holds IsLoaded (load_array j mem servers c)
  array-IsLoaded mem none c h = h
  array-IsLoaded mem (some servers) c h = servers-IsLoaded mem servers c h

  entries-IsLoaded :
      (mem_a : ℕ → Calls) (mem_s : Calls) (object : Json) (entries : List (Bytes × Option Json))
      → Holds IsLoaded (
          load_authentications j mem_a entries config_unset
          >>= go_on j (load_array j mem_s (elements_of j (j.object_get object (codes "servers")))))
  entries-IsLoaded mem_a mem_s object entries =
      let servers = elements_of j (j.object_get object (codes "servers")) in
      bind-Holds IsLoaded (load_authentications j mem_a entries config_unset)
        (go_on j (load_array j mem_s servers))
        (Holds-HasNone (load_authentications j mem_a entries config_unset)
          (authentications-HasNone mem_a entries config_unset refl))
        (λ r k.
          go_on-Holds IsLoaded (load_array j mem_s servers) r k (array-IsLoaded mem_s servers))

  object-IsLoaded :
      (mem_a : ℕ → Calls) (mem_s : Calls) (object : Option Json)
      → Holds IsLoaded (load_object j mem_a mem_s object config_unset)
  object-IsLoaded mem_a mem_s none = tt
  object-IsLoaded mem_a mem_s (some object) =
      elim (Result-cases (members_of j (j.object_get object (codes "authentication")))) [
        | inr (f, u) ↦ rw u tt
        | inl (entries, u) ↦ rw u (entries-IsLoaded mem_a mem_s object entries)
      ]

  -- Whatever file is read, and whether or not the reading succeeds, every server that is in the
  -- list afterwards, starting from an empty configuration, has a port from 1 to 32767, a
  -- certificate exactly if it has a private key, and no authentication or one that the list of
  -- authentications has under some name.
  pub config_load_file-IsLoaded :
      (mem_a : ℕ → Calls) (mem_s : Calls) (filename : Bytes) (b : Bool) (c : ConfigContext)
      → config_load_file j mem_a mem_s filename config_unset ≡ ok (b, c)
      → IsLoaded c
  unfolding config_load_file
  config_load_file-IsLoaded mem_a mem_s filename b c h =
      subst (Holds IsLoaded) h (object-IsLoaded mem_a mem_s (j.from_file filename))
