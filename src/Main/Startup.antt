-- ===== src/Main/Startup.antt =====
-- Which configurations bring main to its event loop.
use disqueue.Base.{
  ℕ, zero, suc, Bool, true, false, Option, none, some, List, [], ◌∷◌, Result, ok, fault, ◌>>=◌, ◌≡◌,
  refl, sym, ap, subst, ◌∙◌, inl, inr, Bool-cases,
}
use disqueue.Json.{Calls}
use disqueue.Config.{
  ConfigJson, ConfigAuthentication, ConfigServer, ConfigContext, referred, config_iter_server_begin,
  config_iter_server_next, next_from, is_node, config_server_get_authentication,
  config_server_get_realm,
}
use disqueue.Ssl.{SslContext}
use disqueue.Manager.State.{Manager, Server, manager_startup}
use disqueue.Routes.{Listener, listener_of, evws_new, manager_add_server}
use disqueue.Main.{
  Setup, Process, secure, listener_for, added, after_secure, after_ws, after_http, create_server,
  GetOpt, Run, exits, serving, with_config, created, next_server, create_servers, begun,
  CommandLine, returns, goes_on, parsed, command_line, main,
}

-- What holds where a server was set up.
abbrev pub Adds : (Process → Type 0) → Result (Bool × Process) → Type 0
Adds P (ok (true, p)) = P p
Adds P (ok (false, p)) = Unit
Adds P (fault e) = Unit

-- The listener that manager_add_server makes of a server with the authentication that it has.
pub record IsListenerOf (server : ConfigServer) (l : Listener) : Type 0 where
  pub authentication : ConfigAuthentication
  pub has_authentication : server.authentication ≡ some authentication
  pub calls : Calls
  pub has_memory : calls 0 ≡ true
  pub http : ℕ
  pub ws : ℕ
  pub manager : Manager
  pub is_made :
      l
      ≡ (manager_add_server calls
          (some authentication.auth)
          (some authentication.name)
          (listener_for server (listener_of http ws))
          manager).1

-- The manager has a server.
abbrev pub HasServer : Manager → Type 0
HasServer m = (s : Server) × (ss : List Server) × (m.servers ≡ s ∷ ss)

-- There is one listener more, that of the server, and the manager knows it.
abbrev pub IsAdded : ConfigServer → Process → Process → Type 0
IsAdded server p p' =
    (l : Listener) × IsListenerOf server l
    × (p'.config ≡ p.config)
    × (p'.listeners ≡ l ∷ p.listeners)
    × HasServer p'.manager

added-IsAdded :
    (server : ConfigServer) (a : ConfigAuthentication) (p : Process) (c : SslContext)
    (calls : Calls) (http ws : ℕ)
    → server.authentication ≡ some a
    → Adds (IsAdded server p) (
        ok (
          added
            (record p { ssl = c })
            (manager_add_server calls
              (some a.auth)
              (some a.name)
              (listener_for server (listener_of http ws))
              p.manager)))
unfolding manager_add_server
added-IsAdded server a p c calls http ws e = elim (Bool-cases (calls 0)) [
  | inr n ↦ rw n tt
  | inl m ↦ rw m (
    _,
    record {
      authentication = a;
      has_authentication = e;
      calls = calls;
      has_memory = m;
      http = http;
      ws = ws;
      manager = p.manager;
      is_made = sym (rw (m, manager_add_server) refl);
    },
    refl,
    refl,
    (_, p.manager.servers, refl),
  )
]

referred-IsAdded :
    (o : Setup) (server : ConfigServer) (http ws : ℕ) (p : Process) (c : SslContext)
    (a : Option ConfigAuthentication)
    → server.authentication ≡ a
    → Adds (IsAdded server p) (
        (referred a >>= λ x. ok x.auth) >>= λ auth. (referred a >>= λ x. ok x.name) >>= λ realm.
        ok (
          added
            (record p { ssl = c })
            (manager_add_server o.add
              (some auth)
              (some realm)
              (listener_for server (listener_of http ws))
              p.manager)))
referred-IsAdded o server http ws p c none e = tt
referred-IsAdded o server http ws p c (some a) e = added-IsAdded server a p c o.add http ws e

secured-IsAdded :
    (o : Setup) (server : ConfigServer) (http ws : ℕ) (p : Process) (r : Bool × SslContext)
    → Adds (IsAdded server p) (after_secure o server (listener_of http ws) p r)
unfolding config_server_get_authentication config_server_get_realm
secured-IsAdded o server http ws p (false, c) = tt
secured-IsAdded o server http ws p (true, c) =
    referred-IsAdded o server http ws p c server.authentication refl

ws-IsAdded :
    (o : Setup) (server : ConfigServer) (http : ℕ) (ws : Option ℕ) (p : Process)
    → Adds (IsAdded server p) (after_ws o server (evws_new ws http) p)
ws-IsAdded o server http none p = tt
ws-IsAdded o server http (some ws) p =
    secured-IsAdded o server http ws p (secure o.openssl server p.ssl)

pub http-IsAdded :
    (o : Setup) (server : ConfigServer) (http : Option ℕ) (p : Process)
    → Adds (IsAdded server p) (after_http o server http p)
http-IsAdded o server none p = tt
http-IsAdded o server (some http) p = elim (Bool-cases (o.bind server.hostname server.port)) [
  | inl b ↦ rw b (ws-IsAdded o server http o.ws p)
  | inr b ↦ rw b tt
]

-- What holds of the process in the event loop, if it gets there.
abbrev pub Serves : (Process → Type 0) → Option (Result Run) → Type 0
Serves P (some (ok (serving q))) = P q
Serves P (some (ok (exits n))) = Unit
Serves P (some (fault e)) = Unit
Serves P none = Unit

-- Listeners, each in a relation with its server, stand before the others, the last one first.
abbrev pub Stacked :
    (ConfigServer → Listener → Type 0) → List ConfigServer → List Listener → List Listener → Type 0
Stacked R [] ls ls' = ls' ≡ ls
Stacked R (s ∷ ss) ls ls' = (l : Listener) × R s l × Stacked R ss (l ∷ ls) ls'

pub Stacked-map :
    (R S : ConfigServer → Listener → Type 0)
    → ((s : ConfigServer) (l : Listener) → R s l → S s l)
    → (ss : List ConfigServer) (ls ls' : List Listener) → Stacked R ss ls ls'
    → Stacked S ss ls ls'
Stacked-map R S f [] ls ls' h = h
Stacked-map R S f (s ∷ ss) ls ls' (l, r, h) = (l, f s l r, Stacked-map R S f ss (l ∷ ls) ls' h)

abbrev IsServing : List ConfigServer → Process → Process → Type 0
IsServing ss p q =
    Stacked IsListenerOf ss p.listeners q.listeners × (q.config.servers ≡ p.config.servers)

IsServing-cons :
    (server : ConfigServer) (ss : List ConfigServer) (p p' : Process) (r : Option (Result Run))
    → IsAdded server p p'
    → Serves (IsServing ss p') r
    → Serves (IsServing (server ∷ ss) p) r
IsServing-cons server ss p p' none a h = tt
IsServing-cons server ss p p' (some (fault e)) a h = tt
IsServing-cons server ss p p' (some (ok (exits n))) a h = tt
IsServing-cons server ss p p' (some (ok (serving q))) (l, is, c, e, _) h = (
  (l, is, subst (λ ls. Stacked IsListenerOf ss ls q.listeners) e h.0),
  h.1 ∙ ap (λ x. x.servers) c,
)

created-IsServing :
    (server : ConfigServer) (ss : List ConfigServer) (p : Process)
    (next : Process → Option (Result Run)) (r : Result (Bool × Process))
    → Adds (IsAdded server p) r
    → ((p' : Process) → p'.config ≡ p.config → Serves (IsServing ss p') (next p'))
    → Serves (IsServing (server ∷ ss) p) (created next r)
created-IsServing server ss p next (fault e) a h = tt
created-IsServing server ss p next (ok (false, p')) a h = tt
created-IsServing server ss p next (ok (true, p')) a h =
    IsServing-cons server ss p p' (next p') a (h p' a.2)

-- One round of the loop, with the servers that are left.
pub round :
    (fuel : ℕ) (o : ℕ → Setup) (p : Process) (ss : List ConfigServer)
    → p.config.current_iter ≡ ss
    → next_server
        (λ server q. created (create_servers fuel (λ n. o (suc n))) (create_server (o 0) server q))
        p
        (next_from ss p.config)
      ≡ create_servers (suc fuel) o p
unfolding create_servers config_iter_server_next
round fuel o p ss e =
    ap
      (λ l.
        next_server
          (λ server q.
            created (create_servers fuel (λ n. o (suc n))) (create_server (o 0) server q))
          p (next_from l p.config))
      (sym e)

create_servers-IsServing :
    (fuel : ℕ) (o : ℕ → Setup) (p : Process) (ss : List ConfigServer)
    → p.config.current_iter ≡ ss
    → Serves (IsServing ss p) (create_servers fuel o p)
unfolding create_server create_servers
create_servers-IsServing zero o p ss e = tt
create_servers-IsServing (suc fuel) o p [] e =
    subst (Serves (IsServing [] p)) (round fuel o p [] e) (refl, refl)
create_servers-IsServing (suc fuel) o p (s ∷ ss) e =
    let q = with_config p (record p.config { current_iter = ss }) in
    subst (Serves (IsServing (s ∷ ss) p)) (round fuel o p (s ∷ ss) e) (
      created-IsServing s ss q (create_servers fuel (λ n. o (suc n))) (create_server (o 0) s q)
        (http-IsAdded (o 0) s (o 0).http q)
        (λ p' c. create_servers-IsServing fuel (λ n. o (suc n)) p' ss (ap (λ x. x.current_iter) c)))

-- Every server has an authentication and a listener that requires it; there are no others.
abbrev pub IsReady : Process → Type 0
IsReady q = Stacked IsListenerOf q.config.servers [] q.listeners

Serves-IsReady :
    (p : Process) (r : Option (Result Run))
    → p.listeners ≡ []
    → Serves (IsServing p.config.servers p) r
    → Serves IsReady r
Serves-IsReady p none ls h = tt
Serves-IsReady p (some (fault e)) ls h = tt
Serves-IsReady p (some (ok (exits n))) ls h = tt
Serves-IsReady p (some (ok (serving q))) ls h =
    subst (λ ss. Stacked IsListenerOf ss [] q.listeners) (sym h.1)
      (subst (λ l. Stacked IsListenerOf p.config.servers l q.listeners) ls h.0)

begun-IsReady :
    (fuel : ℕ) (base : Bool) (o : ℕ → Setup) (p : Process) (c : ConfigContext)
    → p.listeners ≡ []
    → Serves IsReady (begun fuel base o p (config_iter_server_begin c))
unfolding config_iter_server_begin
begun-IsReady fuel base o p c ls = elim (Bool-cases (is_node c.current_iter)) [
  | inl i ↦ rw i tt
  | inr i ↦ rw i (elim (Bool-cases (is_node c.servers)) [
    | inr n ↦ rw n tt
    | inl n ↦ rw n (elim (Bool-cases base) [
      | inr b ↦ rw b tt
      | inl b ↦
          let c' = record c { current_iter = c.servers } in
          let p' = record p { config = c'; manager = manager_startup p.manager } in
          rw b (
            Serves-IsReady p' (create_servers fuel o p') ls
              (create_servers-IsServing fuel o p' c.servers refl))
    ])
  ])
]

module _ (j : ConfigJson) where
  parsed-IsReady :
      (fuel : ℕ) (base : Bool) (o : ℕ → Setup) (p : Process) (r : Result (CommandLine j))
      → p.listeners ≡ []
      → Serves IsReady (parsed j fuel base o p r)
  parsed-IsReady fuel base o p (fault e) ls = tt
  parsed-IsReady fuel base o p (ok (returns n)) ls = tt
  parsed-IsReady fuel base o p (ok (goes_on c)) ls = begun-IsReady fuel base o p c ls

  -- If main, started with no listener, reaches the event loop, then every server of the
  -- configuration has an authentication and one listener, which manager_add_server has made with
  -- that authentication and its realm; there are no other listeners. A server without an
  -- authentication never gets that far.
  pub main-IsReady :
      (fuel : ℕ) (mem_a : ℕ → Calls) (mem_s : Calls) (base : Bool) (o : ℕ → Setup)
      (os : List GetOpt) (p q : Process)
      → p.listeners ≡ []
      → main j fuel mem_a mem_s base o os p ≡ some (ok (serving q))
      → IsReady q
  unfolding main
  main-IsReady fuel mem_a mem_s base o os p q ls e =
      subst (Serves IsReady) e
        (parsed-IsReady fuel base o p (command_line j mem_a mem_s os p.config) ls)
