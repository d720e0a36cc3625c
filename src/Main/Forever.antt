-- ===== src/Main/Forever.antt =====
-- main never exits by itself once its event loop has run.
use disqueue.Base.{
  ℕ, zero, suc, Bool, true, false, Option, none, some, List, [], ◌∷◌, Result, ok, fault, ◌≡◌, refl,
  ap, subst, ◌∙◌, ◌⊎◌, inl, inr, Bool-cases,
}
use disqueue.Json.{Calls}
use disqueue.Config.{ConfigJson, ConfigServer, ConfigContext, config_iter_server_begin, is_node}
use disqueue.Manager.State.{Manager, manager_startup}
use disqueue.Manager.Shutdown.{manager_shutdown-none}
use disqueue.Main.{
  Setup, Process, create_server, GetOpt, Run, serving, with_config, created, create_servers, begun,
  CommandLine, returns, goes_on, parsed, command_line, main, main_dispatched, shut_down,
}
use disqueue.Main.Startup.{Adds, IsAdded, HasServer, http-IsAdded, Serves, round}

-- Once there is a server, there is one in the event loop.
abbrev Keeps : Option (Result Run) → Type 0
Keeps = Serves (λ q. HasServer q.manager)

created-Keeps :
    (server : ConfigServer) (p : Process) (next : Process → Option (Result Run))
    (r : Result (Bool × Process))
    → Adds (IsAdded server p) r
    → ((p' : Process) → p'.config ≡ p.config → HasServer p'.manager → Keeps (next p'))
    → Keeps (created next r)
created-Keeps server p next (fault e) a h = tt
created-Keeps server p next (ok (false, p')) a h = tt
created-Keeps server p next (ok (true, p')) (l, is, c, e, m) h = h p' c m

create_servers-Keeps :
    (fuel : ℕ) (o : ℕ → Setup) (p : Process) (ss : List ConfigServer)
    → p.config.current_iter ≡ ss
    → HasServer p.manager ⊎ (is_node ss ≡ true)
    → Keeps (create_servers fuel o p)
unfolding create_server create_servers
create_servers-Keeps zero o p ss e h = tt
create_servers-Keeps (suc fuel) o p [] e (inl h) = subst Keeps (round fuel o p [] e) h
create_servers-Keeps (suc fuel) o p [] e (inr n) = cc
create_servers-Keeps (suc fuel) o p (s ∷ ss) e h =
    let q = with_config p (record p.config { current_iter = ss }) in
    subst Keeps (round fuel o p (s ∷ ss) e) (
      created-Keeps s q (create_servers fuel (λ n. o (suc n))) (create_server (o 0) s q)
        (http-IsAdded (o 0) s (o 0).http q)
        (λ p' c m.
          create_servers-Keeps fuel (λ n. o (suc n)) p' ss (ap (λ x. x.current_iter) c) (inl m)))

begun-Keeps :
    (fuel : ℕ) (base : Bool) (o : ℕ → Setup) (p : Process) (c : ConfigContext)
    → Keeps (begun fuel base o p (config_iter_server_begin c))
unfolding config_iter_server_begin
begun-Keeps fuel base o p c = elim (Bool-cases (is_node c.current_iter)) [
  | inl i ↦ rw i tt
  | inr i ↦ rw i (elim (Bool-cases (is_node c.servers)) [
    | inr n ↦ rw n tt
    | inl n ↦ rw n (elim (Bool-cases base) [
      | inr b ↦ rw b tt
      | inl b ↦
          let c' = record c { current_iter = c.servers } in
          let p' = record p { config = c'; manager = manager_startup p.manager } in
          rw b (create_servers-Keeps fuel o p' c.servers refl (inr n))
    ])
  ])
]

module _ (j : ConfigJson) where
  parsed-Keeps :
      (fuel : ℕ) (base : Bool) (o : ℕ → Setup) (p : Process) (r : Result (CommandLine j))
      → Keeps (parsed j fuel base o p r)
  parsed-Keeps fuel base o p (fault e) = tt
  parsed-Keeps fuel base o p (ok (returns n)) = tt
  parsed-Keeps fuel base o p (ok (goes_on c)) = begun-Keeps fuel base o p c

  -- If main reaches the event loop and the callbacks leave the list of servers as it was, main does
  -- not exit once the event loop has ended well, however long manager_shutdown runs.
  pub main_dispatched-none :
      (fuel : ℕ) (mem_a : ℕ → Calls) (mem_s : Calls) (base : Bool) (o : ℕ → Setup)
      (os : List GetOpt) (p q : Process) (m : Manager)
      → main j fuel mem_a mem_s base o os p ≡ some (ok (serving q))
      → m.servers ≡ q.manager.servers
      → (k : ℕ) → main_dispatched k true m ≡ none
  unfolding main main_dispatched
  main_dispatched-none fuel mem_a mem_s base o os p q m e v k =
      let (s, ss, has) =
        subst Keeps e (parsed-Keeps fuel base o p (command_line j mem_a mem_s os p.config)) in
      ap shut_down (manager_shutdown-none m s ss (v ∙ has) k)
