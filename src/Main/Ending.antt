-- ===== src/Main/Ending.antt =====
-- How long main goes on before the event loop.
use disqueue.Base.{
  ℕ, zero, suc, ◌<◌, ◌≤◌, Bool, true, false, Option, some, List, [], ◌∷◌, Result, ok, fault, ◌≡◌,
  refl, ap, subst, inl, inr, Bool-cases, arith, length,
}
use disqueue.Json.{Calls}
use disqueue.Config.{ConfigJson, ConfigServer, ConfigContext, config_iter_server_begin, is_node}
use disqueue.Manager.State.{manager_startup}
use disqueue.Main.{
  Setup, Process, create_server, GetOpt, Run, exits, serving, with_config, created, create_servers,
  begun, CommandLine, returns, goes_on, parsed, command_line, main,
}
use disqueue.Main.Startup.{Adds, IsAdded, http-IsAdded, round}

-- The loop has ended.
abbrev pub HasEnded : Option (Result Run) → Type 0
HasEnded o = (r : Result Run) × (o ≡ some r)

created-HasEnded :
    (next : Process → Option (Result Run)) (q : Process) (r : Result (Bool × Process))
    → Adds (λ p'. p'.config ≡ q.config) r
    → ((p' : Process) → p'.config ≡ q.config → HasEnded (next p'))
    → HasEnded (created next r)
created-HasEnded next q (fault e) a h = (fault e, refl)
created-HasEnded next q (ok (false, p')) a h = (ok (exits 1), refl)
created-HasEnded next q (ok (true, p')) a h = h p' a

Adds-config :
    (server : ConfigServer) (q : Process) (r : Result (Bool × Process))
    → Adds (IsAdded server q) r
    → Adds (λ p'. p'.config ≡ q.config) r
Adds-config server q (fault e) h = tt
Adds-config server q (ok (false, p')) h = tt
Adds-config server q (ok (true, p')) (l, is, c, e, m) = c

create_servers-HasEnded :
    (fuel : ℕ) (o : ℕ → Setup) (p : Process) (ss : List ConfigServer)
    → p.config.current_iter ≡ ss
    → length ss < fuel
    → HasEnded (create_servers fuel o p)
unfolding create_server
create_servers-HasEnded zero o p ss e b = absurd (omega arith)
create_servers-HasEnded (suc fuel) o p [] e b =
    subst HasEnded (round fuel o p [] e) (ok (serving (with_config p p.config)), refl)
create_servers-HasEnded (suc fuel) o p (s ∷ ss) e b =
    let q = with_config p (record p.config { current_iter = ss }) in
    subst HasEnded (round fuel o p (s ∷ ss) e) (
      created-HasEnded (create_servers fuel (λ n. o (suc n))) q (create_server (o 0) s q)
        (Adds-config s q (create_server (o 0) s q) (http-IsAdded (o 0) s (o 0).http q))
        (λ p' c.
          create_servers-HasEnded fuel (λ n. o (suc n)) p' ss (ap (λ x. x.current_iter) c)
            (omega arith)))

begun-HasEnded :
    (fuel : ℕ) (base : Bool) (o : ℕ → Setup) (p : Process) (c : ConfigContext)
    → length c.servers < fuel
    → HasEnded (begun fuel base o p (config_iter_server_begin c))
unfolding config_iter_server_begin
begun-HasEnded fuel base o p c b = elim (Bool-cases (is_node c.current_iter)) [
  | inl i ↦ rw i (ok (exits 1), refl)
  | inr i ↦ rw i (elim (Bool-cases (is_node c.servers)) [
    | inr n ↦ rw n (ok (exits 1), refl)
    | inl n ↦ rw n (elim (Bool-cases base) [
      | inr d ↦ rw d (ok (exits 1), refl)
      | inl d ↦
          let c' = record c { current_iter = c.servers } in
          let p' = record p { config = c'; manager = manager_startup p.manager } in
          rw d (create_servers-HasEnded fuel o p' c.servers refl b)
    ])
  ])
]

module _ (j : ConfigJson) where
  -- How many rounds are enough, by what the command line comes to.
  abbrev rounds : Result (CommandLine j) → ℕ
  rounds (fault e) = 0
  rounds (ok (returns n)) = 0
  rounds (ok (goes_on c)) = suc (length c.servers)

  parsed-HasEnded :
      (fuel : ℕ) (base : Bool) (o : ℕ → Setup) (p : Process) (r : Result (CommandLine j))
      → rounds r ≤ fuel
      → HasEnded (parsed j fuel base o p r)
  parsed-HasEnded fuel base o p (fault e) b = (fault e, refl)
  parsed-HasEnded fuel base o p (ok (returns n)) b = (ok (exits n), refl)
  parsed-HasEnded fuel base o p (ok (goes_on c)) b = begun-HasEnded fuel base o p c (omega arith)

  -- For any command line, configuration and answers of the libraries there is a number of rounds
  -- from which on main gets to an exit code, to the event loop or to a fault: the loop over the
  -- servers ends.
  pub main-HasEnded :
      (mem_a : ℕ → Calls) (mem_s : Calls) (base : Bool) (o : ℕ → Setup) (os : List GetOpt)
      (p : Process)
      → (n : ℕ) × ((fuel : ℕ) → n ≤ fuel → HasEnded (main j fuel mem_a mem_s base o os p))
  unfolding main
  main-HasEnded mem_a mem_s base o os p =
      let r = command_line j mem_a mem_s os p.config in
      (rounds r, λ fuel b. parsed-HasEnded fuel base o p r b)
