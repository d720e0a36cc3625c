-- ===== src/Manager/Shutdown.antt =====
-- manager_shutdown of src/manager.c.
use disqueue.Base.{
  ℕ, zero, suc, Option, none, some, List, [], ◌∷◌, ◌≡◌, refl, Result, ok, ◌>>=◌, ◌∙◌, ap,
}
use disqueue.Manager.State.{Manager, ManagerQueue, Server, Want}
use disqueue.Manager.Wants.{manager_queue_want_free}
use disqueue.Manager.Registry.{manager_queue_free}

-- The loop over the servers, with the list of those whose paths it has unregistered; `none` means
-- that it still runs when the fuel is used up.
unfoldable pub shutdown_servers : ℕ → List Server → List Server → Option (List Server)
shutdown_servers zero servers out = none
shutdown_servers (suc fuel) [] out = some out
shutdown_servers (suc fuel) (s ∷ servers) out = shutdown_servers fuel (s ∷ servers) (s ∷ out)

-- The loops over the wants and the queues: each frees the first until there is none.
unfoldable pub shutdown_wants : List Want → Manager → Result Manager
shutdown_wants [] m = ok m
shutdown_wants (w ∷ ws) m = manager_queue_want_free w.addr m >>= shutdown_wants ws

unfoldable pub shutdown_queues : List ManagerQueue → Manager → Result Manager
shutdown_queues [] m = ok m
shutdown_queues (q ∷ qs) m = manager_queue_free q m >>= shutdown_queues qs

abbrev shutdown_rest : Option (List Server) → Manager → Option (Result Manager)
shutdown_rest none m = none
shutdown_rest (some out) m = some (shutdown_wants m.wants m >>= λ m'. shutdown_queues m'.queues m')

unfoldable pub manager_shutdown : ℕ → Manager → Option (Result Manager)
manager_shutdown fuel m = shutdown_rest (shutdown_servers fuel m.servers []) m

servers_forever :
    (fuel : ℕ) (s : Server) (ss out : List Server) → shutdown_servers fuel (s ∷ ss) out ≡ none
unfolding shutdown_servers
servers_forever zero s ss out = refl
servers_forever (suc fuel) s ss out = servers_forever fuel s ss (s ∷ out)

-- With a server in the list manager_shutdown never ends, however long it runs: its first loop
-- unregisters the paths of the first server and leaves it in the list.
pub manager_shutdown-none :
    (m : Manager) (s : Server) (ss : List Server)
    → m.servers ≡ s ∷ ss
    → (fuel : ℕ) → manager_shutdown fuel m ≡ none
unfolding manager_shutdown
manager_shutdown-none m s ss e fuel =
    ap (λ l. shutdown_rest (shutdown_servers fuel l []) m) e
    ∙ ap (λ o. shutdown_rest o m) (servers_forever fuel s ss [])
