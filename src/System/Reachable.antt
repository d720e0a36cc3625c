-- ===== src/System/Reachable.antt =====
-- The runs of the server's event loop: every callback that libevent may call, in any order.
use disqueue.Base.{
  ℕ, suc, ◌+◌, ◌<◌, ◌≡◌, Bool, Option, some, List, [], Bytes, length, arith, Option-cases, inl, inr,
  ok, Yields, yielded, subst,
}
use disqueue.Json.{JsonC}
use disqueue.Auth.Methods.{Auths, AuthOutside}
use disqueue.Queue.State.{size_mod}
use disqueue.Manager.State.{Manager, Server, manager_startup}
use disqueue.World.{World}
use disqueue.Ws.{Wire, Events, evws_connection_event_cb_, evws_close_}
use disqueue.Ws.Receive.{Opcodes, Received, evws_connection_read_cb_}
use disqueue.Ws.Upgrade.{Handshake, evws_upgrade_http_cb_}
use disqueue.Connection.Wait.{Outside}
use disqueue.Connection.Http.{Evhttp, Memory, Request, Reply}
use disqueue.Routes.{Params, Listener, serve, dispatch, route_at}
use disqueue.System.Sound.{IsSound, extend-IsSound}
use disqueue.System.Handlers.{serve-Leaves}
use disqueue.System.Waiting.{evws_close_-Carries}
use disqueue.System.Sockets.{evws_connection_read_cb_-Keeps, evws_connection_event_cb_-Keeps}
use disqueue.System.Upgrade.{evws_upgrade_http_cb_-Upgrades}

module _ (j : JsonC) (op : Opcodes) (e : Evhttp) (same : Bytes → Bytes → Bool) where
  -- A callback that libevent calls and that returns, with what the code outside answers in it. A
  -- step counts as many operations as requests are in it.
  pub data Step : ℕ → World → World → Type 1 where
    -- A request for a path of a listener.
    requested :
        (out : Outside) (mem : Memory) (o : AuthOutside) (l : Listener) (path : Bytes)
        (request : Request j out e) (w w' : World) (a a' : Auths) (reply : Reply)
        → dispatch j out mem e same o l path request w a ≡ some (ok (a', (reply, w')))
        → Step 1 w w'
    -- A request for a path of its evws.
    upgraded :
        (out : Outside) (mem : Memory) (o : AuthOutside) (cb : Option (Option Params))
        (h : Handshake) (request : Request j out e) (w w' : World) (a a' : Auths)
        (replies : List Reply)
        → evws_upgrade_http_cb_ j out mem e o cb h request w a ≡ ok (a', (replies, w'))
        → Step 0 w w'
    -- Bytes of a client, with the messages in them.
    readable :
        (wire : Wire) (status : Bool) (a : ℕ) (rs : List (Received j op)) (w w' : World)
        → evws_connection_read_cb_ j op wire status a rs w ≡ ok w'
        → Step (length rs) w w'
    -- The output of a connection that was told to close is written.
    drained : (a : ℕ) (w : World) → Step 0 w (evws_close_ a w)
    -- The end of a connection.
    ended :
        (wire : Wire) (events : Events) (a : ℕ) (w w' : World)
        → evws_connection_event_cb_ wire events a w ≡ ok w'
        → Step 0 w w'

  -- The worlds after `n` operations from the start on.
  pub data Reach : ℕ → World → Type 1 where
    started :
        (m : Manager) (servers : List Server)
        → m.detached ≡ []
        → Reach 0 (record {
          manager = record (manager_startup m) { servers = servers };
          connections = [];
        })
    stepped : (k n : ℕ) (w w' : World) → Reach n w → Step k w w' → Reach (k + n) w'

  dispatch-IsSound :
      (out : Outside) (mem : Memory) (o : AuthOutside) (l : Listener) (path : Bytes)
      (request : Request j out e) (n : ℕ) (w w' : World) (a a' : Auths) (reply : Reply)
      → n < size_mod
      → IsSound n w.manager
      → dispatch j out mem e same o l path request w a ≡ some (ok (a', (reply, w')))
      → IsSound (suc n) w'.manager
  unfolding dispatch
  dispatch-IsSound out mem o l path request n w w' a a' reply b s d =
      elim (Option-cases (route_at same path l.routes)) [
        | inl r ↦ let f = rw r at d in cc
        | inr (route, r) ↦
            let f = rw r at d in
            let q : serve j out mem e o route request w a ≡ ok (a', (reply, w')) = cc in
            yielded (a', (reply, w'))
              (subst (Yields (λ p. IsSound (suc n) p.1.1.manager)) q
                (serve-Leaves j out mem e o n route request w a b s))
      ]

  Step-IsSound :
      (k n : ℕ) (w w' : World)
      → k + n < size_mod
      → IsSound n w.manager
      → Step k w w'
      → IsSound (k + n) w'.manager
  Step-IsSound _ n _ _ b s (requested out mem o l path request w w' a a' reply d) =
      subst (λ x. IsSound x w'.manager) (omega arith)
        (dispatch-IsSound out mem o l path request n w w' a a' reply (omega (arith, b)) s d)
  Step-IsSound _ n _ _ b s (upgraded out mem o cb h request w w' a a' replies d) =
      subst (λ x. IsSound x w'.manager) (omega arith)
        (yielded (a', (replies, w'))
          (subst (Yields (λ p. IsSound n p.1.1.manager)) d
            (evws_upgrade_http_cb_-Upgrades j out mem e o cb h request n w a s)))
  Step-IsSound _ n _ _ b s (readable wire status a rs w w' d) = yielded w' (
      subst (Yields (λ v. IsSound (length rs + n) v.manager)) d
        (evws_connection_read_cb_-Keeps j op n wire status a rs w b s))
  Step-IsSound _ n _ _ b s (drained a w) =
      subst (λ x. IsSound x (evws_close_ a w).manager) (omega arith)
        (extend-IsSound s (evws_close_-Carries a w))
  Step-IsSound _ n _ _ b s (ended wire events a w w' d) =
      subst (λ x. IsSound x w'.manager) (omega arith)
        (yielded w' (
          subst (Yields (λ v. IsSound n v.manager)) d
            (evws_connection_event_cb_-Keeps n wire events a w s)))

  -- In every world that the server reaches from its start by callbacks of libevent that return
  -- (requests, upgrades, messages, drained outputs and ends of connections, in any order, with
  -- whatever the code outside answers), with fewer than 2^64 requests and messages: no item is
  -- outside the queues; in each queue the counters are those of its lists, every item is linked,
  -- unlocked and of an address that no other item of the queue has, no callback accepts an item of
  -- the queue, and every callback points to a want that is allocated.
  pub Reach-IsSound : (n : ℕ) (w : World) → n < size_mod → Reach n w → IsSound n w.manager
  unfolding manager_startup
  Reach-IsSound _ _ b (started m servers d) = record {
    none_held = d;
    wants_below = tt;
    queues_kept = tt;
  }
  Reach-IsSound _ _ b (stepped k n' v w r s) =
      Step-IsSound k n' v w b (Reach-IsSound n' v (omega (arith, b)) r) s
