-- ===== src/System/Guards.antt =====
-- What stands before the body of a handler of src/connection-http.c, on a sound registry.
use disqueue.Base.{
  ℕ, suc, Bool, true, false, Option, none, some, Bytes, codes, ok, Option-cases, Bool-cases, inl,
  inr, Yields, yields,
}
use disqueue.Json.{JsonC}
use disqueue.Manager.State.{Manager, ManagerQueue}
use disqueue.Manager.Registry.{manager_queue_get}
use disqueue.World.{World}
use disqueue.Connection.Wait.{Outside}
use disqueue.Connection.Http.{
  Evhttp, Reply, Memory, connection_http_validate_, Request, connection_http_read_, looked_up,
  is_invalid,
}
use disqueue.Connection.Http.Handlers.{Answer, with_queue, validated}
use disqueue.System.Sound.{IsKept, IsSound, suc-IsSound}
use disqueue.System.Lookup.{Finds, manager_queue_get-Finds}

module _ (j : JsonC) (out : Outside) (mem : Memory) (e : Evhttp) where
  open e use {Params}

  -- If a handler answers, the registry is sound after it.
  abbrev pub Leaves : ℕ → Answer j out mem e → Type 0
  Leaves n = Yields (λ p. IsSound n p.1.manager)

  -- A property of what a handler comes to, of every answer from a sound registry and of its body.
  record Covers (P : Answer j out mem e → Type 0) (n : ℕ)
      (body : ManagerQueue → World → Answer j out mem e) : Type 0 where
    refuses : (reply : Reply) (w : World) → IsSound n w.manager → P (ok (reply, w))
    serves :
        (mq : ManagerQueue) (w : World)
        → IsKept n w.manager.next w.manager.wants mq.q
        → IsSound n w.manager
        → P (body mq w)

  module _ (P : Answer j out mem e → Type 0) (n : ℕ) where
    looked_up-Covers :
        (body : ManagerQueue → World → Answer j out mem e) (create_new : Bool) (w : World)
        (r : Option ManagerQueue × Manager)
        → Covers P n body
        → Finds n r
        → P (validated j out mem e body (looked_up j out create_new w r))
    looked_up-Covers body create_new w (some mq, m) h f =
        h.serves mq (record w { manager = m }) f.0 f.1
    looked_up-Covers body true w (none, m) h f = h.refuses _ (record w { manager = m }) f
    looked_up-Covers body false w (none, m) h f = h.refuses _ (record w { manager = m }) f

    validate-Covers :
        (body : ManagerQueue → World → Answer j out mem e) (create_new : Bool) (name : Option Bytes)
        (w : World)
        → Covers P n body
        → IsSound n w.manager
        → P (validated j out mem e body (connection_http_validate_ j out create_new name w))
    unfolding connection_http_validate_
    validate-Covers body create_new name w h s = elim (Bool-cases (is_invalid j out name)) [
      | inl i ↦ rw i (h.refuses _ w s)
      | inr i ↦ rw i (
          looked_up-Covers body create_new w
            (manager_queue_get out.platform name create_new w.manager) h
            (manager_queue_get-Finds n out.platform name create_new w.manager s))
    ]

    pub with_queue-Covers :
        (create_new : Bool) (body : Params → ManagerQueue → World → Answer j out mem e)
        (request : Request j out e) (w : World)
        → ((reply : Reply) (v : World) → IsSound n v.manager → P (ok (reply, v)))
        → ((params : Params) (mq : ManagerQueue) (v : World)
            → IsKept n v.manager.next v.manager.wants mq.q
            → IsSound n v.manager
            → P (body params mq v))
        → IsSound n w.manager
        → P (with_queue j out mem e create_new body request w)
    with_queue-Covers create_new body request w refuses serves s =
        elim (Option-cases (connection_http_read_ j out e request)) [
          | inl r ↦ rw r (refuses _ w s)
          | inr (params, r) ↦ rw r (
              validate-Covers (body params) create_new (e.find_header params (codes "name")) w
                (record { refuses = refuses; serves = serves params }) s)
        ]

  -- A handler keeps the registry sound if its body does on a queue that is kept.
  pub with_queue-Leaves :
      (n : ℕ) (create_new : Bool) (body : Params → ManagerQueue → World → Answer j out mem e)
      (request : Request j out e) (w : World)
      → IsSound n w.manager
      → ((params : Params) (mq : ManagerQueue) (v : World)
          → IsKept n v.manager.next v.manager.wants mq.q
          → IsSound n v.manager
          → Leaves (suc n) (body params mq v))
      → Leaves (suc n) (with_queue j out mem e create_new body request w)
  with_queue-Leaves n create_new body request w s h =
      with_queue-Covers (Leaves (suc n)) n create_new body request w
        (λ reply v t. yields (reply, v) (suc-IsSound t)) h s
