-- ===== src/Ws/Messages/Waiting.antt =====
-- The messages that connections hold, while connection_ws_callback_wait runs.
use disqueue.Base.{
  returns, breaks, yields, by_test, Result-cases, ℕ, Bool, true, false, not, ◌&&◌, Option, none,
  some, Bytes, codes, if◌then◌else◌, Fault, Result, ok, fault, ◌>>=◌, ◌≡◌, refl, Bool-cases,
  Option-cases, inl, inr, subst, split_first, is_zero,
}
use disqueue.Json.{JsonC}
use disqueue.Protocol.{Created, created, failed, protocol_encode_item}
use disqueue.Queue.State.{Item, Store, item_matches}
use disqueue.Queue.Item.{load, queue_item_free, queue_item_free_}
use disqueue.Queue.Ops.{Status, queue_take, queue_wait, wait_after, may_match}
use disqueue.Queue.Ops
use disqueue.Manager.State.{Manager, ManagerQueue}
use disqueue.Manager.Wants.{
  load_want, manager_queue_want_new, manager_queue_want_is_cancelled,
  manager_queue_want_get_connection, manager_queue_want_get_identifier, manager_queue_want_free,
}
use disqueue.World.{World, focus_world, unfocus_world}
use disqueue.Connection.Wait.{
  Outside, connection_ws_error_, ws_created, connection_ws_payload_, send_detail, send_item, answer,
  connection_ws_read_, json_get_string, connection_queue_callback_wait_, waited, wait_on,
  connection_ws_callback_wait,
}
use disqueue.Ws.Framing.{joins-Kept, json-Kept, error-Kept}
use disqueue.Ws.Messages.{SameMessages, Keeps, same_of, SameMessages-IsFrame}

-- The same for what a queue reaches.
pub data KeptStore (w : World) (r : Result (Store ℕ World)) : Type 0 where
  leaves : (t : Store ℕ World) → r ≡ ok t → SameMessages w t.ext → KeptStore w r
  faults : (f : Fault) → r ≡ fault f → KeptStore w r

module _ (j : JsonC) (out : Outside) where
  open j use {Json}

  created-Kept : (a : ℕ) (c : Created j) (w : World) → Keeps w (ws_created j out a c w)
  created-Kept a (failed n) w = breaks _ refl
  created-Kept a (created o) w = json-Kept SameMessages-IsFrame j out a (created o) w

  detail-Kept :
      (a : ℕ) (response : Json) (detail : Option Json) (w : World)
      → Keeps w (send_detail j out a response detail w)
  unfolding connection_ws_payload_
  detail-Kept a response none w =
      error-Kept SameMessages-IsFrame j out a (codes "failed to add item") w
  detail-Kept a response (some detail) w =
      by_test (not (out.respond 3)) _ _
        (error-Kept SameMessages-IsFrame j out a (codes "failed to add item") w)
        (created-Kept a _ w)

  encoded-Kept :
      (a : ℕ) (response : Json) (item : Result Item) (w : World)
      → Keeps w (item >>= λ i. send_detail j out a response (protocol_encode_item j out.encode i) w)
  encoded-Kept a response (ok i) w = detail-Kept a response _ w
  encoded-Kept a response (fault f) w = breaks f refl

  send_item-Kept :
      (want : ℕ) (item : Result Item) (w : World) → Keeps w (send_item j out want item w)
  unfolding send_item manager_queue_want_get_connection manager_queue_want_get_identifier
  send_item-Kept want item w = elim (Result-cases (load_want want w.manager.wants)) [
    | inr (f, l) ↦ rw l (breaks f refl)
    | inl (x, l) ↦ rw l (
        by_test (not (out.respond 0)) _ _
          (error-Kept SameMessages-IsFrame j out x.client (codes "failed to create response") w)
          (by_test (not (out.respond 1 && out.respond 2)) _ _
            (error-Kept SameMessages-IsFrame j out x.client (codes "failed to add identifier") w)
            (encoded-Kept x.client (j.add j.object (codes "id") (some (j.string x.identifier))) item
              w)))
  ]

  freed-Kept :
      (w v : World) (r : Result Manager)
      → SameMessages w v
      → Keeps w (r >>= λ m. ok (record v { manager = m }))
  freed-Kept w v (ok m) s = yields _ s
  freed-Kept w v (fault f) s = breaks f refl

  answered-Kept :
      (want : ℕ) (w : World) (r : Result World)
      → Keeps w r
      → Keeps w
          (r >>= λ v. manager_queue_want_free want v.manager >>= λ m. ok (record v { manager = m }))
  answered-Kept want w r (returns v e s) =
      rw e (freed-Kept w v (manager_queue_want_free want v.manager) s)
  answered-Kept want w r (breaks f e) = rw e (breaks f refl)

  answer-Kept : (want : ℕ) (item : Result Item) (w : World) → Keeps w (answer j out want item w)
  unfolding answer manager_queue_want_is_cancelled
  answer-Kept want item w = elim (Result-cases (load_want want w.manager.wants)) [
    | inr (f, l) ↦ rw l (breaks f refl)
    | inl (x, l) ↦ rw l (
        answered-Kept want w (if x.cancelled then ok w else send_item j out want item w)
          (by_test x.cancelled _ _ (yields w (λ b. refl)) (send_item-Kept want item w)))
  ]

  -- What a queue leaves of the rest of the world.
  abbrev world_of : Result (Status × Store ℕ World) → Result World
  world_of r = r >>= λ p. ok p.1.ext

  -- Freeing an item leaves the world.
  freed_world :
      (a : ℕ) (s : Store ℕ World) (w : World)
      → SameMessages w s.ext
      → KeptStore w (queue_item_free a s)
  unfolding queue_item_free queue_item_free_
  freed_world a s w h = elim (Result-cases (load a s)) [
    | inr (f, l) ↦ rw l (faults f refl)
    | inl (x, l) ↦ rw l (elim (Bool-cases (is_zero x.lockcount)) [
      | inl z ↦ rw z (leaves _ refl h)
      | inr z ↦ rw z (leaves s refl h)
    ])
  ]

  freed_twice :
      (a : ℕ) (w : World) (r : Result (Store ℕ World))
      → KeptStore w r
      → Keeps w
          (world_of (r >>= λ called. queue_item_free a called >>= λ freed. ok (Ops.done, freed)))
  freed_twice a w r (faults f e) = rw e (breaks f refl)
  freed_twice a w r (leaves t e h) = rw e (once (queue_item_free a t) (freed_world a t w h))
    where
      once :
          (q : Result (Store ℕ World))
          → KeptStore w q
          → Keeps w (world_of (q >>= λ freed. ok (Ops.done, freed)))
      once q (faults f d) = rw d (breaks f refl)
      once q (leaves u d k) = rw d (yields u.ext k)

  delivered-Kept :
      (a : ℕ) (s : Store ℕ World) (w : World) (r : Result World)
      → Keeps w r
      → Keeps w (
          world_of (
            (r >>= λ v. queue_item_free a (record s { ext = v })) >>= λ called.
            queue_item_free a called >>= λ freed. ok (Ops.done, freed)))
  delivered-Kept a s w r (breaks f e) = rw e (breaks f refl)
  delivered-Kept a s w r (returns v e h) = rw e (
      freed_twice a w (queue_item_free a (record s { ext = v }))
        (freed_world a (record s { ext = v }) w h))

  wait_after-Kept :
      (key : Option Bytes) (want : ℕ) (mem : Bool) (r : Option Item × Store ℕ World)
      → Keeps r.1.ext (world_of (wait_after (connection_queue_callback_wait_ j out) key want mem r))
  unfolding wait_after connection_queue_callback_wait_
  wait_after-Kept key want true (none, s) = yields s.ext (λ b. refl)
  wait_after-Kept key want false (none, s) = yields s.ext (λ b. refl)
  wait_after-Kept key want mem (some item, s) =
      delivered-Kept item.addr s s.ext (answer j out want (load item.addr s) s.ext)
        (answer-Kept want (load item.addr s) s.ext)

  queue_take-ext : (key : Option Bytes) (s : Store ℕ World) → (queue_take key s).1.ext ≡ s.ext
  unfolding queue_take
  queue_take-ext key s =
      elim (Option-cases
        (if may_match key s.queue then split_first (item_matches key) s.queue.items else none)) [
          | inl n ↦ rw (n, queue_take) refl
          | inr (x, f) ↦ rw (f, queue_take) refl
        ]

  -- The world once queue_wait has returned: the queue changes nothing of the connections itself.
  wait-Kept :
      (key : Option Bytes) (want : ℕ) (mem : Bool) (s : Store ℕ World)
      → Keeps s.ext (world_of (queue_wait (connection_queue_callback_wait_ j out) key want mem s))
  unfolding queue_wait
  wait-Kept key want mem s =
      subst
        (λ v. Keeps v (
          world_of
            (wait_after (connection_queue_callback_wait_ j out) key want mem (queue_take key s))))
        (queue_take-ext key s) (wait_after-Kept key want mem (queue_take key s))

  told-Kept :
      (con : ℕ) (message : Bytes) (w v : World) (r : Result Manager)
      → SameMessages w v
      → Keeps w (r >>= λ m. connection_ws_error_ j out con message (record v { manager = m }))
  told-Kept con message w v (ok m) h =
      joins-Kept SameMessages-IsFrame w (record v { manager = m }) _ h
        (error-Kept SameMessages-IsFrame j out con message (record v { manager = m }))
  told-Kept con message w v (fault f) h = breaks f refl

  waited-Kept :
      (con mq want : ℕ) (w : World) (r : Result (Status × Store ℕ World))
      → Keeps w (world_of r)
      → Keeps w (waited j out con mq want r)
  unfolding waited
  waited-Kept con mq want w (fault f) k = breaks f refl
  waited-Kept con mq want w (ok (Ops.pending, s)) k =
      yields (unfocus_world mq s) (same_of w s.ext k)
  waited-Kept con mq want w (ok (Ops.done, s)) k = yields (unfocus_world mq s) (same_of w s.ext k)
  waited-Kept con mq want w (ok (Ops.failed, s)) k =
      told-Kept con (codes "failed to wait for want") w (unfocus_world mq s)
        (manager_queue_want_free want (unfocus_world mq s).manager) (same_of w s.ext k)

  wanted-Kept :
      (con : ℕ) (key : Option Bytes) (mq : ManagerQueue) (w : World) (r : Option ℕ × Manager)
      → Keeps w (elim r.0 [
        | none ↦ connection_ws_error_ j out con (codes "failed to create want") w
        | some a ↦ waited j out con mq.addr a (
            queue_wait
              (connection_queue_callback_wait_ j out)
              key
              a
              out.callback_memory
              (focus_world mq (record w { manager = r.1 })))
      ])
  wanted-Kept con key mq w (none, m) =
      error-Kept SameMessages-IsFrame j out con (codes "failed to create want") w
  wanted-Kept con key mq w (some a, m) =
      let v = record w { manager = m } in
      joins-Kept SameMessages-IsFrame w v _ (λ b. refl)
        (waited-Kept con mq.addr a v _ (wait-Kept key a out.callback_memory (focus_world mq v)))

  wait_on-Kept :
      (con : ℕ) (id : Bytes) (key : Option Bytes) (r : Option ManagerQueue × Manager) (w : World)
      → Keeps w (wait_on j out con id key r w)
  unfolding wait_on
  wait_on-Kept con id key (none, m) w =
      error-Kept SameMessages-IsFrame j out con (codes "queue not found") w
  wait_on-Kept con id key (some mq, m) w =
      wanted-Kept con key mq w (manager_queue_want_new id con mq.addr out.want_memory m)

  -- A message that waits for an item leaves the messages of all connections alone.
  pub connection_ws_callback_wait-Kept :
      (con : ℕ) (body : Bytes) (w : World) → Keeps w (connection_ws_callback_wait j out con body w)
  unfolding connection_ws_callback_wait
  connection_ws_callback_wait-Kept con body w =
      elim (Option-cases (connection_ws_read_ j out body)) [
        | inl n ↦
            rw (n, connection_ws_callback_wait)
              (error-Kept SameMessages-IsFrame j out con (codes "failed to read message") w)
        | inr (request, r) ↦
            rw (r, connection_ws_callback_wait)
              (elim (Option-cases (json_get_string j out request (codes "identifier"))) [
                | inl n ↦ rw n (error-Kept SameMessages-IsFrame j out con (codes "no identifier") w)
                | inr (id, i) ↦ rw i (wait_on-Kept con id _ _ w)
              ])
      ]
