-- ===== src/System/RoundTrip.antt =====
-- A value that one client puts and another takes, over HTTP, in a world that the server has reached.
use disqueue.Base.{
  ℕ, suc, ◌+◌, ◌<◌, ◌≡◌, refl, subst, ap, ◌∙◌, Bool, true, false, Option, none, some, List, [], ◌∷◌,
  ◌++◌, Bytes, codes, arith, All, inl, inr, ok, find, length-append, Bool-cases, ==_refl,
}
use disqueue.Json.{JsonC}
use disqueue.Protocol.{created, protocol_create_success}
use disqueue.Queue.State.{Item, Queue, size_mod, item_matches, callback_accepts}
use disqueue.Queue.Ops.{insert_item, remove_item}
use disqueue.Queue.Counts.{Counts, insert_item-Counts}
use disqueue.Queue.First.{new_item, queued_store, has_memory}
use disqueue.Queue.RoundTrip.{item_matches-inserted, remove_item-insert_item}
use disqueue.Manager.State.{ManagerQueue}
use disqueue.Manager.Registry.{named, queue_at, set_queue}
use disqueue.World.{World, focus_world, unfocus_world}
use disqueue.Connection.Wait.{Outside}
use disqueue.Connection.Http.{Evhttp, Memory, Request}
use disqueue.Connection.Http.Handlers.{connection_http_callback_take, connection_http_callback_put}
use disqueue.Connection.Http.Guards.{Reaches, set_queue_same}
use disqueue.Connection.Http.Items.{
  key_of, Shows, shown, connection_http_callback_take-first, connection_http_callback_put-kept,
}
use disqueue.Ws.Receive.{Opcodes}
use disqueue.System.Lookup.{find-AllKept}
use disqueue.System.Reachable.{Reach, Reach-IsSound}

found_passes : {A : Type 0} (p : A → Bool) (xs : List A) (x : A) → find p xs ≡ some x → p x ≡ true
unfolding find
found_passes p [] x h = cc
found_passes p (y ∷ xs) x h = elim (Bool-cases (p y)) [
  | inl e ↦ let d = rw e at h in let same : y ≡ x = cc in subst (λ z. p z ≡ true) same e
  | inr e ↦ found_passes p xs x (rw e at h)
]

-- The queue at an address is replaced where it stands, whatever it is found by but its contents.
find-set_queue :
    (p : ManagerQueue → Bool) (mq : ManagerQueue) (q : Queue ℕ) (qs : List ManagerQueue)
    → ((x : ManagerQueue) → p (record x { q = q }) ≡ p x)
    → find p qs ≡ some mq
    → find (queue_at mq.addr) qs ≡ some mq
    → find p (set_queue mq.addr q qs) ≡ some (record mq { q = q })
unfolding find set_queue
find-set_queue p mq q [] k f l = cc
find-set_queue p mq q (x ∷ xs) k f l = elim (Bool-cases (queue_at mq.addr x)) [
  | inl a ↦
      let d = rw a at l in
      let same : x ≡ mq = cc in
      let passes : p (record mq { q = q }) ≡ true = k mq ∙ found_passes p (x ∷ xs) mq f in
      rw (a, same, passes) refl
  | inr a ↦ elim (Bool-cases (p x)) [
    | inl e ↦
        let d = rw e at f in
        let same : x ≡ mq = cc in
        let no : queue_at mq.addr mq ≡ false = subst (λ z. queue_at mq.addr z ≡ false) same a in
        let yes = ==_refl mq.addr in absurd cc
    | inr e ↦ rw (a, e) (find-set_queue p mq q xs k (rw e at f) (rw a at l))
  ]
]

set_queue_back :
    (a : ℕ) (q q' : Queue ℕ) (qs : List ManagerQueue)
    → set_queue a q' (set_queue a q qs) ≡ set_queue a q' qs
unfolding set_queue
set_queue_back a q q' [] = refl
set_queue_back a q q' (x ∷ xs) = elim (Bool-cases (queue_at a x)) [
  | inl e ↦ rw (e, e) refl
  | inr e ↦ rw (e, e) (ap (λ ys. x ∷ ys) (set_queue_back a q q' xs))
]

-- Once the new item is out of its queue again, the registry is as it was.
restored :
    {mq : ManagerQueue}
    → Counts mq.q
    → (item : Item) (qs : List ManagerQueue) → find (queue_at mq.addr) qs ≡ some mq
    → set_queue mq.addr
        (remove_item item (mq.q.items ++ []) (insert_item item mq.q))
        (set_queue mq.addr (insert_item item mq.q) qs)
      ≡ qs
restored {mq} v item qs l =
    ap (λ q. set_queue mq.addr q (set_queue mq.addr (insert_item item mq.q) qs))
      (remove_item-insert_item v item)
    ∙ set_queue_back mq.addr (insert_item item mq.q) mq.q qs
    ∙ set_queue_same mq.addr mq qs l

module _ (j : JsonC) (out : Outside) (mem : Memory) (e : Evhttp) where
  open j use {Json}
  open e use {Params, find_header}

  abbrev put_world : Option Bytes → Bytes → ManagerQueue → World → World
  put_world key value mq w = unfocus_world mq.addr (queued_store key value (focus_world mq w))

  -- The queue with the new item behind all others.
  abbrev filled : Option Bytes → Bytes → ManagerQueue → World → ManagerQueue
  filled key value mq w = record mq { q = (queued_store key value (focus_world mq w)).queue }

  put-Reaches :
      (request : Request j out e) (w : World) (params : Params) (mq : ManagerQueue)
      (key : Option Bytes) (value : Bytes)
      → Reaches j out mem e request w params mq
      → Reaches j out mem e request (put_world key value mq w) params (filled key value mq w)
  put-Reaches request w params mq key value r =
      let q = (queued_store key value (focus_world mq w)).queue in
      record {
        is_read = r.is_read;
        name = r.name;
        has_name = r.has_name;
        name_sized = r.name_sized;
        name_found =
            find-set_queue (named r.name) mq q w.manager.queues (λ x. refl) r.name_found r.located;
        located =
            find-set_queue (queue_at mq.addr) mq q w.manager.queues (λ x. refl) r.located r.located;
      }

  module _ (op : Opcodes) (same : Bytes → Bytes → Bool) where
    -- In a world that the server reaches with fewer than 2^64 - 1 requests and messages: a put to a
    -- queue whose callbacks do not accept the key is answered by 200, if there is memory and the
    -- reply can be made; a take from that queue, by a key that fits the new item and no other item,
    -- is then answered by 200 with the new item, if it can be shown. After both, everything is as
    -- it was before, but for the one address that was handed out.
    pub connection_http_callback_put-take :
        (n : ℕ) (w : World) (putting taking : Request j out e) (params by : Params)
        (mq : ManagerQueue) (value text acknowledged : Bytes) (response : Json)
        → n + 1 < size_mod
        → Reach j op e same n w
        → Reaches j out mem e putting w params mq
        → Reaches j out mem e taking w by mq
        → find_header params (codes "value") ≡ some value
        → has_memory (key_of j out mem e params) mem.item ≡ true
        → All (λ c. callback_accepts (key_of j out mem e params) c ≡ false) mq.q.callbacks
        → All (λ x. item_matches (key_of j out mem e by) x ≡ false) mq.q.items
        → let item : Item = new_item w.manager.next (key_of j out mem e params) value in
          item_matches (key_of j out mem e by) item ≡ true
          → protocol_create_success j out.success none ≡ created response
          → j.print response ≡ some acknowledged
          → Shows j out mem e item text
          → (v : World) × (connection_http_callback_put j out mem e putting w
              ≡ ok (shown j out mem e acknowledged, v))
            × (connection_http_callback_take j out mem e taking v
                ≡ ok (
                  shown j out mem e text,
                  record w { manager = record w.manager { next = suc w.manager.next } },
                ))
    connection_http_callback_put-take n w putting taking params by mq value text acknowledged
          response b r g t hv m u none_fits fits made printed sh =
        let s = Reach-IsSound j op e same n w (omega (arith, b)) r in
        let key = key_of j out mem e params in
        let k =
          find-AllKept n w.manager.next w.manager.wants (named g.name) w.manager.queues mq
            s.queues_kept g.name_found in
        let v = put_world key value mq w in
        let item : Item = record (new_item w.manager.next key value) { inserted = true } in
        (
          v,
          connection_http_callback_put-kept j out mem e putting w params mq value acknowledged
              response g hv k.inv.counts (omega (arith, k.inv.callbacks_bounded, b)) m u made
              printed,
          connection_http_callback_take-first j out mem e taking v by (filled key value mq w) item
                mq.q.items [] text (put-Reaches taking w by mq key value t)
                (insert_item-Counts k.inv.counts item)
                (omega (arith, length-append mq.q.items (item ∷ []), k.inv.items_bounded, b)) refl
                none_fits
                (item_matches-inserted (key_of j out mem e by) (new_item w.manager.next key value)
                    true
                  ∙ fits)
                refl sh
              ∙ ap
                  (λ qs. ok (
                    shown j out mem e text,
                    record w {
                      manager = record w.manager { queues = qs; next = suc w.manager.next };
                    },
                  ))
                  (restored k.inv.counts item w.manager.queues g.located),
        )
