-- ===== src/Connection/Http/Registered.antt =====
-- What connection_http_callback_delete_ does with the registry: it asks for the queue as
-- connection_http_callback_new_ does, with `create_new` set.
use disqueue.Base.{
  ℕ, suc, ◌<◌, true, false, none, some, List, [], ◌∷◌, ◌++◌, Bytes, codes, find, All, ok, ◌≡◌, refl,
  ap, ◌∙◌, arith, ==_refl, ◌==◌, sym, Bool-cases, inl, inr,
}
use mathlib.Core.Option.{some-injective}
use disqueue.Json.{JsonC}
use disqueue.Protocol.{created, protocol_create_success}
use disqueue.Queue.Ops.{queue_free, free_callbacks, free_items}
use disqueue.Queue.Counts.{Counts}
use disqueue.Queue.Release.{Owned, queue_free-Owned}
use disqueue.Manager.State.{Manager, ManagerQueue}
use disqueue.Manager.Uuid.{queue_get_uuid}
use disqueue.Manager.Uuid.RoundTrip.{IsUuid}
use disqueue.Manager.Wants.{manager_queue_want_remove}
use disqueue.Manager.Wants.Cancel.{Cancels, Cancels-wants, manager_queue_want_remove-Cancels}
use disqueue.Manager.Registry.{manager_queue_free, named, remove_queue, queue_at, focus}
use disqueue.Manager.Registry.Names.{
  HasMemory, made, with_made, length-queue_get_uuid, manager_queue_get-twice,
}
use disqueue.World.{World}
use disqueue.Connection.Wait.{Outside}
use disqueue.Connection.Http.{
  Evhttp, Memory, Request, connection_http_read_, connection_http_validate_, http_created, http_ok,
  connection_http_payload_, connection_http_json_, reply_of,
}
use disqueue.Connection.Http.Handlers.{connection_http_callback_delete_}
use disqueue.Connection.Http.Guards.{Reaches, with_queue-Reaches}
use disqueue.Connection.Http.Items.{shown}

-- Every queue of the registry has an address that was handed out.
abbrev pub QueuesBelow : ℕ → List ManagerQueue → Type 0
QueuesBelow n = All (λ x. x.addr < n)

remove_queue_last :
    (mq : ManagerQueue) (qs : List ManagerQueue)
    → QueuesBelow mq.addr qs
    → remove_queue mq.addr (qs ++ mq ∷ []) ≡ qs
unfolding remove_queue
remove_queue_last mq [] h = rw (==_refl mq.addr) refl
remove_queue_last mq (x ∷ xs) h =
    let differ : queue_at mq.addr x ≡ false = ground (arith, h.0) in
    rw (differ, remove_queue_last mq xs h.1) refl

free_made :
    (u : Bytes) (m m' : Manager)
    → QueuesBelow m.next m.queues
    → m'.queues ≡ m.queues ++ made 4 u m ∷ []
    → manager_queue_free (made 4 u m) m' ≡ ok (record m' { queues = m.queues })
unfolding manager_queue_free queue_free free_callbacks free_items
free_made u m m' h q =
    ap (λ qs. ok (record m' { queues = qs }))
      (ap (remove_queue m.next) q ∙ remove_queue_last (made 4 u m) m.queues h)

-- The list without this queue.
abbrev pub Without : ManagerQueue → List ManagerQueue → List ManagerQueue → Type 0
Without mq qs rest =
    (pre : List ManagerQueue) × ((post : List ManagerQueue) × ((qs ≡ pre ++ mq ∷ post)
        × (rest ≡ pre ++ post)))

remove_queue-Without :
    (mq : ManagerQueue) (qs : List ManagerQueue)
    → find (queue_at mq.addr) qs ≡ some mq
    → Without mq qs (remove_queue mq.addr qs)
unfolding find remove_queue
remove_queue-Without mq [] h = cc
remove_queue-Without mq (x ∷ xs) h = elim (Bool-cases (queue_at mq.addr x)) [
  | inl e ↦
      let same : x ≡ mq = some-injective x mq (sym (rw (e, find) refl) ∙ h) in
      ([], (xs, (ap (λ y. y ∷ xs) same, rw e refl)))
  | inr e ↦
      let (pre, (post, (l, r))) = remove_queue-Without mq xs (sym (rw (e, find) refl) ∙ h) in
      (x ∷ pre, (post, (ap (λ ys. x ∷ ys) l, rw e (ap (λ ys. x ∷ ys) r))))
]

module _ (j : JsonC) (out : Outside) (mem : Memory) (e : Evhttp) where
  open j use {Json}
  open e use {Params, find_header}

  -- The text of a response without a payload.
  pub record Acknowledges (text : Bytes) : Type 0 where
    pub response : Json
    pub wrapped : protocol_create_success j out.success none ≡ created response
    pub printed : j.print response ≡ some text

  payload-none :
      (text : Bytes)
      → Acknowledges text
      → connection_http_payload_ j out none ≡ ok (shown j out mem e text)
  unfolding connection_http_payload_ connection_http_json_
  payload-none text a =
      ap (http_created j out none) a.wrapped ∙ ap (λ t. ok (reply_of j out [] http_ok t)) a.printed

  -- Where `unsigned long` has 4 bytes and there is memory, deleting by an id that no queue has
  -- answers 200: a queue is made for the id and freed at once. The queues are as before; an address
  -- is used up, and the wants that name that address are cancelled.
  pub connection_http_callback_delete_-unknown :
      (request : Request j out e) (w : World) (params : Params) (u text : Bytes)
      → connection_http_read_ j out e request ≡ some params
      → find_header params (codes "name") ≡ some (queue_get_uuid 4 u)
      → out.platform.long ≡ 4
      → HasMemory out.platform
      → IsUuid u
      → find (named (queue_get_uuid 4 u)) w.manager.queues ≡ none
      → QueuesBelow w.manager.next w.manager.queues
      → Acknowledges text
      → connection_http_callback_delete_ j out mem e request w
        ≡ ok (
          shown j out mem e text,
          record w {
            manager = record (manager_queue_want_remove w.manager.next w.manager) {
              next = suc w.manager.next;
            };
          },
        )
  unfolding connection_http_callback_delete_ connection_http_validate_ manager_queue_want_remove
  connection_http_callback_delete_-unknown request w params u text r n l h v f b a =
      let got = manager_queue_get-twice out.platform u w.manager l h v f in
      rw (r, n, length-queue_get_uuid 4 u, got.0)
        (rw
          (free_made u w.manager
            (manager_queue_want_remove w.manager.next (with_made 4 u w.manager)) b refl)
          (rw (payload-none text a) refl))

  -- Deleting a queue whose counters are right and whose items no caller holds answers 200 where the
  -- reply can be made. The queue is out of the registry and the others keep their order; a want is
  -- cancelled if it waits on that queue or was cancelled before, and only then, and keeps its
  -- connection and identifier; neither the items that callers hold nor the connections change.
  pub connection_http_callback_delete_-known :
      (request : Request j out e) (w : World) (params : Params) (mq : ManagerQueue) (text : Bytes)
      → Reaches j out mem e request w params mq
      → Counts mq.q
      → Owned w.manager.detached mq.q.items
      → Acknowledges text
      → (w' : World) × (connection_http_callback_delete_ j out mem e request w
          ≡ ok (shown j out mem e text, w'))
        × Without mq w.manager.queues w'.manager.queues
        × Cancels (λ x. x.queue == mq.addr) w.manager w'.manager
        × (w'.manager.detached ≡ w.manager.detached)
        × (w'.connections ≡ w.connections)
  unfolding connection_http_callback_delete_ manager_queue_free
  connection_http_callback_delete_-known request w params mq text r v o a =
      let m : Manager = manager_queue_want_remove mq.addr w.manager in
      let (t, f, _, _, _, _, d, _, _) = queue_free-Owned (focus mq m) v o in
      let m' : Manager = record m {
        queues = remove_queue mq.addr m.queues;
        detached = t.detached;
        next = t.next;
      } in
      (
        record w { manager = m' },
        with_queue-Reaches j out mem e true _ request w params mq r
            ∙ rw f (rw (payload-none text a) refl),
        remove_queue-Without mq w.manager.queues r.located,
        Cancels-wants (λ x. x.queue == mq.addr) w.manager m m' refl
            (manager_queue_want_remove-Cancels mq.addr w.manager),
        d,
        refl,
      )
