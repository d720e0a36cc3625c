-- ===== src/Manager/Registry.antt =====
-- manager_queue_get, manager_queue_free and manager_queue_foreach of src/manager.c.
pub mod Names
use disqueue.Base.{
  ℕ, suc, ◌+◌, Bool, true, false, not, ◌&&◌, ◌||◌, Option, none, some, List, [], ◌∷◌, ◌++◌, Bytes,
  strcase_eq, ◌==◌, if◌then◌else◌, find, length, Result, ok, fault, ◌>>=◌, ◌≡◌, refl, codes, map,
  use_after_free,
}
use disqueue.Queue.State.{Item, Queue, Store}
use disqueue.Queue.Ops.{queue_new, queue_free}
use disqueue.Manager.State.{Manager, ManagerQueue}
use disqueue.Manager.Uuid.{queue_get_uuid}
use disqueue.Manager.Uuid.Scan.{parse_uuid}

abbrev pub uuid_str_len : ℕ
uuid_str_len = 36

-- What manager_queue_get meets outside: the size of `unsigned long`, the bytes on its stack, whether
-- the two calls of calloc succeed, and what RAND_bytes gives.
pub record Platform : Type 0 where
  pub long : ℕ
  pub stack : Bytes
  pub calloc_manager_queue : Bool
  pub calloc_queue : Bool
  pub random : Option Bytes

abbrev pub named : Bytes → ManagerQueue → Bool
named name mq = strcase_eq mq.id name

-- From `try to create a new manager queue` on.
unfoldable pub create : Platform → Option Bytes → Manager → Option ManagerQueue × Manager
unfolding queue_new
create p id m =
    if p.calloc_manager_queue
    then elim (queue_new id p.calloc_queue p.random) [
      | none ↦ (none, m)
      | some q ↦ (some (new q), record m { queues = m.queues ++ new q ∷ []; next = suc m.next })
    ]
    else (none, m)
  where
    new : Queue ℕ → ManagerQueue
    new q = record { addr = m.next; q = q; id = queue_get_uuid p.long q.uuid }

unfoldable pub manager_queue_get :
    Platform → Option Bytes → Bool → Manager → Option ManagerQueue × Manager
manager_queue_get p none create_new m = if create_new then create p none m else (none, m)
manager_queue_get p (some name) create_new m =
    if not (length name == uuid_str_len) then (none, m) else elim (find (named name) m.queues) [
      | some mq ↦ (some mq, m)
      | none ↦ if not create_new then (none, m) else elim (parse_uuid p.long p.stack name) [
        | none ↦ (none, m)
        | some u ↦ create p (some u) m
      ]
    ]

abbrev pub queue_at : ℕ → ManagerQueue → Bool
queue_at a mq = mq.addr == a

-- The registry with the queue at an address replaced, and without it.
unfoldable pub set_queue : ℕ → Queue ℕ → List ManagerQueue → List ManagerQueue
set_queue a q [] = []
set_queue a q (x ∷ xs) = if queue_at a x then record x { q = q } ∷ xs else x ∷ set_queue a q xs

unfoldable pub remove_queue : ℕ → List ManagerQueue → List ManagerQueue
remove_queue a [] = []
remove_queue a (x ∷ xs) = if queue_at a x then xs else x ∷ remove_queue a xs

-- The memory that queue.c reaches from one queue: `ext` is the rest of the manager.
abbrev pub focus : ManagerQueue → Manager → Store ℕ Manager
focus mq m = record { queue = mq.q; detached = m.detached; next = m.next; ext = m }

-- The manager once queue.c has returned.
abbrev pub unfocus : ℕ → Store ℕ Manager → Manager
unfocus a s = record s.ext {
  queues = set_queue a s.queue s.ext.queues;
  detached = s.detached;
  next = s.next;
}

unfoldable pub manager_queue_free : ManagerQueue → Manager → Result Manager
unfolding remove_queue
manager_queue_free mq m = do
  s ← queue_free (focus mq m)
  ok (record m { queues = remove_queue mq.addr m.queues; detached = s.detached; next = s.next })

-- The callback answers whether to go on; the result is whether every call did.
unfoldable pub manager_queue_foreach {ℓ} :
    {S : Type ℓ} → (ManagerQueue → S → Bool × S) → List ManagerQueue → S → Bool × S
manager_queue_foreach cb [] s = (true, s)
manager_queue_foreach cb (x ∷ xs) s =
    let (more, s') = cb x s in
    let rest = manager_queue_foreach cb xs s' in if more then rest else (false, s')
