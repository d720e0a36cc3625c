-- ===== src/Manager/Registry/Names.antt =====
-- What a name is to the registry: the queue that is found by it, and the queue that is made for it.
use disqueue.Base.{
  ℕ, suc, Bool, true, false, none, some, [], ◌∷◌, ◌++◌, Bytes, strcase_eq, strcase_eq_refl, find,
  find-append_one, length, ◌≡◌, refl, ◌∙◌, sym, subst, ap,
}
use disqueue.Queue.Ops.{queue_new, empty_queue}
use disqueue.Manager.State.{Manager, ManagerQueue}
use disqueue.Manager.Uuid.{queue_get_uuid, hex_digits}
use disqueue.Manager.Uuid.Scan.{parse_uuid}
use disqueue.Manager.Uuid.RoundTrip.{IsUuid, cleared, parse_uuid-queue_get_uuid, parse_uuid_long}
use disqueue.Manager.Registry.{Platform, create, manager_queue_get, named}

pub length-queue_get_uuid : (long : ℕ) (u : Bytes) → length (queue_get_uuid long u) ≡ 36
unfolding queue_get_uuid hex_digits
length-queue_get_uuid long u = refl

-- The queue that is made for an id.
abbrev pub made : ℕ → Bytes → Manager → ManagerQueue
made long u m = record { addr = m.next; q = empty_queue u; id = queue_get_uuid long u }

abbrev pub with_made : ℕ → Bytes → Manager → Manager
with_made long u m = record m { queues = m.queues ++ made long u m ∷ []; next = suc m.next }

-- Both calls of calloc succeed, and the buffer on the stack has its 16 bytes.
pub record HasMemory (p : Platform) : Type 0 where
  pub manager_queue_ok : p.calloc_manager_queue ≡ true
  pub queue_ok : p.calloc_queue ≡ true
  pub stack_sixteen : length p.stack ≡ 16

pub get_unknown :
    (p : Platform) (name u : Bytes) (m : Manager)
    → HasMemory p
    → length name ≡ 36
    → find (named name) m.queues ≡ none
    → parse_uuid p.long p.stack name ≡ some u
    → manager_queue_get p (some name) true m ≡ (some (made p.long u m), with_made p.long u m)
unfolding manager_queue_get create queue_new
get_unknown p name u m h l f e =
    rw (l, manager_queue_get)
      (rw (f, manager_queue_get)
        (rw (e, manager_queue_get) (rw (h.manager_queue_ok, h.queue_ok, create) refl)))

get_known :
    (p : Platform) (name : Bytes) (c : Bool) (m : Manager) (mq : ManagerQueue)
    → length name ≡ 36
    → find (named name) m.queues ≡ some mq
    → manager_queue_get p (some name) c m ≡ (some mq, m)
unfolding manager_queue_get
get_known p name c m mq l f = rw (l, manager_queue_get) (rw (f, manager_queue_get) refl)

get_missing :
    (p : Platform) (name : Bytes) (m : Manager)
    → length name ≡ 36
    → find (named name) m.queues ≡ none
    → manager_queue_get p (some name) false m ≡ (none, m)
unfolding manager_queue_get
get_missing p name m l f = rw (l, manager_queue_get) (rw (f, manager_queue_get) refl)

-- Where `unsigned long` has 4 bytes and there is memory, a queue that is made by the name of an id,
-- which no queue had, has that name, and the same name finds it from then on, with or without
-- `create_new`; a second call makes no other.
pub manager_queue_get-twice :
    (p : Platform) (u : Bytes) (m : Manager)
    → p.long ≡ 4
    → HasMemory p
    → IsUuid u
    → find (named (queue_get_uuid 4 u)) m.queues ≡ none
    → (manager_queue_get p (some (queue_get_uuid 4 u)) true m
        ≡ (some (made 4 u m), with_made 4 u m))
      × ((c : Bool)
          → manager_queue_get p (some (queue_get_uuid 4 u)) c (with_made 4 u m)
            ≡ (some (made 4 u m), with_made 4 u m))
manager_queue_get-twice p u m e h v f =
    let name : Bytes = queue_get_uuid 4 u in
    let l = length-queue_get_uuid 4 u in
    (
      get_unknown p name u m h l f (
            subst (λ k. parse_uuid k p.stack name ≡ some u) (sym e)
              (parse_uuid-queue_get_uuid p.stack u h.stack_sixteen v))
          ∙ ap (λ k. (some (made k u m), with_made k u m)) e,
      λ c.
          get_known p name c (with_made 4 u m) (made 4 u m) l
            (find-append_one (named name) m.queues (made 4 u m) f ∙ rw (strcase_eq_refl name) refl),
    )

-- Where `unsigned long` has 8 bytes and there is memory, take the name of an id that no queue has,
-- and that differs from the name of the id with bytes 4 to 7 set to 0. The queue that is made by it
-- has the other name: the name does not find it, and a second call makes a second queue, with the
-- same name as the first.
pub manager_queue_get-long :
    (p : Platform) (u : Bytes) (m : Manager)
    → p.long ≡ 8
    → HasMemory p
    → IsUuid u
    → find (named (queue_get_uuid 8 u)) m.queues ≡ none
    → strcase_eq (queue_get_uuid 8 (cleared u)) (queue_get_uuid 8 u) ≡ false
    → let m' = with_made 8 (cleared u) m in
      (manager_queue_get p (some (queue_get_uuid 8 u)) true m ≡ (some (made 8 (cleared u) m), m'))
      × (manager_queue_get p (some (queue_get_uuid 8 u)) false m' ≡ (none, m'))
      × (manager_queue_get p (some (queue_get_uuid 8 u)) true m'
          ≡ (some (made 8 (cleared u) m'), with_made 8 (cleared u) m'))
manager_queue_get-long p u m e h v f d =
    let name : Bytes = queue_get_uuid 8 u in
    let l = length-queue_get_uuid 8 u in
    let m' = with_made 8 (cleared u) m in
    let parsed : parse_uuid p.long p.stack name ≡ some (cleared u) =
      subst (λ k. parse_uuid k p.stack name ≡ some (cleared u)) (sym e)
        (parse_uuid_long p.stack u h.stack_sixteen v) in
    let f' : find (named name) m'.queues ≡ none =
      find-append_one (named name) m.queues (made 8 (cleared u) m) f ∙ rw d refl in
    (
      get_unknown p name (cleared u) m h l f parsed
          ∙ ap (λ k. (some (made k (cleared u) m), with_made k (cleared u) m)) e,
      get_missing p name m' l f',
      get_unknown p name (cleared u) m' h l f' parsed
          ∙ ap (λ k. (some (made k (cleared u) m'), with_made k (cleared u) m')) e,
    )
