-- ===== src/System/Lookup.antt =====
-- manager_queue_get and manager_queue_free on a registry whose queues are kept.
use disqueue.Base.{
  ℕ, suc, ◌≡◌, refl, sym, subst, ◌∙◌, Bool, true, false, not, if◌then◌else◌, Option, none, some,
  List, [], ◌∷◌, Bytes, ◌==◌, length, arith, All, All-append, find, Bool-cases, Option-cases, inl,
  inr, Yields, yields,
}
use disqueue.Queue.State.{Item, Queue}
use disqueue.Queue.Ops.{empty_queue, queue_new, uuid4}
use disqueue.Queue.Release.{Owned, queue_free-Owned}
use disqueue.Manager.State.{Manager, ManagerQueue, Want}
use disqueue.Manager.Uuid.Scan.{parse_uuid}
use disqueue.Manager.Registry.{
  Platform, create, manager_queue_get, manager_queue_free, named, remove_queue, focus,
}
use disqueue.System.Sound.{
  IsStored, IsKept, AllKept, IsSound, WantsBelow, wants_grow, stay, grow-AllKept,
  remove_queue-AllKept,
}

-- A queue that was found is kept, and so is the registry.
abbrev pub Finds : ℕ → Option ManagerQueue × Manager → Type 0
Finds n (none, m) = IsSound n m
Finds n (some mq, m) = IsKept n m.next m.wants mq.q × IsSound n m

empty_queue-IsKept : (n a : ℕ) (u : List Want) (id : Bytes) → IsKept n a u (empty_queue id)
empty_queue-IsKept n a u id = record {
  inv = record {
    counts = omega arith;
    quiet = tt;
    items_bounded = omega arith;
    callbacks_bounded = omega arith;
  };
  waiting = tt;
  stored = tt;
  distinct = tt;
}

abbrev MadeKept : ℕ → ℕ → List Want → Option (Queue ℕ) → Type 0
MadeKept n a u none = Unit
MadeKept n a u (some q) = IsKept n a u q

queue_new-MadeKept :
    (n a : ℕ) (u : List Want) (id : Option Bytes) (calloc_ok : Bool) (random : Option Bytes)
    → MadeKept n a u (queue_new id calloc_ok random)
unfolding queue_new
queue_new-MadeKept n a u id false random = tt
queue_new-MadeKept n a u (some id) true random = empty_queue-IsKept n a u id
queue_new-MadeKept n a u none true none = tt
queue_new-MadeKept n a u none true (some r) = empty_queue-IsKept n a u (uuid4 r)

create-Finds :
    (n : ℕ) (p : Platform) (id : Option Bytes) (m : Manager) → IsSound n m → Finds n (create p id m)
unfolding create
create-Finds n p id m s = elim (Bool-cases p.calloc_manager_queue) [
  | inr c ↦ rw c s
  | inl c ↦ rw c (elim (Option-cases (queue_new {C = ℕ} id p.calloc_queue p.random)) [
    | inl o ↦ rw o s
    | inr (q, o) ↦
        let k = queue_new-MadeKept n (suc m.next) m.wants id p.calloc_queue p.random in
        let made = subst (MadeKept n (suc m.next) m.wants) o k in
        rw o (
          made,
          record {
            none_held = s.none_held;
            wants_below = wants_grow m.next (suc m.next) m.wants (omega arith) s.wants_below;
            queues_kept =
                All-append (λ mq. IsKept n (suc m.next) m.wants mq.q) m.queues _
                  (grow-AllKept n m.next (suc m.next) m.wants m.wants m.queues (omega arith)
                    (stay m.wants) s.queues_kept)
                  (made, tt);
          },
        )
  ])
]

pub find-AllKept :
    (n a : ℕ) (u : List Want) (p : ManagerQueue → Bool) (qs : List ManagerQueue) (mq : ManagerQueue)
    → AllKept n a u qs
    → find p qs ≡ some mq
    → IsKept n a u mq.q
unfolding find
find-AllKept n a u p [] mq h f = cc
find-AllKept n a u p (x ∷ xs) mq h f = elim (Bool-cases (p x)) [
  | inl e ↦ let d = rw e at f in let same : x ≡ mq = cc in subst (λ y. IsKept n a u y.q) same h.0
  | inr e ↦ find-AllKept n a u p xs mq h.1 (rw e at f)
]

pub manager_queue_get-Finds :
    (n : ℕ) (p : Platform) (name : Option Bytes) (create_new : Bool) (m : Manager)
    → IsSound n m
    → Finds n (manager_queue_get p name create_new m)
unfolding manager_queue_get
manager_queue_get-Finds n p none false m s = s
manager_queue_get-Finds n p none true m s = create-Finds n p none m s
manager_queue_get-Finds n p (some name) create_new m s =
    elim (Bool-cases (not (length name == 36))) [
      | inl l ↦ rw l s
      | inr l ↦ rw l (elim (Option-cases (find (named name) m.queues)) [
        | inr (mq, f) ↦
            rw f (find-AllKept n m.next m.wants (named name) m.queues mq s.queues_kept f, s)
        | inl f ↦ rw f (missing create_new)
      ])
    ]
  where
    missing :
        (c : Bool)
        → Finds n (
            if not c then (none, m) else elim (parse_uuid p.long p.stack name) [
              | none ↦ (none, m)
              | some u ↦ create p (some u) m
            ])
    missing false = s
    missing true = elim (Option-cases (parse_uuid p.long p.stack name)) [
      | inl o ↦ rw o s
      | inr (u, o) ↦ rw o (create-Finds n p (some u) m s)
    ]

stored-Owned : (a : ℕ) (xs : List Item) → All (IsStored a) xs → Owned [] xs
unfolding find
stored-Owned a [] h = tt
stored-Owned a (x ∷ xs) h = ((h.0.linked, refl), stored-Owned a xs h.1)

-- Freeing a queue of a sound registry returns, and leaves a sound one.
pub manager_queue_free-IsSound :
    (n : ℕ) (mq : ManagerQueue) (m : Manager)
    → IsKept n m.next m.wants mq.q
    → IsSound n m
    → Yields (IsSound n) (manager_queue_free mq m)
unfolding manager_queue_free
manager_queue_free-IsSound n mq m k s =
    let owned : Owned m.detached mq.q.items =
      subst (λ d. Owned d mq.q.items) (sym s.none_held) (stored-Owned m.next mq.q.items k.stored) in
    let (t, f, _, _, _, _, d, _, g) = queue_free-Owned (focus mq m) k.inv.counts owned in
    rw f (
      yields _ (record {
        none_held = d ∙ s.none_held;
        wants_below = subst (λ a. WantsBelow a m.wants) (sym g) s.wants_below;
        queues_kept =
            subst (λ a. AllKept n a m.wants (remove_queue mq.addr m.queues)) (sym g)
              (remove_queue-AllKept n m.next m.wants mq.addr m.queues s.queues_kept);
      }))
