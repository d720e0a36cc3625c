-- ===== src/System/Sound.antt =====
-- What holds of the registry and its queues between two callbacks of the event loop.
use disqueue.Base.{
  ℕ, suc, ◌<◌, ◌≤◌, ◌≡◌, sym, subst, true, false, List, [], ◌∷◌, ◌++◌, arith, All, All-append,
  All-split, some, ok, pos, zero, Bool-cases, inl, inr,
}
use disqueue.Queue.State.{Item, Callback, Queue, Store, item_matches}
use disqueue.Queue.Ops.{insert_item, insert_callback, remove_item}
use disqueue.Queue.Borrow.{AddrsBelow}
use disqueue.Queue.Distinct.{IsDistinct, append-IsDistinct, split-IsDistinct}
use disqueue.Queue.Invariant.{Inv, suc-Inv, insert_callback-Inv, remove_item-Inv}
use disqueue.Manager.State.{Manager, ManagerQueue, Want}
use disqueue.Manager.Wants.{load_want}
use disqueue.Manager.Registry.{queue_at, set_queue, remove_queue}
use disqueue.World.{World, unfocus_world}

-- An item that its queue alone holds, and whose address was handed out.
pub record IsStored (next : ℕ) (x : Item) : Type 0 where
  pub below : x.addr < next
  pub linked : x.inserted ≡ true
  pub unlocked : x.lockcount ≡ pos zero

-- A callback whose argument points to a want of the manager.
abbrev pub HasWant : List Want → Callback ℕ → Type 0
HasWant wants c = (a : ℕ) × (c.addcb ≡ some a) × (x : Want) × (load_want a wants ≡ ok x)

-- A queue of the registry after at most `n` operations.
pub record IsKept (n next : ℕ) (wants : List Want) (q : Queue ℕ) : Type 0 where
  pub inv : Inv n q
  pub waiting : All (HasWant wants) q.callbacks
  pub stored : All (IsStored next) q.items
  pub distinct : IsDistinct q.items

abbrev pub AllKept : ℕ → ℕ → List Want → List ManagerQueue → Type 0
AllKept n next wants = All (λ mq. IsKept n next wants mq.q)

abbrev pub WantsBelow : ℕ → List Want → Type 0
WantsBelow next = All (λ x. x.addr < next)

-- No item is outside the queues, and no callback that waits has a dangling want.
pub record IsSound (n : ℕ) (m : Manager) : Type 0 where
  pub none_held : m.detached ≡ []
  pub wants_below : WantsBelow m.next m.wants
  pub queues_kept : AllKept n m.next m.wants m.queues

-- Every pointer that leads to a want still does.
abbrev pub Stay : List Want → List Want → Type 0
Stay wants wants' =
    (a : ℕ) (x : Want) → load_want a wants ≡ ok x → (y : Want) × (load_want a wants' ≡ ok y)

-- What the operations on wants and connections may change.
pub record Extends (m m' : Manager) : Type 0 where
  pub same_queues : m'.queues ≡ m.queues
  pub same_detached : m'.detached ≡ m.detached
  pub next_grows : m.next ≤ m'.next
  pub wants_stay : Stay m.wants m'.wants
  pub still_below : WantsBelow m.next m.wants → WantsBelow m'.next m'.wants

stored_grows : {a b : ℕ} (xs : List Item) → a ≤ b → All (IsStored a) xs → All (IsStored b) xs
stored_grows [] l h = tt
stored_grows (x ∷ xs) l h = (
  record { below = omega (arith, l, h.0.below); linked = h.0.linked; unlocked = h.0.unlocked },
  stored_grows xs l h.1,
)

pub stored_below : (a : ℕ) (xs : List Item) → All (IsStored a) xs → AddrsBelow a xs
stored_below a [] h = tt
stored_below a (x ∷ xs) h = (h.0.below, stored_below a xs h.1)

waiting_stays :
    (u v : List Want) (cs : List (Callback ℕ)) → Stay u v → All (HasWant u) cs → All (HasWant v) cs
waiting_stays u v [] t h = tt
waiting_stays u v (c ∷ cs) t ((a, e, x, l), rest) =
    let (y, l') = t a x l in ((a, e, y, l'), waiting_stays u v cs t rest)

pub stay : (wants : List Want) → Stay wants wants
stay wants a x l = (x, l)

pub wants_grow : (a b : ℕ) (xs : List Want) → a ≤ b → WantsBelow a xs → WantsBelow b xs
wants_grow a b [] l h = tt
wants_grow a b (x ∷ xs) l h = (omega (arith, l, h.0), wants_grow a b xs l h.1)

pub grow-IsKept :
    {n a b : ℕ} {u v : List Want} {q : Queue ℕ} → a ≤ b → Stay u v → IsKept n a u q → IsKept n b v q
grow-IsKept {n} {a} {b} {u} {v} {q} l t k = record {
  inv = k.inv;
  waiting = waiting_stays u v q.callbacks t k.waiting;
  stored = stored_grows q.items l k.stored;
  distinct = k.distinct;
}

pub grow-AllKept :
    (n a b : ℕ) (u v : List Want) (qs : List ManagerQueue)
    → a ≤ b
    → Stay u v
    → AllKept n a u qs
    → AllKept n b v qs
grow-AllKept n a b u v [] l t h = tt
grow-AllKept n a b u v (mq ∷ qs) l t h = (grow-IsKept l t h.0, grow-AllKept n a b u v qs l t h.1)

pub suc-AllKept :
    (n a : ℕ) (u : List Want) (qs : List ManagerQueue) → AllKept n a u qs → AllKept (suc n) a u qs
suc-AllKept n a u [] h = tt
suc-AllKept n a u (mq ∷ qs) (k, h) = (
  record { inv = suc-Inv k.inv; waiting = k.waiting; stored = k.stored; distinct = k.distinct },
  suc-AllKept n a u qs h,
)

pub set_queue-AllKept :
    (n next : ℕ) (u : List Want) (a : ℕ) (q : Queue ℕ) (qs : List ManagerQueue)
    → IsKept n next u q
    → AllKept n next u qs
    → AllKept n next u (set_queue a q qs)
unfolding set_queue
set_queue-AllKept n next u a q [] k h = tt
set_queue-AllKept n next u a q (x ∷ xs) k h = elim (Bool-cases (queue_at a x)) [
  | inl e ↦ rw e (k, h.1)
  | inr e ↦ rw e (h.0, set_queue-AllKept n next u a q xs k h.1)
]

pub remove_queue-AllKept :
    (n next : ℕ) (u : List Want) (a : ℕ) (qs : List ManagerQueue)
    → AllKept n next u qs
    → AllKept n next u (remove_queue a qs)
unfolding remove_queue
remove_queue-AllKept n next u a [] h = tt
remove_queue-AllKept n next u a (x ∷ xs) h = elim (Bool-cases (queue_at a x)) [
  | inl e ↦ rw e h.1
  | inr e ↦ rw e (h.0, remove_queue-AllKept n next u a xs h.1)
]

module _ {n : ℕ} where
  pub suc-IsSound : {m : Manager} → IsSound n m → IsSound (suc n) m
  suc-IsSound {m} s = record {
    none_held = s.none_held;
    wants_below = s.wants_below;
    queues_kept = suc-AllKept n m.next m.wants m.queues s.queues_kept;
  }

  pub extend-IsSound : {m m' : Manager} → IsSound n m → Extends m m' → IsSound n m'
  extend-IsSound {m} {m'} s x = record {
    none_held = cc (s.none_held, x.same_detached);
    wants_below = x.still_below s.wants_below;
    queues_kept = subst (AllKept n m'.next m'.wants) (sym x.same_queues) (
        grow-AllKept n m.next m'.next m.wants m'.wants m.queues x.next_grows x.wants_stay
          s.queues_kept);
  }

  -- The world once queue.c has returned from a queue, which is kept again, with no item held.
  pub unfocus-IsSound :
      (a : ℕ) (s : Store ℕ World)
      → IsSound n s.ext.manager
      → s.ext.manager.next ≤ s.next
      → s.detached ≡ []
      → IsKept n s.next s.ext.manager.wants s.queue
      → IsSound n (unfocus_world a s).manager
  unfocus-IsSound a s v l d k =
      let m : Manager = s.ext.manager in
      record {
        none_held = d;
        wants_below = wants_grow m.next s.next m.wants l v.wants_below;
        queues_kept =
            set_queue-AllKept n s.next m.wants a s.queue m.queues k (
              grow-AllKept n m.next s.next m.wants m.wants m.queues l (stay m.wants) v.queues_kept);
      }

-- The common case: only the address that comes next changes.
pub grown :
    (m m' : Manager)
    → m'.queues ≡ m.queues
    → m'.detached ≡ m.detached
    → m'.wants ≡ m.wants
    → m.next ≤ m'.next
    → Extends m m'
grown m m' q d w l = record {
  same_queues = q;
  same_detached = d;
  next_grows = l;
  wants_stay = subst (Stay m.wants) (sym w) (stay m.wants);
  still_below = λ h. subst (WantsBelow m'.next) (sym w) (wants_grow m.next m'.next m.wants l h);
}

-- An item that is linked with a new address.
pub insert_item-IsKept :
    {n a : ℕ} {u : List Want} {q : Queue ℕ} (x : Item)
    → IsKept n a u q
    → x.addr ≡ a
    → x.inserted ≡ true
    → x.lockcount ≡ pos zero
    → Inv (suc n) (insert_item x q)
    → IsKept (suc n) (suc a) u (insert_item x q)
insert_item-IsKept {n} {a} {u} {q} x k e i z v = record {
  inv = v;
  waiting = k.waiting;
  stored =
      All-append (IsStored (suc a)) q.items (x ∷ []) (stored_grows q.items (omega arith) k.stored)
        (record { below = omega (arith, e); linked = i; unlocked = z }, tt);
  distinct =
      append-IsDistinct x q.items
        (subst (λ b. AddrsBelow b q.items) (sym e) (stored_below a q.items k.stored)) k.distinct;
}

-- An item that is unlinked.
pub remove_item-IsKept :
    {n a : ℕ} {u : List Want} {q : Queue ℕ} (x : Item) (pre post : List Item)
    → IsKept n a u q
    → q.items ≡ pre ++ x ∷ post
    → IsKept (suc n) a u (remove_item x (pre ++ post) q)
remove_item-IsKept {n} {a} {u} {q} x pre post k l = record {
  inv = remove_item-Inv k.inv x pre post l;
  waiting = k.waiting;
  stored = (All-split (IsStored a) pre post x (subst (All (IsStored a)) l k.stored)).1;
  distinct = (split-IsDistinct pre post x (subst IsDistinct l k.distinct)).0;
}

-- A callback that is linked.
pub insert_callback-IsKept :
    {n a : ℕ} {u : List Want} {q : Queue ℕ} (c : Callback ℕ)
    → IsKept n a u q
    → HasWant u c
    → All (λ x. item_matches c.key x ≡ false) q.items
    → IsKept (suc n) a u (insert_callback c q)
insert_callback-IsKept {n} {a} {u} {q} c k h m = record {
  inv = insert_callback-Inv k.inv c m;
  waiting = All-append (HasWant u) q.callbacks (c ∷ []) k.waiting (h, tt);
  stored = k.stored;
  distinct = k.distinct;
}
