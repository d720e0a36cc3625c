-- ===== src/System/Wants.antt =====
-- What the functions on wants of src/manager.c leave of the pointers to them.
use disqueue.Base.{
  ℕ, suc, ◌<◌, ◌≡◌, refl, ap, ◌∙◌, Bool, true, false, List, [], ◌∷◌, ◌++◌, Bytes, ◌==◌, arith,
  All-append, find, ok, Bool-cases, inl, inr,
}
use disqueue.Manager.State.{Want, Manager}
use disqueue.Manager.Wants.{
  want_at, load_want, remove_want, new_want, cancel_where, manager_queue_want_remove,
  manager_queue_want_close,
}
use disqueue.Manager.Wants.Cancel.{cancel, load_want-cancel_where}
use disqueue.System.Sound.{Stay, WantsBelow, wants_grow, Extends}

cancel_where-Stay : (p : Want → Bool) (wants : List Want) → Stay wants (cancel_where p wants)
cancel_where-Stay p wants a x l = (cancel p x, load_want-cancel_where p a wants ∙ rw l refl)

cancel_where-WantsBelow :
    (p : Want → Bool) (n : ℕ) (wants : List Want)
    → WantsBelow n wants
    → WantsBelow n (cancel_where p wants)
unfolding cancel_where
cancel_where-WantsBelow p n [] h = tt
cancel_where-WantsBelow p n (x ∷ xs) (b, h) = (ground (arith, b), cancel_where-WantsBelow p n xs h)

pub manager_queue_want_close-Extends :
    (con : ℕ) (m : Manager) → Extends m (manager_queue_want_close con m)
unfolding manager_queue_want_close
manager_queue_want_close-Extends con m = record {
  same_queues = refl;
  same_detached = refl;
  next_grows = omega arith;
  wants_stay = cancel_where-Stay (λ x. x.client == con) m.wants;
  still_below = cancel_where-WantsBelow (λ x. x.client == con) m.next m.wants;
}

pub manager_queue_want_remove-Extends :
    (queue : ℕ) (m : Manager) → Extends m (manager_queue_want_remove queue m)
unfolding manager_queue_want_remove
manager_queue_want_remove-Extends queue m = record {
  same_queues = refl;
  same_detached = refl;
  next_grows = omega arith;
  wants_stay = cancel_where-Stay (λ x. x.queue == queue) m.wants;
  still_below = cancel_where-WantsBelow (λ x. x.queue == queue) m.next m.wants;
}

-- A new want stands behind all others, and is the one that its address leads to.
load_want-append :
    (a : ℕ) (x : Want) (xs : List Want) (y : Want)
    → load_want a xs ≡ ok x
    → load_want a (xs ++ y ∷ []) ≡ ok x
unfolding load_want find
load_want-append a x [] y l = cc
load_want-append a x (z ∷ xs) y l = elim (Bool-cases (want_at a z)) [
  | inl e ↦ rw e (rw e at l)
  | inr e ↦ rw e (load_want-append a x xs y (rw e at l))
]

load_want-new :
    (n : ℕ) (xs : List Want) (y : Want)
    → y.addr ≡ n
    → WantsBelow n xs
    → load_want n (xs ++ y ∷ []) ≡ ok y
unfolding load_want find
load_want-new n [] y e h = let q : want_at n y ≡ true = ground (arith, e) in rw q refl
load_want-new n (z ∷ xs) y e (b, h) =
    let q : want_at n z ≡ false = ground (arith, b) in rw q (load_want-new n xs y e h)

-- A want that is freed before any other is made leaves the list as it was.
pub remove_want_new :
    (n : ℕ) (xs : List Want) (y : Want)
    → y.addr ≡ n
    → WantsBelow n xs
    → remove_want n (xs ++ y ∷ []) ≡ xs
unfolding remove_want
remove_want_new n [] y e h = let q : want_at n y ≡ true = ground (arith, e) in rw q refl
remove_want_new n (z ∷ xs) y e (b, h) =
    let q : want_at n z ≡ false = ground (arith, b) in
    rw q (ap (λ ys. z ∷ ys) (remove_want_new n xs y e h))

-- The manager once a want is made.
abbrev pub with_want : Bytes → ℕ → ℕ → Manager → Manager
with_want id con queue m = record m {
  wants = m.wants ++ new_want m.next id con queue ∷ [];
  next = suc m.next;
}

pub with_want-Extends :
    (id : Bytes) (con queue : ℕ) (m : Manager) → Extends m (with_want id con queue m)
with_want-Extends id con queue m = record {
  same_queues = refl;
  same_detached = refl;
  next_grows = omega arith;
  wants_stay = λ a x l. (x, load_want-append a x m.wants (new_want m.next id con queue) l);
  still_below = λ h.
      All-append (λ x. x.addr < suc m.next) m.wants (new_want m.next id con queue ∷ [])
        (wants_grow m.next (suc m.next) m.wants (omega arith) h) (omega arith, tt);
}

pub load_want-with_want :
    (id : Bytes) (con queue : ℕ) (m : Manager)
    → WantsBelow m.next m.wants
    → load_want m.next (with_want id con queue m).wants ≡ ok (new_want m.next id con queue)
load_want-with_want id con queue m h =
    load_want-new m.next m.wants (new_want m.next id con queue) refl h
