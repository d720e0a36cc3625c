-- ===== src/Queue/Refinement.antt =====
-- What a queue shows of itself, and the mailbox that is given the same calls.
use disqueue.Base.{
  ℕ, suc, ◌+◌, ◌<◌, ◌≡◌, refl, sym, ap, subst, ◌∙◌, Bool, true, false, Option, none, some, List, [],
  ◌∷◌, ◌++◌, map, Bytes, strcase_eq_comm, split_first, ok, Result, length, arith, inl, inr,
  Option-cases, All, Bool-cases,
}
use disqueue.Queue.State.{
  Item, Callback, Queue, Store, Invoke, size_mod, item_matches, callback_accepts,
}
use disqueue.Queue.Item.{Alloc}
use disqueue.Queue.Ops.{Status, queue_take, queue_put, queue_wait, insert_callback}
use disqueue.Queue.First.{
  new_item, queued_store, Takes, Puts, no_memory, kept, consumed, queue_put-Puts, nothing, first,
  queue_take-Takes, taken_store, Waits, served, registered, refused, queue_wait-Waits,
}
use disqueue.Queue.Invariant.{Inv, insert_item-Inv, insert_callback-Inv, remove_item-Inv, suc-Inv}
use disqueue.Queue.History.{Op, puts, takes, waits, drop_status, step, run, initial}
use disqueue.Queue.Mailbox.{
  Letter, Waiter, Mailbox, fits, empty_mailbox, deliver, deliver_all, hands, calm,
}

abbrev letter_of : Item → Letter
letter_of item = record { key = item.key; value = item.value }

module _ {A B : Type 0} (f : A → B) where
  map-append : (xs ys : List A) → map f (xs ++ ys) ≡ map f xs ++ map f ys
  map-append [] ys = refl
  map-append (x ∷ xs) ys = ap (λ zs. f x ∷ zs) (map-append xs ys)

  module _ (p : A → Bool) (q : B → Bool) (same : (x : A) → p x ≡ q (f x)) where
    split_first-map-none :
        (xs : List A) → All (λ x. p x ≡ false) xs → split_first q (map f xs) ≡ none
    unfolding split_first
    split_first-map-none [] h = refl
    split_first-map-none (x ∷ xs) h = rw (sym (same x) ∙ h.0, split_first-map-none xs h.1) refl

    split_first-map-hit :
        (pre behind : List A) (x : A)
        → All (λ y. p y ≡ false) pre
        → p x ≡ true
        → split_first q (map f (pre ++ x ∷ behind)) ≡ some (f x, map f (pre ++ behind))
    unfolding split_first
    split_first-map-hit [] behind x h e = rw (sym (same x) ∙ e) refl
    split_first-map-hit (y ∷ pre) behind x h e =
        rw (sym (same y) ∙ h.0, split_first-map-hit pre behind x h.1 e) refl

matches-fits : (key : Option Bytes) (item : Item) → item_matches key item ≡ fits key item.key
unfolding item_matches fits
matches-fits none item = refl
matches-fits (some k) item = elim (Option-cases item.key) [
  | inl e ↦ ground arith
  | inr (j, e) ↦ ground arith
]

module _ {C : Type 0} where
  abbrev waiter_of : Callback C → Waiter C
  waiter_of c = record { key = c.key; client = c.addcb }

  -- What a queue shows of itself.
  abbrev pub view : Queue C → Mailbox C
  view q = record { letters = map letter_of q.items; waiters = map waiter_of q.callbacks }

  accepts-fits : (key : Option Bytes) (c : Callback C) → callback_accepts key c ≡ fits c.key key
  unfolding callback_accepts fits
  accepts-fits key c = elim (Option-cases c.key) [
    | inl e ↦ ground arith
    | inr (k, e) ↦ elim (Option-cases key) [
      | inl d ↦ ground arith
      | inr (j, d) ↦ ground (arith, strcase_eq_comm k j)
    ]
  ]

module _ {C X : Type 0} where
  -- A call that returns, what then holds of the queue, and what the queue shows.
  pub record Shows (n : ℕ) (m : Mailbox C) (r : Result (Store C X)) : Type 0 where
    pub store : Store C X
    pub returned : r ≡ ok store
    pub inv : Inv n store.queue
    pub shown : view store.queue ≡ m

  pub no_waiter :
      (key : Option Bytes) (s : Store C X)
      → All (λ c. callback_accepts key c ≡ false) s.queue.callbacks
      → split_first (λ (w : Waiter C). fits w.key key) (map waiter_of s.queue.callbacks) ≡ none
  no_waiter key s h =
      split_first-map-none waiter_of (callback_accepts key) (λ w. fits w.key key) (accepts-fits key)
        s.queue.callbacks h

  pub some_waiter :
      (key : Option Bytes) (s : Store C X) (c : Callback C) (pre behind : List (Callback C))
      → s.queue.callbacks ≡ pre ++ c ∷ behind
      → All (λ d. callback_accepts key d ≡ false) pre
      → callback_accepts key c ≡ true
      → split_first (λ (w : Waiter C). fits w.key key) (map waiter_of s.queue.callbacks)
        ≡ some (waiter_of c, map waiter_of (pre ++ behind))
  some_waiter key s c pre behind l h a =
      ap (λ cs. split_first (λ (w : Waiter C). fits w.key key) (map waiter_of cs)) l
      ∙ split_first-map-hit waiter_of (callback_accepts key) (λ w. fits w.key key)
          (accepts-fits key) pre behind c h a

  pub no_letter :
      (key : Option Bytes) (s : Store C X)
      → All (λ x. item_matches key x ≡ false) s.queue.items
      → split_first (λ (l : Letter). fits key l.key) (map letter_of s.queue.items) ≡ none
  no_letter key s h =
      split_first-map-none letter_of (item_matches key) (λ l. fits key l.key) (matches-fits key)
        s.queue.items h

  pub some_letter :
      (key : Option Bytes) (s : Store C X) (x : Item) (pre behind : List Item)
      → s.queue.items ≡ pre ++ x ∷ behind
      → All (λ y. item_matches key y ≡ false) pre
      → item_matches key x ≡ true
      → split_first (λ (l : Letter). fits key l.key) (map letter_of s.queue.items)
        ≡ some (letter_of x, map letter_of (pre ++ behind))
  some_letter key s x pre behind l h m =
      ap (λ xs. split_first (λ (y : Letter). fits key y.key) (map letter_of xs)) l
      ∙ split_first-map-hit letter_of (item_matches key) (λ y. fits key y.key) (matches-fits key)
          pre behind x h m

  letter_last :
      (key : Option Bytes) (value : Bytes) (s : Store C X)
      → view (queued_store key value s).queue ≡ record (view s.queue) {
        letters = map letter_of s.queue.items ++ record { key = key; value = value } ∷ [];
      }
  letter_last key value s =
      ap (λ ls. record (view s.queue) { letters = ls }) (map-append letter_of s.queue.items _)

  waiter_last :
      (key : Option Bytes) (c : C) (s : Store C X)
      → view (insert_callback (record { key = key; addcb = some c }) s.queue)
        ≡ record (view s.queue) {
          waiters = map waiter_of s.queue.callbacks ++ record { key = key; client = some c } ∷ [];
        }
  waiter_last key c s =
      ap (λ ws. record (view s.queue) { waiters = ws }) (map-append waiter_of s.queue.callbacks _)

  module _ (invoke : Invoke C X) where
    put-Shows :
        (key : Option Bytes) (value : Bytes) (mem : Alloc) (s : Store C X)
        (r : Result (Status × Store C X)) (n : ℕ)
        → Inv n s.queue
        → hands (puts key value mem) (view s.queue) ≡ false
        → Puts invoke key value mem s r
        → Shows (suc n) (deliver (puts key value mem) (view s.queue)) (drop_status r)
    unfolding deliver
    put-Shows key value mem s r n v quiet (no_memory m e) = record {
      store = s;
      returned = rw e refl;
      inv = suc-Inv v;
      shown = rw m refl;
    }
    put-Shows key value mem s r n v quiet (kept m h e) = record {
      store = queued_store key value s;
      returned = rw e refl;
      inv = insert_item-Inv v (record (new_item s.next key value) { inserted = true }) h;
      shown = rw m (rw (no_waiter key s h) (letter_last key value s));
    }
    put-Shows key value mem s r n v quiet (consumed c pre behind m l h a e) =
        let meets = rw (m, some_waiter key s c pre behind l h a) at quiet in cc

    take-Shows :
        (key : Option Bytes) (s : Store C X) (r : Option Item × Store C X) (n : ℕ)
        → Inv n s.queue
        → Takes key s r
        → Shows (suc n) (deliver (takes key) (view s.queue)) (ok r.1)
    unfolding deliver
    take-Shows key s r n v (nothing h e) = record {
      store = s;
      returned = ap (λ x. ok x.1) e;
      inv = suc-Inv v;
      shown = rw (no_letter key s h) refl;
    }
    take-Shows key s r n v (first item pre behind l h m e) = record {
      store = taken_store item (pre ++ behind) s;
      returned = ap (λ x. ok x.1) e;
      inv = remove_item-Inv v item pre behind l;
      shown = rw (some_letter key s item pre behind l h m) refl;
    }

    wait-Shows :
        (key : Option Bytes) (c : C) (mem : Bool) (s : Store C X) (r : Result (Status × Store C X))
        (n : ℕ)
        → Inv n s.queue
        → hands (waits key c mem) (view s.queue) ≡ false
        → Waits invoke key c mem s r
        → Shows (suc n) (deliver (waits key c mem) (view s.queue)) (drop_status r)
    unfolding deliver
    wait-Shows key c mem s r n v quiet (refused m h e) = record {
      store = s;
      returned = rw e refl;
      inv = suc-Inv v;
      shown = rw (no_letter key s h) (rw m refl);
    }
    wait-Shows key c mem s r n v quiet (registered m h e) = record {
      store = record s { queue = insert_callback (record { key = key; addcb = some c }) s.queue };
      returned = rw e refl;
      inv = insert_callback-Inv v (record { key = key; addcb = some c }) h;
      shown = rw (no_letter key s h) (rw m (waiter_last key c s));
    }
    wait-Shows key c mem s r n v quiet (served item pre behind l h m e) =
        let meets = rw (some_letter key s item pre behind l h m) at quiet in cc

    pub step-Shows :
        (o : Op C) (s : Store C X) (n : ℕ)
        → n < size_mod
        → Inv n s.queue
        → hands o (view s.queue) ≡ false
        → Shows (suc n) (deliver o (view s.queue)) (step invoke o s)
    unfolding step
    step-Shows (puts key value mem) s n b v quiet =
        put-Shows key value mem s (queue_put invoke key value mem s) n v quiet
          (queue_put-Puts invoke key value mem s v.counts (omega (arith, v.callbacks_bounded)))
    step-Shows (takes key) s n b v quiet =
        take-Shows key s (queue_take key s) n v
          (queue_take-Takes key s v.counts (omega (arith, v.items_bounded)))
    step-Shows (waits key c mem) s n b v quiet =
        wait-Shows key c mem s (queue_wait invoke key c mem s) n v quiet
          (queue_wait-Waits invoke key c mem s v.counts (omega (arith, v.items_bounded)))

    run-Shows :
        (os : List (Op C)) (s : Store C X) (n : ℕ)
        → length os + n < size_mod
        → Inv n s.queue
        → calm os (view s.queue) ≡ true
        → Shows (length os + n) (deliver_all os (view s.queue)) (run invoke os s)
    unfolding run deliver_all calm
    run-Shows [] s n b v quiet = record {
      store = s;
      returned = refl;
      inv = subst (λ k. Inv k s.queue) (omega arith) v;
      shown = refl;
    }
    run-Shows (o ∷ os) s n b v quiet = elim (Bool-cases (hands o (view s.queue))) [
      | inl h ↦ let not_calm = rw h at quiet in cc
      | inr h ↦
          let d = step-Shows o s n (omega arith) v h in
          let rest = rw (h, sym d.shown) at quiet in
          rw d.returned (
            subst (λ k. Shows k (deliver_all os (deliver o (view s.queue))) (run invoke os d.store))
              (omega arith)
              (subst (λ m. Shows (length os + suc n) (deliver_all os m) (run invoke os d.store))
                d.shown (run-Shows os d.store (suc n) (omega arith) d.inv rest)))
    ]

    -- A queue implements a mailbox. Every sequence of fewer than 2^64 calls on a new queue in which
    -- no letter meets a client that waits for it returns, whatever its callbacks would do, and the
    -- keys and values of its items, in their order, and the keys and clients of its callbacks, in
    -- theirs, are then those of a mailbox that was given the same sequence: a letter lies behind
    -- the others, the oldest letter that fits is taken, and a client waits behind the others. The
    -- counters are those of the lists, no callback of the queue accepts an item of it, and neither
    -- list is longer than the sequence.
    pub run-deliver_all :
        (id : Bytes) (x : X) (os : List (Op C))
        → length os < size_mod
        → calm os empty_mailbox ≡ true
        → Shows (length os) (deliver_all os empty_mailbox) (run invoke os (initial id x))
    run-deliver_all id x os b quiet =
        subst (λ k. Shows k (deliver_all os empty_mailbox) (run invoke os (initial id x)))
          (omega arith)
          (run-Shows os (initial id x) 0 (omega arith)
            (record {
              counts = omega arith;
              quiet = tt;
              items_bounded = omega arith;
              callbacks_bounded = omega arith;
            })
            quiet)
