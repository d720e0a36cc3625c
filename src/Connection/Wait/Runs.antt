-- ===== src/Connection/Wait/Runs.antt =====
-- Sequences of calls to queue.c on one queue, with connection_queue_callback_wait_ of
-- src/connection-ws.c as the callback.
use disqueue.Base.{
  ℕ, suc, ◌+◌, ◌<◌, ◌≡◌, refl, sym, subst, ap, ◌∙◌, Bool, true, false, Option, some, List, [], ◌∷◌,
  ◌++◌, Bytes, Fault, ok, fault, use_after_free, Result, ◌>>=◌, length, arith, All, All-split,
  is_some, inl, inr, Bool-cases, Option-cases,
}
use disqueue.Json.{JsonC}
use disqueue.Queue.State.{Store, size_mod}
use disqueue.Queue.Item.{Alloc}
use disqueue.Queue.Ops.{Status, queue_put, queue_wait, insert_callback}
use disqueue.Queue.First.{
  detach, new_item, queued_store, taken_store, nothing, first, queue_take-Takes, Puts, no_memory,
  kept, consumed, queue_put-Puts, Waits, served, registered, refused, queue_wait-Waits,
}
use disqueue.Queue.Distinct.{IsDistinct, find-split}
use disqueue.Queue.Invariant.{Inv}
use disqueue.Queue.History.{Op, puts, takes, waits, drop_status, step, run, initial}
use disqueue.Queue.Mailbox.{empty_mailbox, hands, calm}
use disqueue.Queue.Refinement.{view, no_waiter, some_waiter, no_letter, some_letter, step-Shows}
use disqueue.World.{World}
use disqueue.Connection.Wait.{Outside, answer, connection_queue_callback_wait_}
use disqueue.Connection.Wait.Delivery.{queue_put-double_free, queue_wait-double_free}
use disqueue.Connection.Wait.Pointers.{
  Loose, IsApart, queued-IsApart, taken-IsApart, waiting-IsApart,
}

-- A call that returns leaves such a store.
abbrev Leaves : Result (Store ℕ World) → Type 0
Leaves r = (t : Store ℕ World) → r ≡ ok t → IsApart t

left : (s : Store ℕ World) (r : Result (Store ℕ World)) → r ≡ ok s → IsApart s → Leaves r
left s r e a t d = let same : s ≡ t = cc in subst IsApart same a

-- What comes after an answer that may break never returns.
breaks_then :
    {A B : Type 0} (r : Result A) (next : A → Result B)
    → ((a : A) → next a ≡ fault use_after_free)
    → (f : Fault) × ((r >>= next) ≡ fault f)
breaks_then (ok a) next h = (use_after_free, h a)
breaks_then (fault g) next h = (g, refl)

module _ (j : JsonC) (out : Outside) where
  abbrev invoked : ℕ → ℕ → Store ℕ World → Result (Store ℕ World)
  invoked = connection_queue_callback_wait_ j out

  put-Leaves :
      (key : Option Bytes) (value : Bytes) (mem : Alloc) (s : Store ℕ World)
      (r : Result (Status × Store ℕ World))
      → IsApart s
      → hands (puts key value mem) (view s.queue) ≡ false
      → Puts invoked key value mem s r
      → Leaves (drop_status r)
  put-Leaves key value mem s r a quiet (no_memory m e) = left s _ (rw e refl) a
  put-Leaves key value mem s r a quiet (kept m h e) =
      left (queued_store key value s) _ (rw e refl) (queued-IsApart key value s a)
  put-Leaves key value mem s r a quiet (consumed c pre post m l h x e) =
      let meets = rw (m, some_waiter key s c pre post l h x) at quiet in cc

  wait-Leaves :
      (key : Option Bytes) (want : ℕ) (mem : Bool) (s : Store ℕ World)
      (r : Result (Status × Store ℕ World))
      → IsApart s
      → hands (waits key want mem) (view s.queue) ≡ false
      → Waits invoked key want mem s r
      → Leaves (drop_status r)
  wait-Leaves key want mem s r a quiet (refused m h e) = left s _ (rw e refl) a
  wait-Leaves key want mem s r a quiet (registered m h e) =
      left (record s { queue = insert_callback (record { key = key; addcb = some want }) s.queue })
        _ (rw e refl) (waiting-IsApart key want s a)
  wait-Leaves key want mem s r a quiet (served item pre post l h m e) =
      let meets = rw (some_letter key s item pre post l h m) at quiet in cc

  step-Leaves :
      (o : Op ℕ) (s : Store ℕ World) (n : ℕ)
      → n < size_mod
      → Inv n s.queue
      → IsApart s
      → hands o (view s.queue) ≡ false
      → Leaves (step invoked o s)
  unfolding step
  step-Leaves (puts key value mem) s n b v a quiet =
      put-Leaves key value mem s (queue_put invoked key value mem s) a quiet
        (queue_put-Puts invoked key value mem s v.counts (omega (arith, v.callbacks_bounded)))
  step-Leaves (waits key want mem) s n b v a quiet =
      wait-Leaves key want mem s (queue_wait invoked key want mem s) a quiet
        (queue_wait-Waits invoked key want mem s v.counts (omega (arith, v.items_bounded)))
  step-Leaves (takes key) s n b v a quiet =
      elim (queue_take-Takes key s v.counts (omega (arith, v.items_bounded))) [
        | nothing h e ↦ left s _ (ap (λ x. ok x.1) e) a
        | first item pre post l h m e ↦
            left (taken_store item (pre ++ post) s) _ (ap (λ x. ok x.1) e)
              (taken-IsApart item pre post s l a)
      ]

  -- A code that ends in a fault.
  abbrev pub Faults : Result (Store ℕ World) → Type 0
  Faults r = (f : Fault) × (r ≡ fault f)

  dropped-Faults :
      (r : Result (Status × Store ℕ World)) → (f : Fault) × (r ≡ fault f) → Faults (drop_status r)
  dropped-Faults r (f, e) = (f, rw e refl)

  put-Faults :
      (key : Option Bytes) (value : Bytes) (mem : Alloc) (s : Store ℕ World) (n : ℕ)
      → n < size_mod
      → Inv n s.queue
      → IsApart s
      → hands (puts key value mem) (view s.queue) ≡ true
      → Puts invoked key value mem s (queue_put invoked key value mem s)
      → Faults (drop_status (queue_put invoked key value mem s))
  put-Faults key value mem s n b v a meets (no_memory m e) = let d = rw m at meets in cc
  put-Faults key value mem s n b v a meets (kept m h e) =
      let d = rw (m, no_waiter key s h) at meets in cc
  put-Faults key value mem s n b v a meets (consumed c pre post m l h x e) =
      elim (Option-cases c.addcb) [
        | inl none_there ↦
            let has =
              (All-split (λ d. is_some d.addcb ≡ true) pre post c
                (subst (All (λ d. is_some d.addcb ≡ true)) l a.clients)).0 in
            let d = rw none_there at has in cc
        | inr (want, w) ↦
            let (f, d) =
              breaks_then {B = Status × Store ℕ World}
                (answer j out want (ok (new_item s.next key value)) s.ext) _ (λ w'. refl) in
            dropped-Faults _ (
              f,
              queue_put-double_free j out key value mem s c want pre post v.counts a.fresh
                    (omega (arith, v.callbacks_bounded)) m l h x w
                  ∙ d,
            )
      ]

  wait-Faults :
      (key : Option Bytes) (want : ℕ) (mem : Bool) (s : Store ℕ World) (n : ℕ)
      → n < size_mod
      → Inv n s.queue
      → IsApart s
      → hands (waits key want mem) (view s.queue) ≡ true
      → Waits invoked key want mem s (queue_wait invoked key want mem s)
      → Faults (drop_status (queue_wait invoked key want mem s))
  wait-Faults key want mem s n b v a meets (refused m h e) =
      let d = rw (no_letter key s h) at meets in cc
  wait-Faults key want mem s n b v a meets (registered m h e) =
      let d = rw (no_letter key s h) at meets in cc
  wait-Faults key want mem s n b v a meets (served item pre post l h m e) =
      let loose =
        (All-split (Loose s.detached) pre post item (subst (All (Loose s.detached)) l a.loose)).0 in
      let (f, d) =
        breaks_then {B = Status × Store ℕ World} (answer j out want (ok (detach item)) s.ext) _
          (λ w'. refl) in
      dropped-Faults _ (
        f,
        queue_wait-double_free j out key want mem s item pre post v.counts
              (omega (arith, v.items_bounded)) l h m loose.1 loose.0
              (find-split pre post item (subst IsDistinct l a.distinct)).1
            ∙ d,
      )

  step-Faults :
      (o : Op ℕ) (s : Store ℕ World) (n : ℕ)
      → n < size_mod
      → Inv n s.queue
      → IsApart s
      → hands o (view s.queue) ≡ true
      → Faults (step invoked o s)
  unfolding step
  step-Faults (puts key value mem) s n b v a meets =
      put-Faults key value mem s n b v a meets
        (queue_put-Puts invoked key value mem s v.counts (omega (arith, v.callbacks_bounded)))
  step-Faults (takes key) s n b v a meets = cc
  step-Faults (waits key want mem) s n b v a meets =
      wait-Faults key want mem s n b v a meets
        (queue_wait-Waits invoked key want mem s v.counts (omega (arith, v.items_bounded)))

  run-IsApart :
      (os : List (Op ℕ)) (s : Store ℕ World) (n : ℕ)
      → length os + n < size_mod
      → Inv n s.queue
      → IsApart s
      → calm os (view s.queue) ≡ false
      → Faults (run invoked os s)
  unfolding run calm
  run-IsApart [] s n b v a meets = cc
  run-IsApart (o ∷ os) s n b v a meets = elim (Bool-cases (hands o (view s.queue))) [
    | inl h ↦ let (f, d) = step-Faults o s n (omega arith) v a h in (f, rw d refl)
    | inr h ↦
        let d = step-Shows invoked o s n (omega arith) v h in
        let rest = rw (h, sym d.shown) at meets in
        rw d.returned (
          run-IsApart os d.store (suc n) (omega arith) d.inv
            (step-Leaves o s n (omega arith) v a h d.store d.returned) rest)
  ]

  -- With the callback that the program gives to queue_wait, every sequence of fewer than 2^64 calls
  -- on a new queue in which a letter meets a client that waits for it ends in a fault.
  pub run-Faults :
      (id : Bytes) (w : World) (os : List (Op ℕ))
      → length os < size_mod
      → calm os empty_mailbox ≡ false
      → Faults (run (connection_queue_callback_wait_ j out) os (initial id w))
  run-Faults id w os b meets =
      run-IsApart os (initial id w) 0 (omega arith)
        (record {
          counts = omega arith;
          quiet = tt;
          items_bounded = omega arith;
          callbacks_bounded = omega arith;
        })
        (record {
          fresh = record { detached_below = tt; items_below = tt };
          distinct = tt;
          loose = tt;
          clients = tt;
        })
        meets
