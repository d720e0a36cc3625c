-- ===== src/System/Waiting.antt =====
-- connection_ws_callback_wait of src/connection-ws.c on a sound registry.
use disqueue.Base.{
  ℕ, suc, ◌<◌, ◌≡◌, refl, sym, subst, ◌∙◌, true, false, Option, none, some, List, ◌∷◌, ◌++◌, Bytes,
  codes, arith, All, All-split, find, Option-cases, Bool-cases, inl, inr, Result, ok, Yields,
  returns, breaks, yields, breaks_after,
}
use disqueue.Json.{JsonC}
use disqueue.Queue.State.{Item, Callback, Store, size_mod, item_matches}
use disqueue.Queue.Ops.{Status, queue_wait, insert_callback}
use disqueue.Queue.Ops
use disqueue.Queue.First.{Waits, served, registered, refused, queue_wait-Waits}
use disqueue.Queue.Distinct.{IsDistinct, find-split}
use disqueue.Manager.State.{Manager, ManagerQueue}
use disqueue.Manager.Wants.{manager_queue_want_new, manager_queue_want_free, remove_want, new_want}
use disqueue.Manager.Registry.{set_queue}
use disqueue.World.{World, focus_world}
use disqueue.Ws.{evws_close_}
use disqueue.Ws.Framing.{IsFrame, Kept, error-Kept}
use disqueue.Connection.Wait.{
  Outside, connection_ws_error_, connection_ws_read_, json_get_string, answer, waited, wait_on,
  connection_queue_callback_wait_, connection_ws_callback_wait,
}
use disqueue.Connection.Wait.Delivery.{queue_wait-double_free}
use disqueue.System.Sound.{
  IsStored, IsKept, IsSound, Extends, grow-IsKept, suc-IsSound, extend-IsSound, unfocus-IsSound,
  insert_callback-IsKept, grown,
}
use disqueue.System.Wants.{
  manager_queue_want_close-Extends, with_want, with_want-Extends, load_want-with_want,
  remove_want_new,
}
use disqueue.System.Lookup.{Finds, manager_queue_get-Finds}

abbrev pub Carries : World → World → Type 0
Carries w v = Extends w.manager v.manager

pub evws_close_-Carries : (a : ℕ) (w : World) → Carries w (evws_close_ a w)
unfolding evws_close_
evws_close_-Carries a w = manager_queue_want_close-Extends a w.manager

pub same_manager : (m : Manager) → Extends m m
same_manager m = grown m m refl refl refl (omega arith)

-- Sending and closing do not reach the queues.
pub Carries-IsFrame : IsFrame Carries
Carries-IsFrame = record {
  stays = λ w. same_manager w.manager;
  joins = λ u v w s t. record {
    same_queues = t.same_queues ∙ s.same_queues;
    same_detached = t.same_detached ∙ s.same_detached;
    next_grows = omega (arith, s.next_grows, t.next_grows);
    wants_stay = λ a x l. let (y, l') = s.wants_stay a x l in t.wants_stay a y l';
    still_below = λ h. t.still_below (s.still_below h);
  };
  closes = evws_close_-Carries;
  stops = λ a w. same_manager w.manager;
  queues = λ a f w. same_manager w.manager;
}

-- If the code returns, the registry is sound.
abbrev pub Keeps : ℕ → Result World → Type 0
Keeps n = Yields (λ v. IsSound n v.manager)

pub carried :
    (n : ℕ) (w : World) (r : Result World) → IsSound n w.manager → Kept Carries w r → Keeps n r
carried n w r s (returns v e x) = returns v e (extend-IsSound s x)
carried n w r s (breaks f e) = breaks f e

module _ (j : JsonC) (out : Outside) where
  error-Keeps :
      (n a : ℕ) (message : Bytes) (w : World)
      → IsSound n w.manager
      → Keeps n (connection_ws_error_ j out a message w)
  error-Keeps n a message w s = carried n w _ s (error-Kept Carries-IsFrame j out a message w)

  -- An item that is there is freed twice.
  served_twice :
      (n con want : ℕ) (key : Option Bytes) (mq : ManagerQueue) (w : World) (item : Item)
      (pre post : List Item)
      → n < size_mod
      → IsKept n w.manager.next w.manager.wants mq.q
      → IsSound n w.manager
      → mq.q.items ≡ pre ++ item ∷ post
      → All (λ x. item_matches key x ≡ false) pre
      → item_matches key item ≡ true
      → Keeps (suc n) (
          waited j out con mq.addr want (
            queue_wait
              (connection_queue_callback_wait_ j out)
              key
              want
              out.callback_memory
              (focus_world mq w)))
  unfolding waited find
  served_twice n con want key mq w item pre post b k s l h m =
      let st =
        (All-split (IsStored w.manager.next) pre post item
          (subst (All (IsStored w.manager.next)) l k.stored)).0 in
      let (_, gone) = find-split pre post item (subst IsDistinct l k.distinct) in
      rw
        (queue_wait-double_free j out key want out.callback_memory (focus_world mq w) item pre post
          k.inv.counts (omega (arith, k.inv.items_bounded, b)) l h m (rw st.unlocked refl)
          (rw s.none_held refl) gone)
        (breaks_after (answer j out want _ w) _ _)

  -- The want that was made is freed where the queue has no memory for its callback.
  refused-Keeps :
      (n con : ℕ) (id : Bytes) (mq : ManagerQueue) (m : Manager) (w : World)
      → IsKept n m.next m.wants mq.q
      → IsSound n m
      → Keeps (suc n) (
          waited j out con mq.addr m.next
            (ok (Ops.failed, focus_world mq (record w { manager = with_want id con mq.addr m }))))
  unfolding waited manager_queue_want_free
  refused-Keeps n con id mq m w k s =
      let v : World = record w { manager = with_want id con mq.addr m } in
      let back : Manager = record v.manager {
        queues = set_queue mq.addr mq.q m.queues;
        wants = remove_want m.next (with_want id con mq.addr m).wants;
      } in
      let kept =
        unfocus-IsSound mq.addr (focus_world mq (record w { manager = m })) s (omega arith)
          s.none_held k in
      rw (load_want-with_want id con mq.addr m s.wants_below) (
        error-Keeps (suc n) con (codes "failed to wait for want") (record v { manager = back })
          (suc-IsSound (
            extend-IsSound kept (
              grown (record m { queues = set_queue mq.addr mq.q m.queues }) back refl refl
                (remove_want_new m.next m.wants (new_want m.next id con mq.addr) refl s.wants_below)
                (omega arith)))))

  queued-Keeps :
      (n con : ℕ) (id : Bytes) (key : Option Bytes) (mq : ManagerQueue) (m : Manager) (w : World)
      (r : Result (Status × Store ℕ World))
      → n < size_mod
      → IsKept n m.next m.wants mq.q
      → IsSound n m
      → let v : World = record w { manager = with_want id con mq.addr m } in
        r
          ≡ queue_wait
              (connection_queue_callback_wait_ j out)
              key
              m.next
              out.callback_memory
              (focus_world mq v)
        → Waits
            (connection_queue_callback_wait_ j out)
            key
            m.next
            out.callback_memory
            (focus_world mq v)
            r
        → Keeps (suc n) (waited j out con mq.addr m.next r)
  unfolding waited
  queued-Keeps n con id key mq m w r b k s q (refused o h p) =
      rw p (refused-Keeps n con id mq m w k s)
  queued-Keeps n con id key mq m w r b k s q (served item pre post l h o p) =
      let v : World = record w { manager = with_want id con mq.addr m } in
      let t = with_want-Extends id con mq.addr m in
      subst (λ x. Keeps (suc n) (waited j out con mq.addr m.next x)) (sym q)
        (served_twice n con m.next key mq v item pre post b
          (grow-IsKept t.next_grows t.wants_stay k) (extend-IsSound s t) l h o)
  queued-Keeps n con id key mq m w r b k s q (registered o h p) =
      let v : World = record w { manager = with_want id con mq.addr m } in
      let t = with_want-Extends id con mq.addr m in
      let c : Callback ℕ = record { key = key; addcb = some m.next } in
      let u : Store ℕ World = record (focus_world mq v) { queue = insert_callback c mq.q } in
      rw p (
        yields _ (
          unfocus-IsSound mq.addr u (suc-IsSound (extend-IsSound s t)) (omega arith) s.none_held (
            insert_callback-IsKept c (grow-IsKept t.next_grows t.wants_stay k)
              (m.next, refl, _, load_want-with_want id con mq.addr m s.wants_below) h)))

  wait_on-Keeps :
      (n con : ℕ) (id : Bytes) (key : Option Bytes) (r : Option ManagerQueue × Manager) (w : World)
      → n < size_mod
      → IsSound n w.manager
      → Finds n r
      → Keeps (suc n) (wait_on j out con id key r w)
  unfolding wait_on manager_queue_want_new
  wait_on-Keeps n con id key (none, m) w b s f =
      error-Keeps (suc n) con (codes "queue not found") w (suc-IsSound s)
  wait_on-Keeps n con id key (some mq, m) w b s (k, t) = elim (Bool-cases out.want_memory) [
    | inr o ↦
        rw (o, manager_queue_want_new)
          (error-Keeps (suc n) con (codes "failed to create want") w (suc-IsSound s))
    | inl o ↦
        rw (o, manager_queue_want_new)
          (queued-Keeps n con id key mq m w _ b k t refl (
            queue_wait-Waits (connection_queue_callback_wait_ j out) key m.next out.callback_memory
              (focus_world mq (record w { manager = with_want id con mq.addr m })) k.inv.counts
              (omega (arith, k.inv.items_bounded, b))))
  ]

  pub connection_ws_callback_wait-Keeps :
      (n con : ℕ) (body : Bytes) (w : World)
      → n < size_mod
      → IsSound n w.manager
      → Keeps (suc n) (connection_ws_callback_wait j out con body w)
  unfolding connection_ws_callback_wait
  connection_ws_callback_wait-Keeps n con body w b s =
      elim (Option-cases (connection_ws_read_ j out body)) [
        | inl o ↦
            rw (o, connection_ws_callback_wait)
              (error-Keeps (suc n) con (codes "failed to read message") w (suc-IsSound s))
        | inr (request, r) ↦
            rw (r, connection_ws_callback_wait)
              (elim (Option-cases (json_get_string j out request (codes "identifier"))) [
                | inl o ↦ rw o (error-Keeps (suc n) con (codes "no identifier") w (suc-IsSound s))
                | inr (id, i) ↦ rw i (
                    wait_on-Keeps n con id _ _ w b s (
                      manager_queue_get-Finds n out.platform
                        (json_get_string j out request (codes "queue")) false w.manager s))
              ])
      ]
