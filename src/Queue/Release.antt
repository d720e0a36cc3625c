-- ===== src/Queue/Release.antt =====
-- queue_free: every callback and every item of the queue is freed.
use disqueue.Base.{
  ℕ, ◌≡◌, refl, true, none, List, [], ◌∷◌, ok, inl, inr, find, arith, Bool-cases, All, ==_refl,
  subst, ap, length, count_if,
}
use disqueue.Queue.State.{Item, Callback, Queue, Store, is_keyed_callback}
use disqueue.Queue.Item.{at, load, remove, queue_item_free_}
use disqueue.Queue.Counts.{Counts, queue_callback_free_-Counts}
use disqueue.Queue.Ops.{queue_free, free_items, free_callbacks, queue_callback_free_}

-- Items that their queue alone holds.
abbrev pub Owned : List Item → List Item → Type 0
Owned detached = All (λ x. (x.inserted ≡ true) × (find (at x.addr) detached ≡ none))

remove-absent : (a : ℕ) (xs : List Item) → find (at a) xs ≡ none → remove a xs ≡ xs
unfolding find remove
remove-absent a [] e = refl
remove-absent a (x ∷ xs) e = elim (Bool-cases (at a x)) [
  | inl h ↦ absurd (ground arith)
  | inr h ↦ rw (h, remove-absent a xs (ground arith)) refl
]

-- The loop over the callbacks keeps the counters true, down to 0.
free_callbacks-Counts :
    {C : Type 0} (cs : List (Callback C)) (q : Queue C)
    → q.callbacks ≡ cs
    → Counts q
    → Counts (free_callbacks cs q)
      × ((free_callbacks cs q).callbacks ≡ [])
      × ((free_callbacks cs q).items ≡ q.items)
unfolding free_callbacks
free_callbacks-Counts [] q e v = (v, e, refl)
free_callbacks-Counts (c ∷ cs) q e v =
    let w = queue_callback_free_-Counts v c [] cs e in
    free_callbacks-Counts cs (queue_callback_free_ c cs q) refl w

module _ {C X : Type 0} where
  free_first :
      (x : Item) (xs : List Item) (s : Store C X)
      → x.inserted ≡ true
      → find (at x.addr) s.detached ≡ none
      → queue_item_free_ x.addr (record s { queue = record s.queue { items = x ∷ xs } })
        ≡ ok (record s { queue = record s.queue { items = xs } })
  unfolding queue_item_free_ load find remove
  free_first x xs s i d = rw (d, ==_refl x.addr, i) (rw (remove-absent x.addr s.detached d) refl)

  free_items-Owned :
      (xs : List Item) (s : Store C X)
      → Owned s.detached xs
      → free_items xs (record s { queue = record s.queue { items = xs } })
        ≡ ok (record s { queue = record s.queue { items = [] } })
  unfolding free_items
  free_items-Owned [] s h = refl
  free_items-Owned (x ∷ xs) s h = rw (free_first x xs s h.0.0 h.0.1) (free_items-Owned xs s h.1)

  -- On a queue whose counters are right and whose items no caller holds, queue_free frees every
  -- item and every callback, reads no freed block, and leaves alone the items that callers hold; no
  -- callback is called, and no address is handed out.
  pub queue_free-Owned :
      (s : Store C X)
      → Counts s.queue
      → Owned s.detached s.queue.items
      → (t : Store C X) × (queue_free s ≡ ok t)
        × (t.queue.items ≡ [])
        × (t.queue.callbacks ≡ [])
        × (t.queue.callback_count ≡ 0)
        × (t.queue.keyed_callback_count ≡ 0)
        × (t.detached ≡ s.detached)
        × (t.ext ≡ s.ext)
        × (t.next ≡ s.next)
  unfolding queue_free
  queue_free-Owned s v o =
      let (w, c, i) = free_callbacks-Counts s.queue.callbacks s.queue refl v in
      let q = free_callbacks s.queue.callbacks s.queue in
      (
        record s { queue = record q { items = [] } },
        subst
            (λ xs.
              Owned s.detached xs
              → free_items xs (record s { queue = q })
                ≡ ok (record s { queue = record q { items = [] } }))
            i (free_items-Owned q.items (record s { queue = q })) o,
        refl,
        c,
        omega (arith, w.callbacks_counted, ap length c),
        omega (arith, w.keyed_callbacks_counted, ap (count_if is_keyed_callback) c),
        refl,
        refl,
        refl,
      )
