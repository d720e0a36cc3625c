-- ===== src/Queue/Ops.antt =====
-- queue_new, queue_free, queue_put, queue_take, queue_peek and queue_wait of src/queue.c. What
-- malloc answers is an argument; a block that an error path frees again is not seen afterwards.
use Prim.Native.Nat.{bit_and, bit_or}
use disqueue.Base.{
  ℕ, zero, suc, Bool, true, false, not, ◌&&◌, ◌||◌, Option, none, some, List, [], ◌∷◌, ◌++◌, Bytes,
  ◌==◌, ltb, if◌then◌else◌, find, split_first, pos, Result, ok, ◌>>=◌, is_some,
}
use disqueue.Queue.State.{
  Item, Callback, Queue, Store, Invoke, size_inc, size_dec, item_matches, callback_accepts,
  is_keyed, is_keyed_callback,
}
use disqueue.Queue.Item.{Alloc, copies, queue_item_free, queue_item_free_}

-- The int that queue_put and queue_wait return: -1, 0 and 1.
pub data Status : Type 0 where
  failed pending done : Status

-- `q->uuid[i] = f(q->uuid[i])`.
abbrev pub modify : ℕ → (ℕ → ℕ) → Bytes → Bytes
modify i f [] = []
modify zero f (b ∷ bs) = f b ∷ bs
modify (suc i) f (b ∷ bs) = b ∷ modify i f bs

-- A valid uuid4: the version in byte 6 and the variant in byte 8.
unfoldable pub uuid4 : Bytes → Bytes
uuid4 r =
    modify 8 (λ b. bit_or (bit_and b 0x3f) 0x80) (modify 6 (λ b. bit_or (bit_and b 0x0f) 0x40) r)

module _ {C : Type 0} where
  abbrev pub empty_queue : Bytes → Queue C
  empty_queue id = record {
    uuid = id;
    keyed_count = 0;
    keyed_callback_count = 0;
    item_count = 0;
    callback_count = 0;
    items = [];
    callbacks = [];
  }

  -- `calloc_ok` is whether calloc succeeds, `random` the bytes of RAND_bytes if that does.
  unfoldable pub queue_new : Option Bytes → Bool → Option Bytes → Option (Queue C)
  unfolding uuid4
  queue_new id false random = none
  queue_new (some id) true random = some (empty_queue id)
  queue_new none true none = none
  queue_new none true (some r) = some (empty_queue (uuid4 r))

  -- Unlinks a callback, whose TAILQ_REMOVE leaves `rest`.
  unfoldable pub queue_callback_free_ : Callback C → List (Callback C) → Queue C → Queue C
  queue_callback_free_ callback rest q = record q {
    keyed_callback_count =
        if is_keyed_callback callback
        then size_dec q.keyed_callback_count
        else q.keyed_callback_count;
    callback_count = size_dec q.callback_count;
    callbacks = rest;
  }

  -- The `while` loop of queue_free over the callbacks.
  unfoldable pub free_callbacks : List (Callback C) → Queue C → Queue C
  unfolding queue_callback_free_
  free_callbacks [] q = q
  free_callbacks (c ∷ cs) q = free_callbacks cs (queue_callback_free_ c cs q)

  -- The tests that stand before the loop of queue_put, which skip it.
  unfoldable pub may_deliver : Option Bytes → Queue C → Bool
  may_deliver key q =
      ltb 0 q.callback_count
      && ((not (is_some key) && not (q.keyed_callback_count == q.callback_count)) || is_some key)

  -- The tests that stand before the loop of queue_take and queue_peek.
  unfoldable pub may_match : Option Bytes → Queue C → Bool
  may_match key q =
      not (q.item_count == 0) && (not (is_some key) || (is_some key && ltb 0 q.keyed_count))

  abbrev pub insert_item : Item → Queue C → Queue C
  insert_item item q = record q {
    item_count = size_inc q.item_count;
    keyed_count = if is_keyed item then size_inc q.keyed_count else q.keyed_count;
    items = q.items ++ item ∷ [];
  }

  abbrev pub insert_callback : Callback C → Queue C → Queue C
  insert_callback callback q = record q {
    callback_count = size_inc q.callback_count;
    keyed_callback_count =
        if is_keyed_callback callback
        then size_inc q.keyed_callback_count
        else q.keyed_callback_count;
    callbacks = q.callbacks ++ callback ∷ [];
  }

  abbrev pub remove_item : Item → List Item → Queue C → Queue C
  remove_item item rest q = record q {
    item_count = size_dec q.item_count;
    keyed_count = if is_keyed item then size_dec q.keyed_count else q.keyed_count;
    items = rest;
  }

module _ {C X : Type 0} where
  -- The `while` loop of queue_free over the items: each call unlinks the first of them.
  unfoldable pub free_items : List Item → Store C X → Result (Store C X)
  unfolding queue_item_free_
  free_items [] s = ok s
  free_items (x ∷ xs) s = do s' ← queue_item_free_ x.addr s; free_items xs s'

  unfoldable pub queue_free : Store C X → Result (Store C X)
  unfolding free_callbacks free_items
  queue_free s =
      free_items s.queue.items (record s { queue = free_callbacks s.queue.callbacks s.queue })

  -- Takes the item out of the list; the caller holds it from then on.
  unfoldable pub queue_take : Option Bytes → Store C X → Option Item × Store C X
  unfolding may_match
  queue_take key s =
      let found =
        if may_match key s.queue then split_first (item_matches key) s.queue.items else none in
      elim found [
        | none ↦ (none, s)
        | some (item, rest) ↦
            let item' = record item { inserted = false } in
            (
              some item',
              record s { queue = remove_item item rest s.queue; detached = item' ∷ s.detached },
            )
      ]

  unfoldable pub queue_peek : Option Bytes → Store C X → Option Item
  unfolding may_match
  queue_peek key s = if may_match key s.queue then find (item_matches key) s.queue.items else none

  -- `if (cb) cb(item, cbarg)`.
  abbrev pub call : Invoke C X → Option C → ℕ → Store C X → Result (Store C X)
  call invoke none a s = ok s
  call invoke (some c) a s = invoke c a s

  unfoldable pub queue_put :
      Invoke C X → Option Bytes → Bytes → Alloc → Store C X → Result (Status × Store C X)
  unfolding may_deliver queue_callback_free_
  queue_put invoke key value mem s =
      if mem.node && copies key mem.key && mem.value
      then elim found [
        | none ↦ ok (pending, record s { queue = insert_item queued s.queue; next = suc s.next })
        | some (callback, rest) ↦ do
          called ← call invoke callback.addcb s.next (record s {
            queue = queue_callback_free_ callback rest s.queue;
            detached = offered ∷ s.detached;
            next = suc s.next;
          })
          freed ← queue_item_free s.next called
          ok (done, freed)
      ]
      else ok (failed, s)
    where
      offered : Item
      offered = record {
        addr = s.next;
        key = key;
        value = value;
        inserted = false;
        lockcount = pos zero;
      }

      queued : Item
      queued = record offered { inserted = true }

      found : Option (Callback C × List (Callback C))
      found =
          if may_deliver key s.queue
          then split_first (callback_accepts key) s.queue.callbacks
          else none

  -- queue_wait from the answer of queue_take on.
  unfoldable pub wait_after :
      Invoke C X → Option Bytes → C → Bool → Option Item × Store C X → Result (Status × Store C X)
  wait_after invoke key c mem (some item, s) = do
    called ← invoke c item.addr s
    freed ← queue_item_free item.addr called
    ok (done, freed)
  wait_after invoke key c mem (none, s) =
      if mem
      then ok (pending, record s { queue = insert_callback waiting s.queue })
      else ok (failed, s)
    where
      waiting : Callback C
      waiting = record { key = key; addcb = some c }

  -- `mem` is whether queue_callback_new_ gets its memory.
  unfoldable pub queue_wait :
      Invoke C X → Option Bytes → C → Bool → Store C X → Result (Status × Store C X)
  unfolding wait_after
  queue_wait invoke key c mem s = wait_after invoke key c mem (queue_take key s)
