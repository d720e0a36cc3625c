-- ===== src/Connection/Wait/Pointers.antt =====
-- The items and callbacks of one queue while src/queue.c is called on it for WebSocket clients: where
-- pointers to them lead.
use disqueue.Base.{
  ℕ, suc, ◌<◌, ◌≡◌, refl, subst, true, false, Option, none, some, List, [], ◌∷◌, ◌++◌, Bytes, arith,
  All, All-append, All-split, find, is_zero, is_some,
}
use disqueue.Queue.State.{Item, Store}
use disqueue.Queue.Item.{at}
use disqueue.Queue.Ops.{insert_callback}
use disqueue.Queue.First.{detach, new_item, queued_store, taken_store}
use disqueue.Queue.Borrow.{AddrsBelow, IsFresh, find-AddrsBelow}
use disqueue.Queue.Distinct.{IsDistinct, at_comm, append-IsDistinct, split-IsDistinct}
use disqueue.World.{World}

-- Nobody holds or locks an item of the queue.
abbrev pub Loose : List Item → Item → Type 0
Loose detached x = (find (at x.addr) detached ≡ none) × (is_zero x.lockcount ≡ true)

-- What the calls keep besides the counters and the order: every pointer leads to one item, and every
-- callback has a want.
pub record IsApart (s : Store ℕ World) : Type 0 where
  pub fresh : IsFresh s
  pub distinct : IsDistinct s.queue.items
  pub loose : All (Loose s.detached) s.queue.items
  pub clients : All (λ c. is_some c.addcb ≡ true) s.queue.callbacks

suc-AddrsBelow : (n : ℕ) (xs : List Item) → AddrsBelow n xs → AddrsBelow (suc n) xs
suc-AddrsBelow n [] h = tt
suc-AddrsBelow n (x ∷ xs) h = (omega (arith, h.0), suc-AddrsBelow n xs h.1)

-- An item of another address does not stand in the way.
detach-Loose :
    (item : Item) (detached xs : List Item)
    → All (λ y. at item.addr y ≡ false) xs
    → All (Loose detached) xs
    → All (Loose (detach item ∷ detached)) xs
unfolding find
detach-Loose item detached [] o h = tt
detach-Loose item detached (x ∷ xs) o h =
    ((rw (at_comm item x o.0) h.0.0, h.0.1), detach-Loose item detached xs o.1 h.1)

pub queued-IsApart :
    (key : Option Bytes) (value : Bytes) (s : Store ℕ World)
    → IsApart s
    → IsApart (queued_store key value s)
queued-IsApart key value s a =
    let new : Item = record (new_item s.next key value) { inserted = true } in
    record {
      fresh = record {
        detached_below = suc-AddrsBelow s.next s.detached a.fresh.detached_below;
        items_below =
            All-append (λ x. x.addr < suc s.next) s.queue.items (new ∷ [])
              (suc-AddrsBelow s.next s.queue.items a.fresh.items_below) (omega arith, tt);
      };
      distinct = append-IsDistinct new s.queue.items a.fresh.items_below a.distinct;
      loose =
          All-append (Loose s.detached) s.queue.items (new ∷ []) a.loose
            ((find-AddrsBelow s.next s.detached a.fresh.detached_below, refl), tt);
      clients = a.clients;
    }

pub taken-IsApart :
    (item : Item) (pre post : List Item) (s : Store ℕ World)
    → s.queue.items ≡ pre ++ item ∷ post
    → IsApart s
    → IsApart (taken_store item (pre ++ post) s)
taken-IsApart item pre post s l a =
    let below =
      All-split (λ x. x.addr < s.next) pre post item
        (subst (AddrsBelow s.next) l a.fresh.items_below) in
    let apart = split-IsDistinct pre post item (subst IsDistinct l a.distinct) in
    record {
      fresh = record { detached_below = (below.0, a.fresh.detached_below); items_below = below.1 };
      distinct = apart.0;
      loose =
          detach-Loose item s.detached (pre ++ post) apart.1
            (All-split (Loose s.detached) pre post item
              (subst (All (Loose s.detached)) l a.loose)).1;
      clients = a.clients;
    }

pub waiting-IsApart :
    (key : Option Bytes) (want : ℕ) (s : Store ℕ World)
    → IsApart s
    → IsApart
        (record s { queue = insert_callback (record { key = key; addcb = some want }) s.queue })
waiting-IsApart key want s a = record {
  fresh = record { detached_below = a.fresh.detached_below; items_below = a.fresh.items_below };
  distinct = a.distinct;
  loose = a.loose;
  clients =
      All-append (λ c. is_some c.addcb ≡ true) s.queue.callbacks
        (record { key = key; addcb = some want } ∷ []) a.clients (refl, tt);
}
