-- ===== src/Manager/Wants.antt =====
-- manager_queue_want_* of src/manager.c.
pub mod Cancel
use disqueue.Base.{
  ℕ, suc, Bool, true, false, Option, none, some, List, [], ◌∷◌, ◌++◌, Bytes, ◌==◌, if◌then◌else◌,
  find, map, Result, ok, fault, use_after_free, ◌>>=◌, ◌≡◌, refl, arith, Bool-cases, inl, inr, All,
}
use disqueue.Manager.State.{Want, Manager}

abbrev pub want_at : ℕ → Want → Bool
want_at a w = w.addr == a

-- The want behind a pointer.
abbrev pub want_of : Option Want → Result Want
want_of none = fault use_after_free
want_of (some w) = ok w

unfoldable pub load_want : ℕ → List Want → Result Want
load_want a wants = want_of (find (want_at a) wants)

unfoldable pub remove_want : ℕ → List Want → List Want
remove_want a [] = []
remove_want a (w ∷ ws) = if want_at a w then ws else w ∷ remove_want a ws

abbrev pub new_want : ℕ → Bytes → ℕ → ℕ → Want
new_want a id con queue = record {
  addr = a;
  identifier = id;
  cancelled = false;
  queue = queue;
  client = con;
}

-- `mem` is whether the want and the copy of its identifier get their memory.
unfoldable pub manager_queue_want_new : Bytes → ℕ → ℕ → Bool → Manager → Option ℕ × Manager
manager_queue_want_new id con queue mem m =
    if mem
    then (
      some m.next,
      record m { wants = m.wants ++ new_want m.next id con queue ∷ []; next = suc m.next },
    )
    else (none, m)

unfoldable pub manager_queue_want_free : ℕ → Manager → Result Manager
unfolding load_want remove_want
manager_queue_want_free a m = do
  w ← load_want a m.wants
  ok (record m { wants = remove_want a m.wants })

unfoldable pub manager_queue_want_is_cancelled : ℕ → Manager → Result Bool
unfolding load_want
manager_queue_want_is_cancelled a m = do w ← load_want a m.wants; ok w.cancelled

unfoldable pub manager_queue_want_get_connection : ℕ → Manager → Result ℕ
unfolding load_want
manager_queue_want_get_connection a m = do w ← load_want a m.wants; ok w.client

unfoldable pub manager_queue_want_get_identifier : ℕ → Manager → Result Bytes
unfolding load_want
manager_queue_want_get_identifier a m = do w ← load_want a m.wants; ok w.identifier

-- The loops that cancel the wants of a queue and those of a connection.
unfoldable pub cancel_where : (Want → Bool) → List Want → List Want
cancel_where p [] = []
cancel_where p (w ∷ ws) = (if p w then record w { cancelled = true } else w) ∷ cancel_where p ws

unfoldable pub manager_queue_want_remove : ℕ → Manager → Manager
unfolding cancel_where
manager_queue_want_remove queue m = record m {
  wants = cancel_where (λ w. w.queue == queue) m.wants;
}

unfoldable pub manager_queue_want_close : ℕ → Manager → Manager
unfolding cancel_where
manager_queue_want_close connection m = record m {
  wants = cancel_where (λ w. w.client == connection) m.wants;
}
