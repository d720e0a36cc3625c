-- ===== src/Manager/Wants/Cancel.antt =====
-- Which wants manager_queue_want_remove and manager_queue_want_close cancel.
use disqueue.Base.{
  ℕ, Bool, true, ◌||◌, Option, none, some, List, [], ◌∷◌, ◌==◌, if◌then◌else◌, find, Result, ok,
  fault, ◌>>=◌, ◌≡◌, refl, ap, ◌∙◌, arith, Bool-cases, inl, inr, subst,
}
use mathlib.Core.Option
use disqueue.Manager.State.{Want, Manager}
use disqueue.Manager.Wants.{
  want_at, want_of, load_want, cancel_where, manager_queue_want_remove, manager_queue_want_close,
  manager_queue_want_is_cancelled, manager_queue_want_get_connection,
  manager_queue_want_get_identifier,
}

abbrev pub cancel : (Want → Bool) → Want → Want
cancel p w = if p w then record w { cancelled = true } else w

cancel_addr : (p : Want → Bool) (a : ℕ) (w : Want) → want_at a (cancel p w) ≡ want_at a w
cancel_addr p a w = ground arith

find-cancel_where :
    (p : Want → Bool) (a : ℕ) (ws : List Want)
    → find (want_at a) (cancel_where p ws) ≡ Option.map (cancel p) (find (want_at a) ws)
unfolding find cancel_where
find-cancel_where p a [] = refl
find-cancel_where p a (w ∷ ws) = elim (Bool-cases (want_at a w)) [
  | inl e ↦ rw (cancel_addr p a w, e) refl
  | inr e ↦ rw (cancel_addr p a w, e, find-cancel_where p a ws) refl
]

want_of-cancel :
    (p : Want → Bool) (o : Option Want)
    → want_of (Option.map (cancel p) o) ≡ (want_of o >>= λ w. ok (cancel p w))
want_of-cancel p none = refl
want_of-cancel p (some w) = refl

pub load_want-cancel_where :
    (p : Want → Bool) (a : ℕ) (ws : List Want)
    → load_want a (cancel_where p ws) ≡ (load_want a ws >>= λ w. ok (cancel p w))
unfolding load_want
load_want-cancel_where p a ws =
    ap want_of (find-cancel_where p a ws) ∙ want_of-cancel p (find (want_at a) ws)

-- What is read of a want once those of a kind are cancelled.
abbrev pub Cancels : (Want → Bool) → Manager → Manager → Type 0
Cancels p m m' =
    (a : ℕ)
    → (manager_queue_want_is_cancelled a m'
        ≡ (load_want a m.wants >>= λ w. ok (w.cancelled || p w)))
      × (manager_queue_want_get_connection a m' ≡ manager_queue_want_get_connection a m)
      × (manager_queue_want_get_identifier a m' ≡ manager_queue_want_get_identifier a m)

cancelled_of : (p : Want → Bool) (w : Want) → (cancel p w).cancelled ≡ (w.cancelled || p w)
cancelled_of p w = ground arith

-- Only the wants matter.
pub Cancels-wants :
    (p : Want → Bool) (m m' m'' : Manager) → m'.wants ≡ m''.wants → Cancels p m m' → Cancels p m m''
unfolding manager_queue_want_is_cancelled manager_queue_want_get_connection
    manager_queue_want_get_identifier
Cancels-wants p m m' m'' e c = subst (λ ws. Cancels p m (record m'' { wants = ws })) e c

read_cancelled :
    {A : Type 0} (f g : Want → A) (p : Want → Bool) (r : Result Want)
    → ((w : Want) → f (cancel p w) ≡ g w)
    → (r >>= (λ w. ok (cancel p w)) >>= λ w. ok (f w)) ≡ (r >>= λ w. ok (g w))
read_cancelled f g p (ok w) h = ap (λ x. ok x) (h w)
read_cancelled f g p (fault e) h = refl

cancel_where-Cancels :
    (p : Want → Bool) (m : Manager) → Cancels p m (record m { wants = cancel_where p m.wants })
unfolding manager_queue_want_is_cancelled manager_queue_want_get_connection
    manager_queue_want_get_identifier
cancel_where-Cancels p m a = (
  rw (load_want-cancel_where p a m.wants) (
      read_cancelled (λ w. w.cancelled) (λ w. w.cancelled || p w) p (load_want a m.wants)
        (cancelled_of p)),
  rw (load_want-cancel_where p a m.wants)
      (read_cancelled (λ w. w.client) (λ w. w.client) p (load_want a m.wants) (λ w. ground arith)),
  rw (load_want-cancel_where p a m.wants) (
      read_cancelled (λ w. w.identifier) (λ w. w.identifier) p (load_want a m.wants)
        (λ w. ground arith)),
)

-- Once manager_queue_want_remove has run for a queue, a want is cancelled if it waits on that queue
-- or was cancelled before, and only then; its connection and its identifier stay, and a pointer to
-- no want still leads to none.
pub manager_queue_want_remove-Cancels :
    (queue : ℕ) (m : Manager)
    → Cancels (λ w. w.queue == queue) m (manager_queue_want_remove queue m)
unfolding manager_queue_want_remove
manager_queue_want_remove-Cancels queue m = cancel_where-Cancels (λ w. w.queue == queue) m

-- Once manager_queue_want_close has run for a connection, a want is cancelled if it is of that
-- connection or was cancelled before, and only then; its connection and its identifier stay, and a
-- pointer to no want still leads to none.
pub manager_queue_want_close-Cancels :
    (connection : ℕ) (m : Manager)
    → Cancels (λ w. w.client == connection) m (manager_queue_want_close connection m)
unfolding manager_queue_want_close
manager_queue_want_close-Cancels connection m = cancel_where-Cancels (λ w. w.client == connection) m
