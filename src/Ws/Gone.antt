-- ===== src/Ws/Gone.antt =====
-- What is left of a connection that goes: its wants, and the other connections.
use disqueue.Base.{
  ℕ, Bool, true, false, not, ◌&&◌, some, List, [], ◌∷◌, ◌==◌, if◌then◌else◌, find, Result, ok, ◌≡◌,
  ◌≢◌, refl, ap, ◌∙◌, Bool-cases, inl, inr, All, arith,
}
use disqueue.Manager.State.{Want}
use disqueue.Manager.Wants.{cancel_where, manager_queue_want_close}
use disqueue.World.{
  Frame, close_frame, Connection, World, connection_at, connection_of, load_connection,
  store_connection,
}
use disqueue.Ws.{
  Wire, deactivate, with_frame, stop_reading, evws_close_, evws_connection_write_,
  evws_connection_send_, evws_connection_send_close_, remove_connection, say_goodbye,
  evws_connection_free, Events, eof, error, neither, on_event, evws_connection_event_cb_,
}
use disqueue.Ws.Store.{KeepsAddr, load-store_connection}

-- A want of the connection that is not cancelled.
abbrev pub is_waiting : ℕ → Want → Bool
is_waiting a x = x.client == a && not x.cancelled

-- Every want of the connection is cancelled.
abbrev pub IsCalm : ℕ → World → Type 0
IsCalm a w = All (λ x. is_waiting a x ≡ false) w.manager.wants

at_ne : (a b : ℕ) (c : Connection) → b ≢ a → connection_at a c ≡ true → connection_at b c ≡ false
at_ne a b c d e = ground arith

find-store_connection_ne :
    (a b : ℕ) (f : Connection → Connection) (cs : List Connection)
    → KeepsAddr f
    → b ≢ a
    → find (connection_at b) (store_connection a f cs) ≡ find (connection_at b) cs
unfolding find store_connection
find-store_connection_ne a b f [] k d = refl
find-store_connection_ne a b f (c ∷ cs) k d = elim (Bool-cases (connection_at a c)) [
  | inl e ↦
      let gone = at_ne a b c d e in
      rw (e, store_connection) (rw (ap (λ n. n == b) (k c) ∙ gone, find) (rw (gone, find) refl))
  | inr e ↦
      rw (e, store_connection)
        (ap (λ o. if connection_at b c then some c else o) (find-store_connection_ne a b f cs k d))
]

pub load-store_connection_ne :
    (a b : ℕ) (f : Connection → Connection) (cs : List Connection)
    → KeepsAddr f
    → b ≢ a
    → load_connection b (store_connection a f cs) ≡ load_connection b cs
unfolding load_connection
load-store_connection_ne a b f cs k d = ap connection_of (find-store_connection_ne a b f cs k d)

find-remove_connection_ne :
    (a b : ℕ) (cs : List Connection)
    → b ≢ a
    → find (connection_at b) (remove_connection a cs) ≡ find (connection_at b) cs
unfolding find remove_connection
find-remove_connection_ne a b [] d = refl
find-remove_connection_ne a b (c ∷ cs) d = elim (Bool-cases (connection_at a c)) [
  | inl e ↦ rw (e, remove_connection) (rw (at_ne a b c d e, find) refl)
  | inr e ↦
      rw (e, remove_connection)
        (ap (λ o. if connection_at b c then some c else o) (find-remove_connection_ne a b cs d))
]

cancel_where-calm :
    (a b : ℕ) (xs : List Want)
    → All (λ x. is_waiting a x ≡ false) xs
    → All (λ x. is_waiting a x ≡ false) (cancel_where (λ x. x.client == b) xs)
unfolding cancel_where
cancel_where-calm a b [] h = tt
cancel_where-calm a b (x ∷ xs) h = (ground (arith, h.0), cancel_where-calm a b xs h.1)

cancel_where-All :
    (a : ℕ) (xs : List Want)
    → All (λ x. is_waiting a x ≡ false) (cancel_where (λ x. x.client == a) xs)
unfolding cancel_where
cancel_where-All a [] = tt
cancel_where-All a (x ∷ xs) = (ground arith, cancel_where-All a xs)

-- What sending on a connection may do: it is still there, the wants that were cancelled are so
-- still, and the other connections are as before.
pub record Talks (a : ℕ) (w w' : World) : Type 0 where
  pub calm : IsCalm a w → IsCalm a w'
  pub apart : (b : ℕ) → b ≢ a → load_connection b w'.connections ≡ load_connection b w.connections
  pub here : Connection
  pub here_is : load_connection a w'.connections ≡ ok here

-- It returns.
abbrev pub Talked : ℕ → World → Result World → Type 0
Talked a w r = (w' : World) × (r ≡ ok w') × Talks a w w'

module _ (wire : Wire) (a : ℕ) where
  stays : (w : World) (c : Connection) → load_connection a w.connections ≡ ok c → Talks a w w
  stays w c l = record { calm = λ h. h; apart = λ b d. refl; here = c; here_is = l }

  Talks-trans : (w v u : World) → Talks a w v → Talks a v u → Talks a w u
  Talks-trans w v u s t = record {
    calm = λ h. t.calm (s.calm h);
    apart = λ b d. t.apart b d ∙ s.apart b d;
    here = t.here;
    here_is = t.here_is;
  }

  stores :
      (f : Connection → Connection) (w : World) (c : Connection)
      → KeepsAddr f
      → load_connection a w.connections ≡ ok c
      → Talks a w (record w { connections = store_connection a f w.connections })
  unfolding load_connection
  stores f w c k l = record {
    calm = λ h. h;
    apart = λ b d. ap connection_of (find-store_connection_ne a b f w.connections k d);
    here = f c;
    here_is = load-store_connection a f w.connections k ∙ rw l refl;
  }

  evws_close_-Talks :
      (w : World) (c : Connection)
      → load_connection a w.connections ≡ ok c
      → Talks a w (evws_close_ a w)
  unfolding evws_close_ manager_queue_want_close
  evws_close_-Talks w c l =
      let s = stores deactivate w c (λ x. refl) l in
      record {
        calm = λ h. cancel_where-calm a a w.manager.wants h;
        apart = s.apart;
        here = s.here;
        here_is = s.here_is;
      }

  by_test :
      (b : Bool) (w : World) (x y : Result World)
      → Talked a w x
      → Talked a w y
      → Talked a w (if b then x else y)
  by_test true w x y s t = s
  by_test false w x y s t = t

  evws_connection_write_-Talked :
      (w : World) (c : Connection)
      → load_connection a w.connections ≡ ok c
      → Talked a w (evws_connection_write_ wire a w)
  unfolding evws_connection_write_
  evws_connection_write_-Talked w c l = rw l (
      by_test _ w _ _ (_, refl, evws_close_-Talks w c l)
        (by_test _ w _ _ (_, refl, stores stop_reading w c (λ x. refl) l) (_, refl, stays w c l)))

  after : (w v : World) (r : Result World) → Talks a w v → Talked a v r → Talked a w r
  after w v r s (u, e, t) = (u, e, Talks-trans w v u s t)

  pub evws_connection_send_-Talked :
      (frame : Frame) (w : World) (c : Connection)
      → load_connection a w.connections ≡ ok c
      → Talked a w (evws_connection_send_ wire a frame w)
  unfolding evws_connection_send_
  evws_connection_send_-Talked frame w c l =
      let s = stores (with_frame frame) w c (λ x. refl) l in
      rw l (
        by_test _ w _ _ (_, refl, stays w c l)
          (by_test _ w _ _ (_, refl, evws_close_-Talks w c l)
            (after w _ _ s (evws_connection_write_-Talked _ s.here s.here_is))))

  say_goodbye-Talked :
      (b : Bool) (w : World) (c : Connection)
      → load_connection a w.connections ≡ ok c
      → Talked a w (say_goodbye wire a b w)
  unfolding evws_connection_send_close_
  say_goodbye-Talked false w c l = (_, refl, stays w c l)
  say_goodbye-Talked true w c l =
      let (v, e, t) = evws_connection_send_-Talked close_frame w c l in
      rw e (after w v _ t (_, refl, stores deactivate v t.here (λ x. refl) t.here_is))

-- The connection has gone: the wants that were cancelled are so still, and the other connections
-- are as before.
pub record Leaves (a : ℕ) (w w' : World) : Type 0 where
  pub calm : IsCalm a w → IsCalm a w'
  pub apart : (b : ℕ) → b ≢ a → load_connection b w'.connections ≡ load_connection b w.connections

evws_connection_free-Leaves :
    (wire : Wire) (a : ℕ) (w : World) (c : Connection)
    → load_connection a w.connections ≡ ok c
    → (w' : World) × (evws_connection_free wire a w ≡ ok w') × Leaves a w w'
unfolding evws_connection_free load_connection
evws_connection_free-Leaves wire a w c l =
    let (v, e, t) = say_goodbye-Talked wire a c.active w c l in
    rw (l, e)
      (
        _,
        refl,
        record {
          calm = t.calm;
          apart =
              λ b d. ap connection_of (find-remove_connection_ne a b v.connections d) ∙ t.apart b d;
        },
      )

-- The events that are told to the manager.
abbrev pub is_told : Events → Connection → Bool
is_told eof c = c.active
is_told error c = true
is_told neither c = false

on_event-IsCalm :
    (events : Events) (a : ℕ) (c : Connection) (w : World)
    → is_told events c ≡ true
    → (v : World) × (on_event events a c w ≡ v) × IsCalm a v × (v.connections ≡ w.connections)
unfolding manager_queue_want_close
on_event-IsCalm eof a c w t = rw t (_, refl, cancel_where-All a w.manager.wants, refl)
on_event-IsCalm error a c w t = (_, refl, cancel_where-All a w.manager.wants, refl)
on_event-IsCalm neither a c w t = cc

-- Where a connection that exists has an error, or comes to its end while it is active, the callback
-- returns: all wants of the connection are then cancelled, and every other connection is as before.
pub evws_connection_event_cb_-IsCalm :
    (wire : Wire) (events : Events) (a : ℕ) (w : World) (c : Connection)
    → load_connection a w.connections ≡ ok c
    → is_told events c ≡ true
    → (w' : World) × (evws_connection_event_cb_ wire events a w ≡ ok w')
      × IsCalm a w'
      × ((b : ℕ) → b ≢ a → load_connection b w'.connections ≡ load_connection b w.connections)
unfolding evws_connection_event_cb_
evws_connection_event_cb_-IsCalm wire events a w c l t =
    let (v, e, calm, same) = on_event-IsCalm events a c w t in
    let (w', f, leaves) =
      evws_connection_free-Leaves wire a v c (ap (load_connection a) same ∙ l) in
    (w', rw (l, e) f, leaves.calm calm, λ b d. leaves.apart b d ∙ ap (load_connection b) same)
