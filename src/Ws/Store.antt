-- ===== src/Ws/Store.antt =====
-- Reads and writes through a pointer to a connection, and a send that goes through.
use disqueue.Base.{
  ℕ, true, false, not, ◌&&◌, Option, none, some, List, [], ◌∷◌, Bytes, ◌==◌, find, ok, ◌>>=◌, ◌≡◌,
  refl, ap, ◌∙◌, Bool-cases, inl, inr,
}
use mathlib.Core.Option
use disqueue.World.{
  Frame, text_frame, Connection, World, connection_at, connection_of, load_connection,
  store_connection,
}
use disqueue.Ws.{
  Wire, with_frame, evws_connection_write_, evws_connection_send_, evws_connection_send,
}

-- A write that leaves the address.
abbrev pub KeepsAddr : (Connection → Connection) → Type 0
KeepsAddr f = (c : Connection) → (f c).addr ≡ c.addr

find-store_connection :
    (a : ℕ) (f : Connection → Connection) (cs : List Connection)
    → KeepsAddr f
    → find (connection_at a) (store_connection a f cs) ≡ Option.map f (find (connection_at a) cs)
unfolding find store_connection
find-store_connection a f [] k = refl
find-store_connection a f (c ∷ cs) k = elim (Bool-cases (connection_at a c)) [
  | inl e ↦ rw (e, store_connection) (rw (ap (λ n. n == a) (k c) ∙ e, find) refl)
  | inr e ↦ rw (e, store_connection) (rw (e, find) (find-store_connection a f cs k))
]

connection_of-map :
    (f : Connection → Connection) (o : Option Connection)
    → connection_of (Option.map f o) ≡ (connection_of o >>= λ c. ok (f c))
connection_of-map f none = refl
connection_of-map f (some c) = refl

pub load-store_connection :
    (a : ℕ) (f : Connection → Connection) (cs : List Connection)
    → KeepsAddr f
    → load_connection a (store_connection a f cs) ≡ (load_connection a cs >>= λ c. ok (f c))
unfolding load_connection
load-store_connection a f cs k =
    ap connection_of (find-store_connection a f cs k)
    ∙ connection_of-map f (find (connection_at a) cs)

-- wslay takes the frame and writes it out, and has not sent a close frame.
pub record Accepts (wire : Wire) (a : ℕ) (frame : Frame) : Type 0 where
  pub queued : wire.queue_msg a frame ≡ true
  pub sent : (wire.want_write a && not (wire.event_send a)) ≡ false
  pub is_open : wire.close_sent a ≡ false

pub evws_connection_send-Accepts :
    (wire : Wire) (a : ℕ) (text : Bytes) (w : World) (c : Connection)
    → load_connection a w.connections ≡ ok c
    → c.active ≡ true
    → Accepts wire a (text_frame text)
    → evws_connection_send wire a text w
      ≡ ok (record w {
        connections = store_connection a (with_frame (text_frame text)) w.connections;
      })
unfolding evws_connection_send evws_connection_send_ evws_connection_write_
evws_connection_send-Accepts wire a text w c l active acc =
    let after : load_connection a (store_connection a (with_frame (text_frame text)) w.connections)
        ≡ ok (with_frame (text_frame text) c) =
      load-store_connection a (with_frame (text_frame text)) w.connections (λ x. refl)
      ∙ rw l refl in
    rw l (rw active (rw acc.queued (rw after (rw acc.sent (rw acc.is_open refl)))))
