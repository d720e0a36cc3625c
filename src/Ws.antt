-- ===== src/Ws.antt =====
-- The connections of src/ws.c: sending on them, closing and freeing them. wslay and the socket are
-- parameters. The callbacks are those that manager_add_server sets: connection_ws_callback_close and
-- connection_ws_callback_error, which both call manager_queue_want_close.
pub mod Store
pub mod Receive
pub mod Upgrade
pub mod Header
pub mod Gone
pub mod Dangling
pub mod Callbacks
pub mod Framing
pub mod Messages
pub mod Freed
use disqueue.Base.{
  ℕ, Bool, true, false, not, ◌&&◌, Option, none, some, List, [], ◌∷◌, ◌++◌, Bytes, ◌==◌,
  if◌then◌else◌, Result, ok, ◌>>=◌,
}
use disqueue.Manager.Wants.{manager_queue_want_close}
use disqueue.World.{
  Frame, text_frame, binary_frame, close_frame, Connection, World, connection_at, load_connection,
  store_connection,
}

-- What wslay answers for a connection: whether wslay_event_queue_msg and wslay_event_queue_close take
-- a frame, wslay_event_want_write, whether wslay_event_send succeeds, and
-- wslay_event_get_close_sent.
pub record Wire : Type 0 where
  pub queue_msg : ℕ → Frame → Bool
  pub want_write : ℕ → Bool
  pub event_send : ℕ → Bool
  pub close_sent : ℕ → Bool

abbrev pub deactivate : Connection → Connection
deactivate c = record c { active = false }

abbrev pub with_frame : Frame → Connection → Connection
with_frame f c = record c { outbox = c.outbox ++ f ∷ [] }

abbrev pub stop_reading : Connection → Connection
stop_reading c = record c { reading = false }

unfoldable pub evws_close_ : ℕ → World → World
unfolding store_connection
evws_close_ a w = record {
  manager = manager_queue_want_close a w.manager;
  connections = store_connection a deactivate w.connections;
}

unfoldable pub evws_connection_write_ : Wire → ℕ → World → Result World
unfolding load_connection store_connection evws_close_
evws_connection_write_ wire a w = do
  c ← load_connection a w.connections
  if wire.want_write a && not (wire.event_send a)
      then ok (evws_close_ a w)
      else if wire.close_sent a
      then ok (record w { connections = store_connection a stop_reading w.connections })
      else ok w

-- evws_connection_send_, and evws_connection_send_close_ with a close frame.
unfoldable pub evws_connection_send_ : Wire → ℕ → Frame → World → Result World
unfolding load_connection store_connection evws_close_ evws_connection_write_
evws_connection_send_ wire a frame w = do
  c ← load_connection a w.connections
  if not c.active
      then ok w
      else if not (wire.queue_msg a frame)
      then ok (evws_close_ a w)
      else evws_connection_write_ wire a
          (record w { connections = store_connection a (with_frame frame) w.connections })

unfoldable pub evws_connection_send_close_ : Wire → ℕ → World → Result World
unfolding evws_connection_send_
evws_connection_send_close_ wire a w = evws_connection_send_ wire a close_frame w

unfoldable pub evws_connection_send : Wire → ℕ → Bytes → World → Result World
unfolding evws_connection_send_
evws_connection_send wire a text w = evws_connection_send_ wire a (text_frame text) w

unfoldable pub evws_connection_send_binary : Wire → ℕ → Bytes → World → Result World
unfolding evws_connection_send_
evws_connection_send_binary wire a bytes w = evws_connection_send_ wire a (binary_frame bytes) w

unfoldable pub evws_connection_is_active : ℕ → World → Result Bool
unfolding load_connection
evws_connection_is_active a w = do c ← load_connection a w.connections; ok c.active

unfoldable pub remove_connection : ℕ → List Connection → List Connection
remove_connection a [] = []
remove_connection a (c ∷ cs) = if connection_at a c then cs else c ∷ remove_connection a cs

-- `if (conn->active) { … }`.
abbrev pub say_goodbye : Wire → ℕ → Bool → World → Result World
say_goodbye wire a false w = ok w
say_goodbye wire a true w = do
  w' ← evws_connection_send_close_ wire a w
  ok (record w' { connections = store_connection a deactivate w'.connections })

-- Its messages go with it.
unfoldable pub evws_connection_free : Wire → ℕ → World → Result World
unfolding load_connection store_connection evws_connection_send_close_ remove_connection
evws_connection_free wire a w = do
  c ← load_connection a w.connections
  w' ← say_goodbye wire a c.active w
  ok (record w' { connections = remove_connection a w'.connections })

-- The bits of `events` that are tested, the first that is set.
pub data Events : Type 0 where
  eof error neither : Events

abbrev pub on_event : Events → ℕ → Connection → World → World
on_event eof a c w =
    if c.active then record w { manager = manager_queue_want_close a w.manager } else w
on_event error a c w = record w { manager = manager_queue_want_close a w.manager }
on_event neither a c w = w

unfoldable pub evws_connection_event_cb_ : Wire → Events → ℕ → World → Result World
unfolding load_connection evws_connection_free
evws_connection_event_cb_ wire events a w = do
  c ← load_connection a w.connections
  evws_connection_free wire a (on_event events a c w)

-- The loop of evws_free over its connections.
unfoldable pub evws_free : Wire → List ℕ → World → Result World
unfolding evws_connection_free
evws_free wire [] w = ok w
evws_free wire (a ∷ as') w = evws_connection_free wire a w >>= evws_free wire as'
