-- ===== src/World.antt =====
-- The state that the handlers share: the manager's context, and the WebSocket connections with the
-- structs of src/ws-internal.h.
use disqueue.Base.{
  ℕ, Bool, Option, none, some, List, [], ◌∷◌, Bytes, ◌==◌, if◌then◌else◌, find, Result, ok, fault,
  use_after_free,
}
use disqueue.Queue.State.{Store}
use disqueue.Manager.State.{Manager, ManagerQueue}
use disqueue.Manager.Registry.{set_queue}

-- What is handed to wslay.
pub data Frame : Type 0 where
  text_frame binary_frame : Bytes → Frame
  close_frame : Frame

-- A message that was received and is not freed.
pub record Message : Type 0 where
  pub addr : ℕ
  pub opcode : ℕ
  pub buffer : Bytes
  pub own : Bool

-- The socket, the context of wslay and the address of the peer are left out. `reading` is whether
-- evws_connection_read_cb_ is set for the socket, `outbox` what was handed to wslay.
pub record Connection : Type 0 where
  pub addr : ℕ
  pub active : Bool
  pub reading : Bool
  pub outbox : List Frame
  pub messages : List Message

pub record World : Type 0 where
  pub manager : Manager
  pub connections : List Connection

abbrev pub connection_at : ℕ → Connection → Bool
connection_at a c = c.addr == a

abbrev pub connection_of : Option Connection → Result Connection
connection_of none = fault use_after_free
connection_of (some c) = ok c

unfoldable pub load_connection : ℕ → List Connection → Result Connection
load_connection a cs = connection_of (find (connection_at a) cs)

unfoldable pub store_connection : ℕ → (Connection → Connection) → List Connection → List Connection
store_connection a f [] = []
store_connection a f (c ∷ cs) = if connection_at a c then f c ∷ cs else c ∷ store_connection a f cs

-- What queue.c reaches from one queue of the manager, and the world once it has returned.
abbrev pub focus_world : ManagerQueue → World → Store ℕ World
focus_world mq w = record {
  queue = mq.q;
  detached = w.manager.detached;
  next = w.manager.next;
  ext = w;
}

abbrev pub unfocus_world : ℕ → Store ℕ World → World
unfocus_world a s = record s.ext {
  manager = record s.ext.manager {
    queues = set_queue a s.queue s.ext.manager.queues;
    detached = s.detached;
    next = s.next;
  };
}
