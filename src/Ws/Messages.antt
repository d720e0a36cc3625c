-- ===== src/Ws/Messages.antt =====
-- The messages that connections hold, while src/ws.c sends.
pub mod Waiting
use disqueue.Base.{
  Yields, returns, breaks, yields, by_test, Result-cases, ℕ, Bool, true, false, not, ◌&&◌, Option,
  none, some, List, Bytes, codes, ◌==◌, if◌then◌else◌, Fault, Result, ok, fault, ◌>>=◌, ◌≡◌, ◌≢◌,
  ◌⊎◌, refl, sym, ap, ◌∙◌, Bool-cases, Option-cases, inl, inr, arith, subst, split_first, is_zero,
}
use disqueue.Json.{JsonC}
use disqueue.Protocol.{Created, created, failed, protocol_encode_item}
use disqueue.Queue.State.{Item, Store, item_matches}
use disqueue.Queue.Item.{load, queue_item_free, queue_item_free_}
use disqueue.Queue.Ops.{Status, queue_take, queue_wait, wait_after, may_match}
use disqueue.Queue.Ops
use disqueue.Manager.State.{Manager, ManagerQueue}
use disqueue.Manager.Wants.{
  load_want, manager_queue_want_new, manager_queue_want_is_cancelled,
  manager_queue_want_get_connection, manager_queue_want_get_identifier, manager_queue_want_free,
}
use disqueue.World.{
  Frame, Message, Connection, World, load_connection, store_connection, focus_world, unfocus_world,
}
use disqueue.Ws.{
  Wire, deactivate, with_frame, stop_reading, evws_close_, evws_connection_write_,
  evws_connection_send_, evws_connection_send,
}
use disqueue.Ws.Framing.{Kept, IsFrame}
use disqueue.Ws.Store.{KeepsAddr, load-store_connection}
use disqueue.Ws.Gone.{load-store_connection_ne}
use disqueue.Connection.Wait.{
  Outside, connection_ws_json_, connection_ws_error_, ws_created, connection_ws_payload_,
  send_detail, send_item, answer, connection_ws_read_, json_get_string,
  connection_queue_callback_wait_, waited, wait_on, connection_ws_callback_wait,
}

abbrev pub messages_of : Result Connection → Result (List Message)
messages_of r = r >>= λ c. ok c.messages

abbrev pub messages_at : ℕ → World → Result (List Message)
messages_at b w = messages_of (load_connection b w.connections)

abbrev pub SameMessages : World → World → Type 0
SameMessages w w' = (b : ℕ) → messages_at b w' ≡ messages_at b w

-- If the code returns, the messages are as before.
abbrev pub Keeps : World → Result World → Type 0
Keeps = Kept SameMessages

pub same_of : (w v : World) → Keeps w (ok v) → SameMessages w v
same_of w v (returns u e h) = λ b. ap (λ r. r >>= messages_at b) e ∙ h b
same_of w v (breaks f e) = cc

stored :
    (a : ℕ) (f : Connection → Connection) (r : Result Connection)
    → ((c : Connection) → (f c).messages ≡ c.messages)
    → messages_of (r >>= λ c. ok (f c)) ≡ messages_of r
stored a f (ok c) m = ap (λ ms. ok ms) (m c)
stored a f (fault e) m = refl

pub is_at : (a b : ℕ) → (b ≡ a) ⊎ (b ≢ a)
is_at a b = elim (Bool-cases (b == a)) [
  | inl e ↦ inl (ground (arith, e))
  | inr e ↦ inr (ground (arith, e))
]

store_connection-Same :
    (a : ℕ) (f : Connection → Connection) (w : World)
    → KeepsAddr f
    → ((c : Connection) → (f c).messages ≡ c.messages)
    → SameMessages w (record w { connections = store_connection a f w.connections })
store_connection-Same a f w k m b = elim (is_at a b) [
  | inl e ↦
      subst
        (λ n.
          messages_of (load_connection n (store_connection a f w.connections)) ≡ messages_at n w)
        (sym e)
        (ap messages_of (load-store_connection a f w.connections k)
          ∙ stored a f (load_connection a w.connections) m)
  | inr e ↦ ap messages_of (load-store_connection_ne a b f w.connections k e)
]

pub evws_close_-Same : (a : ℕ) (w : World) → SameMessages w (evws_close_ a w)
unfolding evws_close_
evws_close_-Same a w = store_connection-Same a deactivate w (λ c. refl) (λ c. refl)

pub SameMessages-IsFrame : IsFrame SameMessages
SameMessages-IsFrame = record {
  stays = λ w b. refl;
  joins = λ u v w s t b. t b ∙ s b;
  closes = evws_close_-Same;
  stops = λ a w. store_connection-Same a stop_reading w (λ d. refl) (λ d. refl);
  queues = λ a f w. store_connection-Same a (with_frame f) w (λ d. refl) (λ d. refl);
}
