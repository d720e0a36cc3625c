-- ===== src/System/Sockets.antt =====
-- The callbacks that src/ws.c gives to libevent, on a sound registry.
use disqueue.Base.{
  ℕ, suc, ◌+◌, ◌<◌, refl, subst, Bool, true, false, ◌||◌, Option, none, some, List, [], ◌∷◌, Bytes,
  ◌==◌, if◌then◌else◌, length, arith, Bool-cases, Result-cases, inl, inr, ok, ◌>>=◌, breaks, yields,
  bind-Yields, by_test,
}
use disqueue.Json.{JsonC}
use disqueue.Queue.State.{size_mod}
use disqueue.World.{Connection, World, load_connection, close_frame}
use disqueue.Ws.{
  Wire, Events, eof, error, neither, on_event, say_goodbye, evws_connection_send_close_,
  evws_connection_free, evws_connection_event_cb_,
}
use disqueue.Ws.Framing.{evws_connection_write_-Kept, evws_connection_send_-Kept}
use disqueue.Ws.Receive.{
  Opcodes, load_message, evws_message_new_, evws_message_free, evws_message_get_buffer, is_owned,
  Received, with_message, evws_wslay_on_msg_callback_, received, evws_connection_read_cb_,
}
use disqueue.Connection.Wait.{connection_ws_callback_wait}
use disqueue.System.Sound.{IsSound, suc-IsSound, extend-IsSound, grown}
use disqueue.System.Wants.{manager_queue_want_close-Extends}
use disqueue.System.Waiting.{
  Keeps, same_manager, Carries, Carries-IsFrame, evws_close_-Carries, carried,
  connection_ws_callback_wait-Keeps,
}

evws_message_new_-IsSound :
    (n : ℕ) (memory : Bool) (a opcode : ℕ) (msg : Bytes) (w : World)
    → IsSound n w.manager
    → IsSound n (evws_message_new_ memory a opcode msg w).1.manager
unfolding evws_message_new_
evws_message_new_-IsSound n false a opcode msg w s = s
evws_message_new_-IsSound n true a opcode msg w s =
    extend-IsSound s
      (grown _ (record w.manager { next = suc w.manager.next }) refl refl refl (omega arith))

evws_message_free-Keeps :
    (n a b : ℕ) (w : World) → IsSound n w.manager → Keeps n (evws_message_free a b w)
unfolding evws_message_free
evws_message_free-Keeps n a b w s = elim (Result-cases (load_connection a w.connections)) [
  | inr (f, l) ↦ rw l (breaks f refl)
  | inl (c, l) ↦ rw l (elim (Result-cases (load_message b c.messages)) [
    | inr (f, m) ↦ rw m (breaks f refl)
    | inl (x, m) ↦ rw m (yields _ s)
  ])
]

module _ (j : JsonC) (op : Opcodes) where
  freed_unless_owned :
      (n a b : ℕ) (w : World)
      → IsSound n w.manager
      → Keeps n (is_owned a b w >>= λ own. if own then ok w else evws_message_free a b w)
  freed_unless_owned n a b w s = elim (Result-cases (is_owned a b w)) [
    | inr (f, l) ↦ rw l (breaks f refl)
    | inl (own, l) ↦ rw l (by_test own _ _ (yields w s) (evws_message_free-Keeps n a b w s))
  ]

  message-Keeps :
      (n a : ℕ) (r : Received j op) (p : Option ℕ × World)
      → n < size_mod
      → IsSound n p.1.manager
      → Keeps (suc n) (with_message j op a r p)
  message-Keeps n a r (none, w) b s = yields _ (suc-IsSound s)
  message-Keeps n a r (some m, w) b s = elim (Result-cases (evws_message_get_buffer a m w)) [
    | inr (f, l) ↦ rw l (breaks f refl)
    | inl (body, l) ↦ rw l (
        bind-Yields (connection_ws_callback_wait j r.out a body w) _
          (connection_ws_callback_wait-Keeps j r.out n a body w b s)
          (λ v t. freed_unless_owned (suc n) a m v t))
  ]

  evws_wslay_on_msg_callback_-Keeps :
      (n a : ℕ) (r : Received j op) (w : World)
      → n < size_mod
      → IsSound n w.manager
      → Keeps (suc n) (evws_wslay_on_msg_callback_ j op a r w)
  unfolding evws_wslay_on_msg_callback_
  evws_wslay_on_msg_callback_-Keeps n a r w b s =
      by_test (op.is_ctrl_frame r.opcode) _ _ (yields _ (suc-IsSound s)) (
        by_test (r.opcode == op.text_frame || r.opcode == op.binary_frame) _ _
          (message-Keeps n a r (evws_message_new_ r.memory a r.opcode r.msg w) b
            (evws_message_new_-IsSound n r.memory a r.opcode r.msg w s))
          (yields _ (suc-IsSound s)))

  received-Keeps :
      (n a : ℕ) (rs : List (Received j op)) (w : World)
      → length rs + n < size_mod
      → IsSound n w.manager
      → Keeps (length rs + n) (received j op a rs w)
  unfolding received
  received-Keeps n a [] w b s = yields w (subst (λ k. IsSound k w.manager) (omega arith) s)
  received-Keeps n a (r ∷ rs) w b s =
      bind-Yields (evws_wslay_on_msg_callback_ j op a r w) _
        (evws_wslay_on_msg_callback_-Keeps n a r w (omega (arith, b)) s)
        (λ v t.
          subst (λ k. Keeps k (received j op a rs v)) (omega arith)
            (received-Keeps (suc n) a rs v (omega (arith, b)) t))

  pub evws_connection_read_cb_-Keeps :
      (n : ℕ) (wire : Wire) (status : Bool) (a : ℕ) (rs : List (Received j op)) (w : World)
      → length rs + n < size_mod
      → IsSound n w.manager
      → Keeps (length rs + n) (evws_connection_read_cb_ j op wire status a rs w)
  unfolding evws_connection_read_cb_
  evws_connection_read_cb_-Keeps n wire status a rs w b s =
      bind-Yields (received j op a rs w) _ (received-Keeps n a rs w b s) (λ v t.
        by_test status _ _
          (carried (length rs + n) v _ t (evws_connection_write_-Kept Carries-IsFrame wire a v))
          (yields _ (extend-IsSound t (evws_close_-Carries a v))))

on_event-Carries :
    (events : Events) (a : ℕ) (c : Connection) (w : World) → Carries w (on_event events a c w)
on_event-Carries eof a c w = elim (Bool-cases c.active) [
  | inl e ↦ rw e (manager_queue_want_close-Extends a w.manager)
  | inr e ↦ rw e (same_manager w.manager)
]
on_event-Carries error a c w = manager_queue_want_close-Extends a w.manager
on_event-Carries neither a c w = same_manager w.manager

say_goodbye-Keeps :
    (n : ℕ) (wire : Wire) (a : ℕ) (active : Bool) (w : World)
    → IsSound n w.manager
    → Keeps n (say_goodbye wire a active w)
unfolding evws_connection_send_close_
say_goodbye-Keeps n wire a false w s = yields w s
say_goodbye-Keeps n wire a true w s =
    bind-Yields (evws_connection_send_close_ wire a w) _
      (carried n w _ s (evws_connection_send_-Kept Carries-IsFrame wire a close_frame w))
      (λ v t. yields _ t)

evws_connection_free-Keeps :
    (n : ℕ) (wire : Wire) (a : ℕ) (w : World)
    → IsSound n w.manager
    → Keeps n (evws_connection_free wire a w)
unfolding evws_connection_free
evws_connection_free-Keeps n wire a w s = elim (Result-cases (load_connection a w.connections)) [
  | inr (f, l) ↦ rw l (breaks f refl)
  | inl (c, l) ↦ rw l (
      bind-Yields (say_goodbye wire a c.active w) _ (say_goodbye-Keeps n wire a c.active w s)
        (λ v t. yields _ t))
]

pub evws_connection_event_cb_-Keeps :
    (n : ℕ) (wire : Wire) (events : Events) (a : ℕ) (w : World)
    → IsSound n w.manager
    → Keeps n (evws_connection_event_cb_ wire events a w)
unfolding evws_connection_event_cb_
evws_connection_event_cb_-Keeps n wire events a w s =
    elim (Result-cases (load_connection a w.connections)) [
      | inr (f, l) ↦ rw l (breaks f refl)
      | inl (c, l) ↦ rw l (
          evws_connection_free-Keeps n wire a (on_event events a c w)
            (extend-IsSound s (on_event-Carries events a c w)))
    ]
