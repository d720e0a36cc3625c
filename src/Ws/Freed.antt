-- ===== src/Ws/Freed.antt =====
-- What becomes of the messages that src/ws.c takes.
use disqueue.Base.{
  breaks, yields, by_test, bind-Yields, ℕ, suc, Bool, true, false, ◌||◌, List, [], ◌∷◌, ◌++◌, Bytes,
  ◌==◌, ==_refl, if◌then◌else◌, find, Result, ok, fault, ◌>>=◌, ◌≡◌, ◌≢◌, refl, sym, ap, ◌∙◌, inl,
  inr, subst,
}
use disqueue.Json.{JsonC}
use disqueue.World.{Message, Connection, World, load_connection, store_connection}
use disqueue.Ws.{Wire, evws_close_, evws_connection_write_}
use disqueue.Ws.Store.{KeepsAddr, load-store_connection}
use disqueue.Ws.Gone.{load-store_connection_ne}
use disqueue.Ws.Framing.{joins-Kept, evws_connection_write_-Kept}
use disqueue.Ws.Messages.{
  messages_of, messages_at, SameMessages, Keeps, same_of, is_at, evws_close_-Same,
  SameMessages-IsFrame,
}
use disqueue.Ws.Messages.Waiting.{connection_ws_callback_wait-Kept}
use disqueue.Ws.Receive.{
  Opcodes, load_message, remove_message, evws_message_new_, evws_message_free, is_owned, Received,
  with_message, evws_wslay_on_msg_callback_, received, evws_connection_read_cb_,
}
use disqueue.Connection.Wait.{connection_ws_callback_wait}

has_messages :
    (a : ℕ) (w : World) (ms : List Message)
    → messages_at a w ≡ ok ms
    → (c : Connection) × (load_connection a w.connections ≡ ok c) × (c.messages ≡ ms)
has_messages a w ms h = from (load_connection a w.connections) refl h
  where
    from :
        (r : Result Connection)
        → load_connection a w.connections ≡ r
        → messages_of r ≡ ok ms
        → (c : Connection) × (load_connection a w.connections ≡ ok c) × (c.messages ≡ ms)
    from (ok c) l e = (c, l, cc)
    from (fault f) l e = cc

-- A write to the messages of one connection.
messages-store :
    (a : ℕ) (f : Connection → Connection) (w : World) (ms : List Message)
    → KeepsAddr f
    → (c : Connection) → load_connection a w.connections ≡ ok c
    → (f c).messages ≡ ms
    → messages_at a (record w { connections = store_connection a f w.connections }) ≡ ok ms
messages-store a f w ms k c l m =
    let p : load_connection a (store_connection a f w.connections) ≡ ok (f c) =
      load-store_connection a f w.connections k ∙ rw l refl in
    ap messages_of p ∙ ap (λ x. ok x) m

-- The connection has this one message.
module _ (a : ℕ) (message : Message) (v : World) (c : Connection)
    (l : load_connection a v.connections ≡ ok c) (m : c.messages ≡ message ∷ []) where
  load_message-only : load_message message.addr c.messages ≡ ok message
  unfolding load_message find
  load_message-only = rw m (rw (==_refl message.addr, find) refl)

  is_owned-only : is_owned a message.addr v ≡ ok message.own
  unfolding is_owned
  is_owned-only = rw l (rw load_message-only refl)

  evws_message_free-only :
      evws_message_free a message.addr v
      ≡ ok (record v {
        connections =
            store_connection a
              (λ d. record d { messages = remove_message message.addr d.messages })
              v.connections;
      })
  unfolding evws_message_free
  evws_message_free-only = rw l (rw load_message-only refl)

  remove_message-only : remove_message message.addr c.messages ≡ []
  unfolding remove_message
  remove_message-only = rw m (rw (==_refl message.addr, remove_message) refl)

module _ (j : JsonC) (op : Opcodes) where
  -- The end of the callback, once the handler has left the one message where it was.
  freed-Kept :
      (a : ℕ) (message : Message) (w v : World)
      → message.own ≡ false
      → messages_at a w ≡ ok []
      → messages_at a v ≡ ok (message ∷ [])
      → ((n : ℕ) → n ≢ a → messages_at n v ≡ messages_at n w)
      → Keeps w (
          is_owned a message.addr v >>= λ own.
          if own then ok v else evws_message_free a message.addr v)
  freed-Kept a message w v o e h others =
      let (c, l, m) = has_messages a v (message ∷ []) h in
      let f : Connection → Connection =
        λ d. record d { messages = remove_message message.addr d.messages } in
      let u = record v { connections = store_connection a f v.connections } in
      let emptied : messages_at a u ≡ ok [] =
        messages-store a f v [] (λ d. refl) c l (remove_message-only a message v c l m) in
      rw (is_owned-only a message v c l m) (
        rw o (
          rw (evws_message_free-only a message v c l m) (
            yields u (λ n. elim (is_at a n) [
              | inl q ↦ subst (λ x. messages_at x u ≡ messages_at x w) (sym q) (emptied ∙ sym e)
              | inr q ↦
                  ap messages_of (load-store_connection_ne a n f v.connections (λ d. refl) q)
                  ∙ others n q
            ]))))

  handled-Kept :
      (a : ℕ) (r : Received j op) (message : Message) (w v : World) (body : Result Bytes)
      → message.own ≡ false
      → messages_at a w ≡ ok []
      → messages_at a v ≡ ok (message ∷ [])
      → ((n : ℕ) → n ≢ a → messages_at n v ≡ messages_at n w)
      → Keeps w (
          body >>= λ b. connection_ws_callback_wait j r.out a b v >>= λ u.
          is_owned a message.addr u >>= λ own.
          if own then ok u else evws_message_free a message.addr u)
  handled-Kept a r message w v (fault f) o e h others = breaks f refl
  handled-Kept a r message w v (ok b) o e h others =
      bind-Yields _ _ (connection_ws_callback_wait-Kept j r.out a b v)
        (λ u s. freed-Kept a message w u o e (s a ∙ h) (λ n d. s n ∙ others n d))

  message-Kept :
      (memory : Bool) (a : ℕ) (r : Received j op) (w : World)
      → messages_at a w ≡ ok []
      → Keeps w (with_message j op a r (evws_message_new_ memory a r.opcode r.msg w))
  unfolding evws_message_new_
  message-Kept false a r w e = yields w (λ n. refl)
  message-Kept true a r w e =
      let message : Message = record {
        addr = w.manager.next;
        opcode = r.opcode;
        buffer = r.msg;
        own = false;
      } in
      let f : Connection → Connection = λ d. record d { messages = d.messages ++ message ∷ [] } in
      let v : World = record {
        manager = record w.manager { next = suc w.manager.next };
        connections = store_connection a f w.connections;
      } in
      let (c, l, m) = has_messages a w [] e in
      handled-Kept a r message w v _ refl e
        (messages-store a f w (message ∷ []) (λ d. refl) c l (ap (λ ms. ms ++ message ∷ []) m))
        (λ n q. ap messages_of (load-store_connection_ne a n f w.connections (λ d. refl) q))

  on_msg-Kept :
      (a : ℕ) (r : Received j op) (w : World)
      → messages_at a w ≡ ok []
      → Keeps w (evws_wslay_on_msg_callback_ j op a r w)
  unfolding evws_wslay_on_msg_callback_
  on_msg-Kept a r w e = by_test (op.is_ctrl_frame r.opcode) _ _ (yields w (λ n. refl)) (
      by_test (r.opcode == op.text_frame || r.opcode == op.binary_frame) _ _
        (message-Kept r.memory a r w e) (yields w (λ n. refl)))

  received-Kept :
      (a : ℕ) (rs : List (Received j op)) (w : World)
      → messages_at a w ≡ ok []
      → Keeps w (received j op a rs w)
  unfolding received
  received-Kept a [] w e = yields w (λ n. refl)
  received-Kept a (r ∷ rs) w e =
      bind-Yields (evws_wslay_on_msg_callback_ j op a r w) (received j op a rs)
        (on_msg-Kept a r w e)
        (λ v s. joins-Kept SameMessages-IsFrame w v _ s (received-Kept a rs v (s a ∙ e)))

  evws_connection_read_cb_-Kept :
      (wire : Wire) (status : Bool) (a : ℕ) (rs : List (Received j op)) (w : World)
      → messages_at a w ≡ ok []
      → Keeps w (evws_connection_read_cb_ j op wire status a rs w)
  unfolding evws_connection_read_cb_
  evws_connection_read_cb_-Kept wire status a rs w e =
      bind-Yields (received j op a rs w)
        (λ v. if status then evws_connection_write_ wire a v else ok (evws_close_ a v))
        (received-Kept a rs w e)
        (λ v s.
          by_test status _ _
            (joins-Kept SameMessages-IsFrame w v _ s
              (evws_connection_write_-Kept SameMessages-IsFrame wire a v))
            (yields _ (λ n. evws_close_-Same a v n ∙ s n)))

  -- Where a connection holds no message, and evws_connection_read_cb_ returns, whatever messages
  -- were received: every connection holds the messages that it held before, so that each message
  -- that was taken is freed, also where the reading fails or the connection is closed in between.
  pub evws_connection_read_cb_-SameMessages :
      (wire : Wire) (status : Bool) (a : ℕ) (rs : List (Received j op)) (w w' : World)
      → messages_at a w ≡ ok []
      → evws_connection_read_cb_ j op wire status a rs w ≡ ok w'
      → SameMessages w w'
  evws_connection_read_cb_-SameMessages wire status a rs w w' e r =
      same_of w w' (subst (Keeps w) r (evws_connection_read_cb_-Kept wire status a rs w e))
