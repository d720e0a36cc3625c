-- ===== src/Ws/Receive.antt =====
-- What src/ws.c does with the messages of a client: evws_connection_read_cb_, and
-- evws_wslay_on_msg_callback_ with the datacb that manager_add_server sets.
use disqueue.Base.{
  ℕ, suc, Bool, true, false, ◌||◌, Option, none, some, List, [], ◌∷◌, ◌++◌, Bytes, ◌==◌,
  if◌then◌else◌, find, Result, ok, fault, use_after_free, ◌>>=◌,
}
use disqueue.Json.{JsonC}
use disqueue.World.{Message, World, load_connection, store_connection}
use disqueue.Ws.{Wire, evws_close_, evws_connection_write_}
use disqueue.Connection.Wait.{Outside, connection_ws_callback_wait}

-- The opcodes of wslay, and its wslay_is_ctrl_frame.
pub record Opcodes : Type 0 where
  pub text_frame : ℕ
  pub binary_frame : ℕ
  pub is_ctrl_frame : ℕ → Bool

abbrev pub message_at : ℕ → Message → Bool
message_at b m = m.addr == b

abbrev pub message_of : Option Message → Result Message
message_of none = fault use_after_free
message_of (some m) = ok m

unfoldable pub load_message : ℕ → List Message → Result Message
load_message b ms = message_of (find (message_at b) ms)

unfoldable pub remove_message : ℕ → List Message → List Message
remove_message b [] = []
remove_message b (m ∷ ms) = if message_at b m then ms else m ∷ remove_message b ms

abbrev own_message : Message → Message
own_message m = record m { own = true }

unfoldable pub own_at : ℕ → List Message → List Message
own_at b [] = []
own_at b (m ∷ ms) = if message_at b m then own_message m ∷ ms else m ∷ own_at b ms

-- `memory` is whether the message, its buffer and its bytes get theirs.
unfoldable pub evws_message_new_ : Bool → ℕ → ℕ → Bytes → World → Option ℕ × World
unfolding store_connection
evws_message_new_ memory a opcode msg w =
    let b = w.manager.next in
    let message : Message = record { addr = b; opcode = opcode; buffer = msg; own = false } in
    if memory
    then (
      some b,
      record {
        manager = record w.manager { next = suc b };
        connections =
            store_connection a (λ c. record c { messages = c.messages ++ message ∷ [] })
              w.connections;
      },
    )
    else (none, w)

-- The message `b` of the connection `a`.
unfoldable pub evws_message_free : ℕ → ℕ → World → Result World
unfolding load_connection store_connection load_message remove_message
evws_message_free a b w = do
  c ← load_connection a w.connections
  m ← load_message b c.messages
  ok (record w {
    connections =
        store_connection a (λ d. record d { messages = remove_message b d.messages }) w.connections;
  })

unfoldable pub evws_message_get_buffer : ℕ → ℕ → World → Result Bytes
unfolding load_connection load_message
evws_message_get_buffer a b w = do
  c ← load_connection a w.connections
  m ← load_message b c.messages
  ok m.buffer

unfoldable pub evws_message_get_opcode : ℕ → ℕ → World → Result ℕ
unfolding load_connection load_message
evws_message_get_opcode a b w = do
  c ← load_connection a w.connections
  m ← load_message b c.messages
  ok m.opcode

unfoldable pub evws_message_own : ℕ → ℕ → World → Result World
unfolding load_connection store_connection load_message own_at
evws_message_own a b w = do
  c ← load_connection a w.connections
  m ← load_message b c.messages
  ok (record w {
    connections =
        store_connection a (λ d. record d { messages = own_at b d.messages }) w.connections;
  })

unfoldable pub is_owned : ℕ → ℕ → World → Result Bool
unfolding load_connection load_message
is_owned a b w = do c ← load_connection a w.connections; m ← load_message b c.messages; ok m.own

module _ (j : JsonC) (op : Opcodes) where
  -- A message that wslay hands over, and what the code outside answers while it is handled.
  pub record Received : Type 0 where
    pub opcode : ℕ
    pub msg : Bytes
    pub memory : Bool
    pub out : Outside

  -- datacb, and the free of a message that it does not own.
  abbrev pub with_message : ℕ → Received → Option ℕ × World → Result World
  with_message a r (none, w) = ok w
  with_message a r (some b, w) = do
    body ← evws_message_get_buffer a b w
    w' ← connection_ws_callback_wait j r.out a body w
    own ← is_owned a b w'
    if own then ok w' else evws_message_free a b w'

  unfoldable pub evws_wslay_on_msg_callback_ : ℕ → Received → World → Result World
  unfolding evws_message_new_ connection_ws_callback_wait is_owned evws_message_free
  evws_wslay_on_msg_callback_ a r w =
      if op.is_ctrl_frame r.opcode
      then ok w
      else if r.opcode == op.text_frame || r.opcode == op.binary_frame
      then with_message a r (evws_message_new_ r.memory a r.opcode r.msg w)
      else ok w

  -- The calls of it by one wslay_event_recv.
  unfoldable pub received : ℕ → List Received → World → Result World
  unfolding evws_wslay_on_msg_callback_
  received a [] w = ok w
  received a (r ∷ rs) w = evws_wslay_on_msg_callback_ a r w >>= received a rs

  -- `status` is whether wslay_event_recv succeeds.
  unfoldable pub evws_connection_read_cb_ : Wire → Bool → ℕ → List Received → World → Result World
  unfolding received evws_close_ evws_connection_write_
  evws_connection_read_cb_ wire status a rs w = do
    w' ← received a rs w
    if status then evws_connection_write_ wire a w' else ok (evws_close_ a w')
