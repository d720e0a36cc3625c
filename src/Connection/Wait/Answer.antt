-- ===== src/Connection/Wait/Answer.antt =====
-- What a client that waits is sent.
use disqueue.Base.{ℕ, true, false, some, Bytes, codes, ok, ◌≡◌, refl, ap, ◌∙◌}
use disqueue.Json.{JsonC}
use disqueue.Protocol.{created, protocol_encode_item, protocol_create_success}
use disqueue.Queue.State.{Item}
use disqueue.Manager.State.{Want}
use disqueue.Manager.Wants.{
  load_want, remove_want, manager_queue_want_free, manager_queue_want_is_cancelled,
  manager_queue_want_get_connection, manager_queue_want_get_identifier,
}
use disqueue.World.{text_frame, Connection, World, load_connection, store_connection}
use disqueue.Ws.{with_frame}
use disqueue.Ws.Store.{Accepts, evws_connection_send-Accepts}
use disqueue.Connection.Wait.{
  Outside, answer, send_detail, send_item, connection_ws_payload_, connection_ws_json_, text_of,
  ws_created,
}

module _ (j : JsonC) (out : Outside) where
  open j use {Json}

  abbrev pub answer_object : Bytes → Json → Json
  answer_object id detail =
      j.add (j.add j.object (codes "id") (some (j.string id))) (codes "item") (some detail)

  -- What it takes to send an item to a want as this text: memory, and a connection that is open.
  pub record Sends (x : Want) (item : Item) (text : Bytes) (w : World) : Type 0 where
    pub calls : (n : ℕ) → out.respond n ≡ true
    pub detail : Json
    pub encoded : protocol_encode_item j out.encode item ≡ some detail
    pub response : Json
    pub wrapped :
        protocol_create_success j out.success (some (answer_object x.identifier detail))
        ≡ created response
    pub printed : j.print response ≡ some text
    pub connection : Connection
    pub is_open : load_connection x.client w.connections ≡ ok connection
    pub is_active : connection.active ≡ true
    pub accepted : Accepts out.wire x.client (text_frame text)

  payload-Sends :
      (x : Want) (item : Item) (text : Bytes) (w : World) (s : Sends x item text w)
      → connection_ws_payload_ j out x.client (answer_object x.identifier s.detail) w
        ≡ ok (record w {
          connections = store_connection x.client (with_frame (text_frame text)) w.connections;
        })
  unfolding connection_ws_payload_ connection_ws_json_ text_of
  payload-Sends x item text w s =
      ap (λ c. ws_created j out x.client c w) s.wrapped
      ∙ rw (s.printed, text_of)
          (evws_connection_send-Accepts out.wire x.client text w s.connection s.is_open s.is_active
            s.accepted)

  send_item-Sends :
      (want : ℕ) (x : Want) (item : Item) (text : Bytes) (w : World)
      → load_want want w.manager.wants ≡ ok x
      → Sends x item text w
      → send_item j out want (ok item) w
        ≡ ok (record w {
          connections = store_connection x.client (with_frame (text_frame text)) w.connections;
        })
  unfolding send_item manager_queue_want_get_connection manager_queue_want_get_identifier
  send_item-Sends want x item text w l s = rw l (
      rw (s.calls 0, s.calls 1, s.calls 2)
        (ap
            (λ d.
              send_detail j out x.client
                (j.add j.object (codes "id") (some (j.string x.identifier))) d w)
            s.encoded
          ∙ rw (s.calls 3) (payload-Sends x item text w s)))

  -- Where a want is not cancelled, its connection is active, there is memory and wslay takes the
  -- message, the connection of the want alone is sent one message, the response with the identifier
  -- of the want under `id` and the item under `item`; the want is freed, and nothing else changes.
  pub answer-Sends :
      (want : ℕ) (x : Want) (item : Item) (text : Bytes) (w : World)
      → load_want want w.manager.wants ≡ ok x
      → x.cancelled ≡ false
      → Sends x item text w
      → answer j out want (ok item) w
        ≡ ok (record w {
          manager = record w.manager { wants = remove_want want w.manager.wants };
          connections = store_connection x.client (with_frame (text_frame text)) w.connections;
        })
  unfolding answer manager_queue_want_is_cancelled manager_queue_want_free
  answer-Sends want x item text w l c s =
      rw l (rw c (rw (send_item-Sends want x item text w l s) (rw l refl)))
