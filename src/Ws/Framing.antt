-- ===== src/Ws/Framing.antt =====
-- What sending on a connection leaves alone, for any relation between the world before and after that
-- the writes of src/ws.c respect.
use disqueue.Base.{
  ℕ, not, ◌&&◌, Bytes, Result, Yields, returns, breaks, yields, by_test, Result-cases, refl, inl,
  inr,
}
use disqueue.Json.{JsonC}
use disqueue.Protocol.{Created}
use disqueue.World.{Frame, World, load_connection, store_connection}
use disqueue.Ws.{
  Wire, with_frame, stop_reading, evws_close_, evws_connection_write_, evws_connection_send_,
  evws_connection_send,
}
use disqueue.Connection.Wait.{Outside, connection_ws_json_, connection_ws_error_}

-- If the code returns, the worlds before and after are related.
abbrev pub Kept : (World → World → Type 0) → World → Result World → Type 0
Kept R w = Yields (R w)

-- A relation that goes through the writes to a connection.
pub record IsFrame (R : World → World → Type 0) : Type 0 where
  pub stays : (w : World) → R w w
  pub joins : (u v w : World) → R u v → R v w → R u w
  pub closes : (a : ℕ) (w : World) → R w (evws_close_ a w)
  pub stops :
      (a : ℕ) (w : World)
      → R w (record w { connections = store_connection a stop_reading w.connections })
  pub queues :
      (a : ℕ) (frame : Frame) (w : World)
      → R w (record w { connections = store_connection a (with_frame frame) w.connections })

module _ {R : World → World → Type 0} (frame : IsFrame R) where
  pub joins-Kept : (w v : World) (r : Result World) → R w v → Kept R v r → Kept R w r
  joins-Kept w v r s (returns u e t) = returns u e (frame.joins w v u s t)
  joins-Kept w v r s (breaks f e) = breaks f e

  pub evws_connection_write_-Kept :
      (wire : Wire) (a : ℕ) (w : World) → Kept R w (evws_connection_write_ wire a w)
  unfolding evws_connection_write_
  evws_connection_write_-Kept wire a w = elim (Result-cases (load_connection a w.connections)) [
    | inr (f, l) ↦ rw l (breaks f refl)
    | inl (c, l) ↦ rw l (
        by_test (wire.want_write a && not (wire.event_send a)) _ _ (yields _ (frame.closes a w))
          (by_test (wire.close_sent a) _ _ (yields _ (frame.stops a w)) (yields w (frame.stays w))))
  ]

  pub evws_connection_send_-Kept :
      (wire : Wire) (a : ℕ) (sent : Frame) (w : World)
      → Kept R w (evws_connection_send_ wire a sent w)
  unfolding evws_connection_send_
  evws_connection_send_-Kept wire a sent w = elim (Result-cases (load_connection a w.connections)) [
    | inr (f, l) ↦ rw l (breaks f refl)
    | inl (c, l) ↦ rw l (
        by_test (not c.active) _ _ (yields w (frame.stays w)) (
          by_test (not (wire.queue_msg a sent)) _ _ (yields _ (frame.closes a w))
            (joins-Kept w _ _ (frame.queues a sent w) (evws_connection_write_-Kept wire a _))))
  ]

  module _ (j : JsonC) (out : Outside) where
    pub json-Kept : (a : ℕ) (c : Created j) (w : World) → Kept R w (connection_ws_json_ j out a c w)
    unfolding connection_ws_json_ evws_connection_send
    json-Kept a c w = evws_connection_send_-Kept out.wire a _ w

    pub error-Kept :
        (a : ℕ) (message : Bytes) (w : World) → Kept R w (connection_ws_error_ j out a message w)
    unfolding connection_ws_error_
    error-Kept a message w = json-Kept a _ w
