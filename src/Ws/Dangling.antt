-- ===== src/Ws/Dangling.antt =====
-- The wants of a connection that is freed once it is no longer active.
use disqueue.Base.{
  ℕ, Bool, true, false, not, ◌&&◌, Option, none, some, Bytes, codes, if◌then◌else◌, Result, ok,
  fault, use_after_free, ◌>>=◌, ◌≡◌, refl, ap, ◌∙◌,
}
use disqueue.Json.{JsonC}
use disqueue.Queue.State.{Item}
use disqueue.Protocol.{Created, created, failed, protocol_encode_item}
use disqueue.Manager.State.{Want}
use disqueue.Manager.Wants.{
  load_want, manager_queue_want_is_cancelled, manager_queue_want_get_connection,
  manager_queue_want_get_identifier,
}
use disqueue.World.{Connection, World, load_connection}
use disqueue.Ws.{
  Wire, evws_connection_send_, evws_connection_send, remove_connection, evws_connection_free, eof,
  evws_connection_event_cb_,
}
use disqueue.Connection.Wait.{
  Outside, answer, send_item, send_detail, ws_created, connection_ws_json_, connection_ws_error_,
  connection_ws_payload_,
}

eof-inactive :
    (wire : Wire) (a : ℕ) (w : World) (c : Connection)
    → load_connection a w.connections ≡ ok c
    → c.active ≡ false
    → evws_connection_event_cb_ wire eof a w
      ≡ ok (record w { connections = remove_connection a w.connections })
unfolding evws_connection_event_cb_ evws_connection_free
eof-inactive wire a w c l i = rw (l, i) (rw l (rw i refl))

module _ (j : JsonC) (out : Outside) where
  open j use {Json}

  connection_ws_json_-gone :
      (a : ℕ) (c : Created j) (w : World)
      → load_connection a w.connections ≡ fault use_after_free
      → connection_ws_json_ j out a c w ≡ fault use_after_free
  unfolding connection_ws_json_ evws_connection_send evws_connection_send_
  connection_ws_json_-gone a c w l = rw l refl

  payload-gone :
      (a : ℕ) (c : Created j) (w : World)
      → load_connection a w.connections ≡ fault use_after_free
      → ws_created j out a c w ≡ fault use_after_free
  payload-gone a (failed n) w l = refl
  payload-gone a (created o) w l = connection_ws_json_-gone a (created o) w l

  error-gone :
      (a : ℕ) (message : Bytes) (w : World)
      → load_connection a w.connections ≡ fault use_after_free
      → connection_ws_error_ j out a message w ≡ fault use_after_free
  unfolding connection_ws_error_
  error-gone a message w l = connection_ws_json_-gone a _ w l

  same_ends :
      (b : Bool) (x y : Result World)
      → x ≡ fault use_after_free
      → y ≡ fault use_after_free
      → (if b then x else y) ≡ fault use_after_free
  same_ends true x y s t = s
  same_ends false x y s t = t

  detail-gone :
      (a : ℕ) (response : Json) (detail : Option Json) (w : World)
      → load_connection a w.connections ≡ fault use_after_free
      → send_detail j out a response detail w ≡ fault use_after_free
  unfolding connection_ws_payload_
  detail-gone a response none w l = error-gone a _ w l
  detail-gone a response (some detail) w l =
      same_ends _ _ _ (error-gone a _ w l) (payload-gone a _ w l)

  send_item-gone :
      (want : ℕ) (x : Want) (item : Item) (w : World)
      → load_want want w.manager.wants ≡ ok x
      → load_connection x.client w.connections ≡ fault use_after_free
      → send_item j out want (ok item) w ≡ fault use_after_free
  unfolding send_item manager_queue_want_get_connection manager_queue_want_get_identifier
  send_item-gone want x item w l g =
      let response = j.add j.object (codes "id") (some (j.string x.identifier)) in
      rw l (
        same_ends (not (out.respond 0)) _ _
          (error-gone x.client (codes "failed to create response") w g)
          (same_ends (not (out.respond 1 && out.respond 2)) _ _
            (error-gone x.client (codes "failed to add identifier") w g)
            (detail-gone x.client response (protocol_encode_item j out.encode item) w g)))

  answer-gone :
      (want : ℕ) (x : Want) (item : Item) (w : World)
      → load_want want w.manager.wants ≡ ok x
      → x.cancelled ≡ false
      → load_connection x.client w.connections ≡ fault use_after_free
      → answer j out want (ok item) w ≡ fault use_after_free
  unfolding answer manager_queue_want_is_cancelled
  answer-gone want x item w l n g = rw (l, n) (rw (send_item-gone want x item w l g) refl)

  -- Where a connection comes to its end when it is no longer active, and no other connection has
  -- its address, a want of it that is not cancelled stays so: the delivery of an item to that want
  -- then uses the freed connection.
  pub evws_connection_event_cb_-dangling :
      (wire : Wire) (a want : ℕ) (w : World) (c : Connection) (x : Want) (item : Item)
      → load_connection a w.connections ≡ ok c
      → c.active ≡ false
      → load_connection a (remove_connection a w.connections) ≡ fault use_after_free
      → load_want want w.manager.wants ≡ ok x
      → x.client ≡ a
      → x.cancelled ≡ false
      → (evws_connection_event_cb_ wire eof a w >>= answer j out want (ok item))
        ≡ fault use_after_free
  evws_connection_event_cb_-dangling wire a want w c x item l i g lw k n =
      let removed = record w { connections = remove_connection a w.connections } in
      let left : evws_connection_event_cb_ wire eof a w ≡ ok removed =
        eof-inactive wire a w c l i in
      ap (λ r. r >>= answer j out want (ok item)) left
      ∙ answer-gone want x item removed lw n (ap (λ b. load_connection b removed.connections) k ∙ g)
