-- ===== src/Protocol.antt =====
-- src/protocol.c: the JSON values that the server sends.
pub mod Fields
use disqueue.Base.{
  ℕ, ◌+◌, Bool, true, false, not, ◌&&◌, ◌||◌, Option, none, some, Bytes, codes, is_some,
  if◌then◌else◌,
}
use disqueue.Json.{JsonC, Calls}
use disqueue.Queue.State.{Item}

abbrev pub held : Bool → ℕ
held true = 1
held false = 0

abbrev pub message_key : Bytes
message_key = codes "message"

abbrev pub success_key : Bytes
success_key = codes "success"

abbrev pub payload_key : Bytes
payload_key = codes "payload"

abbrev pub key_key : Bytes
key_key = codes "key"

abbrev pub value_key : Bytes
value_key = codes "value"

unfoldable pub protocol_failure_fallback : Bytes
protocol_failure_fallback = codes "{\"success\": false, \"message\": \"cannot describe error\"}"

unfoldable pub protocol_failure_message : Bytes
protocol_failure_message = codes "cannot describe error"

module _ (j : JsonC) where
  open j use {Json}

  -- A value, or NULL with the number of times that the payload was released by json_object_put.
  pub data Created : Type 0 where
    created : Json → Created
    failed : ℕ → Created

  -- The releases of the payload under `cleanup`, by which variables are not NULL there.
  unfoldable pub cleanup : Bool → Option Json → Created
  cleanup msg none = failed 0
  cleanup msg (some payload) = failed (held msg + 1)

  abbrev pub optional_string : Option Bytes → Option Json
  optional_string none = none
  optional_string (some s) = some (j.string s)

  abbrev pub add_payload : Json → Option Json → Json
  add_payload o none = o
  add_payload o (some payload) = j.add o payload_key (some payload)

  -- The calls: new_string, new_boolean, new_object, and the three calls of add_ex.
  unfoldable pub protocol_create_base : Calls → Bool → Option Bytes → Option Json → Created
  unfolding cleanup
  protocol_create_base calls success message payload =
      if is_some message && not (calls 0)
      then cleanup false payload
      else if not (calls 1) || not (calls 2) || not (calls 3)
      then cleanup (is_some message) payload
      else if not (calls 4)
      then cleanup false payload
      else if is_some payload && not (calls 5)
      then cleanup false payload
      else created (
          add_payload
            (j.add (j.add j.object message_key (optional_string message)) success_key
              (some (j.boolean success)))
            payload)

  unfoldable pub protocol_create_success : Calls → Option Json → Created
  unfolding protocol_create_base
  protocol_create_success calls payload = protocol_create_base calls true none payload

  unfoldable pub protocol_create_failure : Calls → Bytes → Created
  unfolding protocol_create_base
  protocol_create_failure calls message = protocol_create_base calls false (some message) none

  -- The calls: new_object, new_string of the key, add_ex, new_string of the value, add_ex.
  unfoldable pub protocol_encode_item : Calls → Item → Option Json
  protocol_encode_item calls item =
      if calls 0 && (not (is_some item.key) || calls 1) && calls 2 && calls 3 && calls 4
      then some (
          j.add (j.add j.object key_key (optional_string item.key)) value_key
            (some (j.string item.value)))
      else none
