-- ===== src/Protocol/Fields.antt =====
-- What a client reads from the values that the server sends, and who releases the payload.
use disqueue.Base.{
  ℕ, Bool, true, false, not, ◌&&◌, ◌||◌, Option, none, some, Bytes, is_some, if◌then◌else◌, [], ◌∷◌,
  ◌⊎◌, sym, subst, ◌≡◌, ◌≢◌, ◌∙◌, arith, ap,
}
use mathlib.Core.Option.{some-injective}
use disqueue.Json.{JsonC, IsJsonC, Calls}
use disqueue.Queue.State.{Item}
use disqueue.Protocol.{
  created, failed, protocol_create_base, protocol_create_success, protocol_encode_item, message_key,
  success_key, payload_key, key_key, value_key, optional_string, add_payload,
}

abbrev first_byte : Bytes → ℕ
first_byte [] = 0
first_byte (b ∷ s) = b

message-success : message_key ≢ success_key
message-success e = let d : ◌≡◌ {A = ℕ} b'm' b's' = ap first_byte e in absurd (omega arith)

success-payload : success_key ≢ payload_key
success-payload e = let d : ◌≡◌ {A = ℕ} b's' b'p' = ap first_byte e in absurd (omega arith)

message-payload : message_key ≢ payload_key
message-payload e = let d : ◌≡◌ {A = ℕ} b'm' b'p' = ap first_byte e in absurd (omega arith)

key-value : key_key ≢ value_key
key-value e = let d : ◌≡◌ {A = ℕ} b'k' b'v' = ap first_byte e in absurd (omega arith)

-- A result under a test is a result only if the test passes.
if-eq-some {ℓ} : {A : Type ℓ} (c : Bool) (x y : A) → (if c then some x else none) ≡ some y → x ≡ y
if-eq-some true x y e = some-injective x y e
if-eq-some false x y e = cc

module _ (j : JsonC) where
  open j use {Json, get, add, boolean, object}

  -- The object that every response is.
  abbrev pub response : Bool → Option Bytes → Option Json → Json
  response success message payload =
      add_payload j
        (add (add object message_key (optional_string j message)) success_key
          (some (boolean success)))
        payload

  created-response :
      (calls : Calls) (success : Bool) (message : Option Bytes) (payload : Option Json) (o : Json)
      → protocol_create_base j calls success message payload ≡ created o
      → response success message payload ≡ o
  unfolding protocol_create_base
  created-response calls success message payload o e = ground arith

  -- Whichever calls to json-c fail, a payload that protocol_create_success is given ends up in the
  -- response, or is released exactly once.
  pub protocol_create_success_owns :
      (calls : Calls) (payload : Json)
      → (protocol_create_success j calls (some payload)
          ≡ created (response true none (some payload)))
        ⊎ (protocol_create_success j calls (some payload) ≡ failed 1)
  unfolding protocol_create_success
  protocol_create_success_owns calls payload = ground arith

module _ (j : JsonC) (laws : IsJsonC j) where
  open j use {Json, get, get_string, add, string, boolean, object}

  -- With the documented laws of json-c: an item that is encoded has its key, or null, under `key`,
  -- and its value under `value`.
  pub protocol_encode_item-get :
      (calls : Calls) (item : Item) (o : Json)
      → protocol_encode_item j calls item ≡ some o
      → (get o key_key ≡ some (optional_string j item.key))
        × (get o value_key ≡ some (some (string item.value)))
  unfolding protocol_encode_item
  protocol_encode_item-get calls item o e =
      let keyed : Json = add object key_key (optional_string j item.key) in
      let whole : Json = add keyed value_key (some (string item.value)) in
      let q : whole ≡ o =
        if-eq-some (calls 0 && (not (is_some item.key) || calls 1) && calls 2 && calls 3 && calls 4)
          whole o e in
      (
        ap (λ x. get x key_key) (sym q)
            ∙ laws.get-add_ne keyed value_key key_key (some (string item.value))
                (λ d. key-value (sym d))
            ∙ laws.get-add_self object key_key (optional_string j item.key),
        ap (λ x. get x value_key) (sym q)
            ∙ laws.get-add_self keyed value_key (some (string item.value)),
      )

  base-get :
      (success : Bool) (message : Option Bytes)
      → let o = response j success message none in
        (get o success_key ≡ some (some (boolean success)))
        × (get o message_key ≡ some (optional_string j message))
        × (get o payload_key ≡ none)
  base-get success message =
      let m : Json = add object message_key (optional_string j message) in
      let v : Option Json = some (boolean success) in
      (
        laws.get-add_self m success_key v,
        laws.get-add_ne m success_key message_key v (λ e. message-success (sym e))
            ∙ laws.get-add_self object message_key (optional_string j message),
        laws.get-add_ne m success_key payload_key v success-payload
            ∙ laws.get-add_ne object message_key payload_key (optional_string j message)
                message-payload
            ∙ laws.get-object payload_key,
      )

  response-get :
      (success : Bool) (message : Option Bytes) (payload : Option Json)
      → let o = response j success message payload in
        (get o success_key ≡ some (some (boolean success)))
        × (get o message_key ≡ some (optional_string j message))
        × (get o payload_key ≡ elim payload [ none ↦ none | some p ↦ some (some p) ])
  response-get success message none = base-get success message
  response-get success message (some p) =
      let o : Json = response j success message none in
      let b = base-get success message in
      (
        laws.get-add_ne o payload_key success_key (some p) (λ e. success-payload (sym e)) ∙ b.0,
        laws.get-add_ne o payload_key message_key (some p) (λ e. message-payload (sym e)) ∙ b.1,
        laws.get-add_self o payload_key (some p),
      )

  -- With the documented laws of json-c: a response that is created has its status, its message or
  -- null, and its payload; without a payload it has no key `payload` at all.
  pub protocol_create_base-get :
      (calls : Calls) (success : Bool) (message : Option Bytes) (payload : Option Json) (o : Json)
      → protocol_create_base j calls success message payload ≡ created o
      → (get o success_key ≡ some (some (boolean success)))
        × (get o message_key ≡ some (optional_string j message))
        × (get o payload_key ≡ elim payload [ none ↦ none | some p ↦ some (some p) ])
  protocol_create_base-get calls success message payload o e =
      subst
        (λ x.
          (get x success_key ≡ some (some (boolean success)))
          × (get x message_key ≡ some (optional_string j message))
          × (get x payload_key ≡ elim payload [ none ↦ none | some p ↦ some (some p) ]))
        (created-response j calls success message payload o e)
        (response-get success message payload)
