-- ===== src/Json.antt =====
-- json-c, as far as the program calls it. A call that builds a value may fail for want of memory;
-- whether it does is an argument of the function that makes the call (`Calls`).
use disqueue.Base.{Bool, Option, none, some, Bytes, ◌≡◌, ◌≢◌, ℕ}

pub record JsonC : Type 1 where
  pub Json : Type 0
  pub string : Bytes → Json  -- json_object_new_string
  pub boolean : Bool → Json  -- json_object_new_boolean
  pub object : Json  -- json_object_new_object
  pub array : Json  -- json_object_new_array
  pub add : Json → Bytes → Option Json → Json  -- json_object_object_add_ex, a new key
  pub push : Json → Json → Json  -- json_object_array_add
  pub get : Json → Bytes → Option (Option Json)  -- json_object_object_get_ex
  pub get_string : Json → Option Bytes  -- json_object_get_string
  pub print : Json → Option Bytes  -- json_object_to_json_string_length
  pub parse : Bytes → Option Json  -- json_tokener_parse

-- What json-c documents of objects: a key that was added is found with its value, no other key is
-- changed by that, a new object has no key, and a string holds the text that it was made from.
pub record IsJsonC (j : JsonC) : Type 0 where
  pub get-object : (k : Bytes) → j.get j.object k ≡ none
  pub get-add_self : (o : j.Json) (k : Bytes) (v : Option j.Json) → j.get (j.add o k v) k ≡ some v
  pub get-add_ne :
      (o : j.Json) (k l : Bytes) (v : Option j.Json) → k ≢ l → j.get (j.add o k v) l ≡ j.get o l
  pub get_string-string : (s : Bytes) → j.get_string (j.string s) ≡ some s

-- Whether the calls that one function makes succeed, counted from 0 in the order of its text.
abbrev pub Calls : Type 0
Calls = ℕ → Bool
