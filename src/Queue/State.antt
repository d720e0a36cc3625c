-- ===== src/Queue/State.antt =====
-- The structs of src/queue-internal.h, and the part of the program's memory that queue.c reaches.
-- A TAILQ is the list of its nodes. An item is known by its address. It lies either in the list of
-- its owner or, once it is out of that list, among the detached items that some caller holds; a
-- pointer to neither is dangling. The pair of `addcb` and `addcbarg` is one value of a type C.
use disqueue.Base.{
  ℕ, ◌+◌, ◌-◌, ◌%◌, ◌^◌, Bool, true, false, Option, none, some, List, Bytes, strcase_eq, ℤ, Result,
  is_some,
}

pub record Item : Type 0 where
  pub addr : ℕ
  pub key : Option Bytes
  pub value : Bytes
  pub inserted : Bool
  pub lockcount : ℤ

pub record Callback (C : Type 0) : Type 0 where
  pub key : Option Bytes
  pub addcb : Option C

pub record Queue (C : Type 0) : Type 0 where
  pub uuid : Bytes
  pub keyed_count : ℕ
  pub keyed_callback_count : ℕ
  pub item_count : ℕ
  pub callback_count : ℕ
  pub items : List Item
  pub callbacks : List (Callback C)

-- `next` is an address that has not been handed out; `ext` is what a callback may change besides.
pub record Store (C X : Type 0) : Type 0 where
  pub queue : Queue C
  pub detached : List Item
  pub next : ℕ
  pub ext : X

-- A callback is called with the address of the item.
abbrev pub Invoke : Type 0 → Type 0 → Type 0
Invoke C X = C → ℕ → Store C X → Result (Store C X)

-- `size_t` of 64 bits: `n++` and `n--` wrap around.
abbrev pub size_mod : ℕ
size_mod = 2 ^ 64

abbrev pub size_inc : ℕ → ℕ
size_inc n = (n + 1) % size_mod

abbrev pub size_dec : ℕ → ℕ
size_dec n = (n + size_mod - 1) % size_mod

-- `key && !strcasecmp(stored, key)` for a stored key that is present.
abbrev pub same_key : Bytes → Option Bytes → Bool
same_key stored none = false
same_key stored (some k) = strcase_eq stored k

-- `!key || (item->key && !strcasecmp(item->key, key))`.
unfoldable pub item_matches : Option Bytes → Item → Bool
item_matches none item = true
item_matches (some k) item = elim item.key [ none ↦ false | some stored ↦ strcase_eq stored k ]

-- `!callback->key || (key && !strcasecmp(callback->key, key))`.
unfoldable pub callback_accepts : {C : Type 0} → Option Bytes → Callback C → Bool
callback_accepts key callback = elim callback.key [
  | none ↦ true
  | some stored ↦ same_key stored key
]

abbrev pub is_keyed : Item → Bool
is_keyed item = is_some item.key

abbrev pub is_keyed_callback : {C : Type 0} → Callback C → Bool
is_keyed_callback callback = is_some callback.key
