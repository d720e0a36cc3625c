-- ===== src/Tests/Data.antt =====
-- Inputs for the examples: queues, a registry, a json-c and a libevent that are small enough to
-- compute with.
use disqueue.Base.{
  ℕ, suc, ◌≡◌, ◌≢◌, refl, Bool, true, false, Option, none, some, [], ◌∷◌, Bytes, codes,
  if◌then◌else◌, ok, pos, Bool-cases, inl, inr,
}
use disqueue.Auth.{same_bytes}
use disqueue.Auth.Passwords.{same_bytes_refl, same_bytes-eq}
use disqueue.Json.{JsonC, IsJsonC}
use disqueue.Auth.{
  AuthPlaintext, auth_plaintext_new_, auth_plaintext_set_password_file_, auth_plaintext_verify_,
}
use disqueue.Auth.Methods.{Auth, Auths, AuthOutside}
use disqueue.Queue.State.{Item, Callback, Queue, Store, Invoke}
use disqueue.Queue.Item.{Alloc}
use disqueue.Queue.Counts.{Counts}
use disqueue.Manager.Uuid.{sample, queue_get_uuid}
use disqueue.Manager.State.{Manager, ManagerQueue, Want}
use disqueue.Manager.Registry.{Platform}
use disqueue.World.{World, Connection}
use disqueue.Connection.Wait.{Outside}
use disqueue.Connection.Http.{Evhttp, Memory}

abbrev pub apple : Bytes
apple = codes "apple"

abbrev pub item_of : ℕ → Option Bytes → Item
item_of a key = record {
  addr = a;
  key = key;
  value = codes "v";
  inserted = true;
  lockcount = pos 0;
}

abbrev pub keyed_item : Item
keyed_item = item_of 1 (some apple)

-- Two items, of which the second has a key.
abbrev pub stocked : Queue ℕ
stocked = record {
  uuid = sample;
  keyed_count = 1;
  keyed_callback_count = 0;
  item_count = 2;
  callback_count = 0;
  items = item_of 0 none ∷ keyed_item ∷ [];
  callbacks = [];
}

pub stocked-Counts : Counts stocked
stocked-Counts = record {
  items_counted = refl;
  keyed_counted = refl;
  callbacks_counted = refl;
  keyed_callbacks_counted = refl;
}

-- A callback that waits for a key.
abbrev pub waiter : Callback ℕ
waiter = record { key = some apple; addcb = some 3 }

abbrev pub awaited : Queue ℕ
awaited = record {
  uuid = sample;
  keyed_count = 0;
  keyed_callback_count = 1;
  item_count = 0;
  callback_count = 1;
  items = [];
  callbacks = waiter ∷ [];
}

pub awaited-Counts : Counts awaited
awaited-Counts = record {
  items_counted = refl;
  keyed_counted = refl;
  callbacks_counted = refl;
  keyed_callbacks_counted = refl;
}

abbrev pub stocked_store : Store ℕ ℕ
stocked_store = record { queue = stocked; detached = []; next = 4; ext = 0 }

abbrev pub awaited_store : Store ℕ ℕ
awaited_store = record { queue = awaited; detached = []; next = 4; ext = 0 }

abbrev pub memory : Alloc
memory = record { node = true; key = true; value = true }

-- A callback that counts its calls.
abbrev pub tally : Invoke ℕ ℕ
tally c a s = ok (record s { ext = suc s.ext })

-- A registry with one queue, one want of connection 7 and no server.
abbrev pub stocked_queue : ManagerQueue
stocked_queue = record { addr = 2; q = stocked; id = queue_get_uuid 4 sample }

abbrev pub want : Want
want = record { addr = 3; identifier = codes "w"; cancelled = false; queue = 2; client = 7 }

abbrev pub registry : Manager
registry = record {
  servers = [];
  queues = stocked_queue ∷ [];
  wants = want ∷ [];
  detached = [];
  next = 4;
}

abbrev pub no_queues : Manager
no_queues = record { servers = []; queues = []; wants = []; detached = []; next = 0 }

abbrev pub sixteen : Bytes
sixteen = 9 ∷ 9 ∷ 9 ∷ 9 ∷ 9 ∷ 9 ∷ 9 ∷ 9 ∷ 9 ∷ 9 ∷ 9 ∷ 9 ∷ 9 ∷ 9 ∷ 9 ∷ 9 ∷ []

abbrev pub platform_of : ℕ → Platform
platform_of long = record {
  long = long;
  stack = sixteen;
  calloc_manager_queue = true;
  calloc_queue = true;
  random = none;
}

-- JSON values as the calls that made them.
pub data Document : Type 0 where
  empty_object empty_array : Document
  text : Bytes → Document
  truth : Bool → Document
  member : Document → Bytes → Document → Document
  null_member : Document → Bytes → Document
  element : Document → Document → Document

abbrev document_add : Document → Bytes → Option Document → Document
document_add o k none = null_member o k
document_add o k (some v) = member o k v

unfoldable pub document_get : Document → Bytes → Option (Option Document)
unfolding same_bytes
document_get empty_object k = none
document_get empty_array k = none
document_get (text s) k = none
document_get (truth b) k = none
document_get (member o l v) k =
    let rest = document_get o k in if same_bytes l k then some (some v) else rest
document_get (null_member o l) k =
    let rest = document_get o k in if same_bytes l k then some none else rest
document_get (element a v) k = none

unfoldable pub document_string : Document → Option Bytes
document_string empty_object = none
document_string empty_array = none
document_string (text s) = some s
document_string (truth b) = none
document_string (member o l v) = none
document_string (null_member o l) = none
document_string (element a v) = none

abbrev pub documents : JsonC
documents = record {
  Json = Document;
  string = text;
  boolean = truth;
  object = empty_object;
  array = empty_array;
  add = document_add;
  push = element;
  get = document_get;
  get_string = document_string;
  print = λ o. some (codes "{}");
  parse = λ s. some (text s);
}

add_self :
    (o : Document) (k : Bytes) (v : Option Document) → document_get (document_add o k v) k ≡ some v
unfolding document_get
add_self o k none = rw (same_bytes_refl k) refl
add_self o k (some v) = rw (same_bytes_refl k) refl

differ : (k l : Bytes) → k ≢ l → same_bytes k l ≡ false
differ k l d = elim (Bool-cases (same_bytes k l)) [
  | inl e ↦ absurd (d (same_bytes-eq k l e))
  | inr e ↦ e
]

add_ne :
    (o : Document) (k l : Bytes) (v : Option Document)
    → k ≢ l
    → document_get (document_add o k v) l ≡ document_get o l
unfolding document_get
add_ne o k l none d = rw (differ k l d) refl
add_ne o k l (some v) d = rw (differ k l d) refl

pub documents-IsJsonC : IsJsonC documents
unfolding document_get document_string
documents-IsJsonC = record {
  get-object = λ k. refl;
  get-add_self = add_self;
  get-add_ne = add_ne;
  get_string-string = λ s. refl;
}

-- A libevent whose forms have a name, a key and a value; the body is the name.
pub data Form : Type 0 where
  form : Option Bytes → Option Bytes → Option Bytes → Form

unfoldable pub form_find : Form → Bytes → Option Bytes
unfolding same_bytes
form_find (form name key value) k =
    if same_bytes k (codes "name")
    then name
    else if same_bytes k (codes "key")
    then key
    else if same_bytes k (codes "value")
    then value
    else none

abbrev pub forms : Evhttp
forms = record {
  Params = Form;
  parse_query = λ body. some (form (some body) none (some (codes "v")));
  find_header = form_find;
}

abbrev pub outside : Outside
outside = record {
  wire = record {
    queue_msg = λ a f. true;
    want_write = λ a. true;
    event_send = λ a. true;
    close_sent = λ a. false;
  };
  success = λ n. true;
  failure = λ n. true;
  encode = λ n. true;
  respond = λ n. true;
  platform = platform_of 4;
  want_memory = true;
  callback_memory = true;
  read = true;
}

abbrev pub plenty : Memory
plenty = record { item = memory; build = λ n. true; header = true }

abbrev pub open_connection : Connection
open_connection = record { addr = 7; active = true; reading = true; outbox = []; messages = [] }

abbrev pub world : World
world = record { manager = registry; connections = open_connection ∷ [] }

abbrev passwords : AuthPlaintext
passwords = record { source = none; source_last_read = 0; passwords = [] }

-- No object has been read, and no file can be.
abbrev pub no_auths : Auths
no_auths = λ a. passwords

abbrev pub unread : AuthOutside
unread = record {
  files =
      λ path. record { mtime = none; contents = none; buffers = λ n. true; lines = λ n k. true };
  decoder = record { base64 = λ s. none; memory = λ n. true };
}

abbrev pub plaintext : Auth
plaintext = record {
  address = 0;
  methoddata = passwords;
  callbacks = record {
    auth_new = auth_plaintext_new_;
    auth_verify = auth_plaintext_verify_;
    auth_set_password_file = some auth_plaintext_set_password_file_;
  };
}
