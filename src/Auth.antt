-- ===== src/Auth.antt =====
-- src/auth-plaintext.c: Basic authentication against a password file. The file system, the memory and
-- the decoder of base64 are parameters; neither the file nor a decoded header has a byte 0.
pub mod Passwords
pub mod Methods
use disqueue.Base.{
  ℕ, zero, suc, ◌-◌, Bool, true, false, not, ◌&&◌, ◌||◌, Option, none, some, List, [], ◌∷◌, ◌++◌,
  Bytes, codes, ◌==◌, ltb, leb, if◌then◌else◌, length, strcase_eq, Result, ok, fault, out_of_bounds,
  ◌>>=◌, is_some,
}
use disqueue.Json.{Calls}

pub record Entry : Type 0 where
  pub username : Bytes
  pub password : Bytes
  pub codec_verify : Bytes → Bytes → Bool

-- `source_last_read` is 0 before the first read.
pub record AuthPlaintext : Type 0 where
  pub source : Option Bytes
  pub source_last_read : ℕ
  pub passwords : List Entry

-- What stat and fopen find at a path. While it is read: whether buffer n can be kept, that is,
-- auth_string_extend gets its memory and, at the start of a line, fgetpos succeeds; and whether the
-- calls for line n get their memory.
pub record File : Type 0 where
  pub mtime : Option ℕ
  pub contents : Option Bytes
  pub buffers : Calls
  pub lines : ℕ → Calls

abbrev pub Files : Type 0
Files = Bytes → File

abbrev pub isgraph : ℕ → Bool
isgraph c = leb 33 c && leb c 126

-- The bytes up to the last that isgraph.
unfoldable pub graph_part : Bytes → Bytes
graph_part [] = []
graph_part (c ∷ s) =
    let rest = graph_part s in if length rest == 0 && not (isgraph c) then [] else c ∷ rest

abbrev old : Option Bytes → Bytes
old none = []
old (some s) = s

abbrev pub auth_string_extend : Option Bytes → Bytes → Bytes
auth_string_extend original extension = old original ++ graph_part extension

-- LINE_SIZE, less the terminator that fgets adds.
abbrev pub chunk_size : ℕ
chunk_size = 127

-- The lines that the calls of auth_read_line return, until it returns NULL, which it also does where
-- a buffer cannot be kept: the number of buffers so far, the line so far, what fgets has read into
-- its buffer, and the room that is left there.
unfoldable pub auth_read_lines : Calls → ℕ → Option Bytes → Bytes → ℕ → Bytes → List Bytes
unfolding graph_part
auth_read_lines kept n none [] room [] = []
auth_read_lines kept n (some line) [] room [] = line ∷ []
auth_read_lines kept n line (b ∷ chunk) room [] =
    if kept n then auth_string_extend line (b ∷ chunk) ∷ [] else []
auth_read_lines kept n line chunk room (c ∷ s) =
    let extended = auth_string_extend line (chunk ++ c ∷ []) in
    let ended = auth_read_lines kept (suc n) none [] chunk_size s in
    let full = auth_read_lines kept (suc n) (some extended) [] chunk_size s in
    let more = auth_read_lines kept n line (chunk ++ c ∷ []) (room - 1) s in
    if c == b'\n'
    then (if kept n then extended ∷ ended else [])
    else if leb room 1
    then (if kept n then full else [])
    else more

-- strchr: what stands before the byte, and what behind it.
unfoldable pub strchr : ℕ → Bytes → Option (Bytes × Bytes)
strchr c [] = none
strchr c (b ∷ s) =
    let rest = strchr c s in
    if b == c
    then some ([], s)
    else elim rest [ none ↦ none | some (front, back) ↦ some (b ∷ front, back) ]

unfoldable pub same_bytes : Bytes → Bytes → Bool
same_bytes [] [] = true
same_bytes [] (_ ∷ _) = false
same_bytes (_ ∷ _) [] = false
same_bytes (x ∷ xs) (y ∷ ys) = x == y && same_bytes xs ys

abbrev pub drop : ℕ → Bytes → Bytes
drop zero s = s
drop (suc n) [] = []
drop (suc n) (c ∷ s) = drop n s

abbrev pub take : ℕ → Bytes → Bytes
take zero s = []
take (suc n) [] = []
take (suc n) (c ∷ s) = c ∷ take n s

-- CRYPTO_memcmp compares as many bytes as both strings have.
unfoldable pub auth_plaintext_plain_codec_ : Bytes → Bytes → Bool
unfolding same_bytes
auth_plaintext_plain_codec_ file provided =
    let password = drop 7 file in
    if length password == length provided then same_bytes password provided else false

-- The entry of a line whose password has this type.
abbrev pub typed_entry : Bytes → Bytes → Option (Bytes × Bytes) → Option Entry
typed_entry username password none = none
typed_entry username password (some (type, salt)) =
    if length type == 5 && strcase_eq type (codes "plain")
    then some (record {
      username = username;
      password = password;
      codec_verify = auth_plaintext_plain_codec_;
    })
    else none

abbrev pub line_entry : Option (Bytes × Bytes) → Option Entry
line_entry none = none
line_entry (some (username, [])) = none
line_entry (some (username, c ∷ password)) =
    if c == b'$' then typed_entry username (c ∷ password) (strchr b'$' password) else none

-- `if (!…) { goto error; }` after the calls that make the entry and its two texts.
abbrev pub with_memory : Calls → Option Entry → Option Entry
with_memory mem x = if mem 0 && mem 1 && mem 2 then x else none

-- The new list of entries, or `none` for 0.
unfoldable pub auth_entry_plaintext_add_ : Calls → Bytes → List Entry → Option (List Entry)
unfolding strchr auth_plaintext_plain_codec_
auth_entry_plaintext_add_ mem line entries =
    elim (with_memory mem (line_entry (strchr b':' line))) [
      | none ↦ none
      | some x ↦ some (x ∷ entries)
    ]

-- The loop over the lines: whether each was added, and the entries after that.
unfoldable pub add_lines : (ℕ → Calls) → List Bytes → List Entry → Bool × List Entry
unfolding auth_entry_plaintext_add_
add_lines mem [] entries = (true, entries)
add_lines mem (l ∷ ls) entries = elim (auth_entry_plaintext_add_ (mem 0) l entries) [
  | none ↦ (false, entries)
  | some entries' ↦ add_lines (λ n. mem (suc n)) ls entries'
]

abbrev pub loaded : ℕ → AuthPlaintext → Bool × List Entry → Bool × AuthPlaintext
loaded mtime auth (true, entries) =
    (true, record auth { source_last_read = mtime; passwords = entries })
loaded mtime auth (false, entries) = (false, record auth { passwords = entries })

abbrev pub opened : File → ℕ → AuthPlaintext → Option Bytes → Bool × AuthPlaintext
opened file mtime auth none = (false, auth)
opened file mtime auth (some s) =
    loaded mtime auth
      (add_lines file.lines (auth_read_lines file.buffers 0 none [] chunk_size s) auth.passwords)

abbrev pub was_read : AuthPlaintext → Bool
was_read auth = not (auth.source_last_read == 0)

-- From the answer of stat on.
abbrev pub refreshed : File → AuthPlaintext → Option ℕ → Bool × AuthPlaintext
refreshed file auth none = (was_read auth, auth)
refreshed file auth (some mtime) =
    if was_read auth && leb mtime auth.source_last_read
    then (true, auth)
    else opened file mtime auth file.contents

abbrev pub at_source : Files → AuthPlaintext → Option Bytes → Bool × AuthPlaintext
at_source files auth none = (was_read auth, auth)
at_source files auth (some path) = refreshed (files path) auth (files path).mtime

unfoldable pub auth_plaintext_update_ : Files → AuthPlaintext → Bool × AuthPlaintext
unfolding auth_read_lines add_lines
auth_plaintext_update_ files auth = at_source files auth auth.source

unfoldable pub auth_plaintext_new_ : Bool → Option AuthPlaintext
auth_plaintext_new_ false = none
auth_plaintext_new_ true = some (record { source = none; source_last_read = 0; passwords = [] })

-- The second argument is whether strdup gets its memory. `source_last_read` stays.
unfoldable pub auth_plaintext_set_password_file_ :
    Bytes → Bool → AuthPlaintext → Bool × AuthPlaintext
auth_plaintext_set_password_file_ file mem auth =
    (mem, record auth { source = if mem then some file else none; passwords = [] })

-- The loop that skips white space does not stop at the terminator.
abbrev pub skip_blank : Bytes → Result (Option Bytes)
skip_blank [] = fault out_of_bounds
skip_blank (c ∷ s) = let rest = skip_blank s in if isgraph c then ok (some (c ∷ s)) else rest

unfoldable pub auth_skip_basic : Bytes → Result (Option Bytes)
unfolding strcase_eq
auth_skip_basic header =
    if strcase_eq (take 6 header) (codes "Basic ") then skip_blank (drop 6 header) else ok none

-- What BIO_read decodes, `none` where it reads nothing, and whether calloc and the two calls of
-- strdup get their memory.
pub record Decoder : Type 0 where
  pub base64 : Bytes → Option Bytes
  pub memory : Calls

-- The copies of the name and the password.
abbrev pub copied : Calls → Option (Bytes × Bytes) → Option (Bytes × Bytes)
copied mem found = if mem 1 && mem 2 then found else none

abbrev pub decoded_of : Calls → Option Bytes → Option (Bytes × Bytes)
decoded_of mem none = none
decoded_of mem (some decoded) = copied mem (strchr b':' decoded)

unfoldable pub auth_plaintext_decode_ : Decoder → Bytes → Result (Option (Bytes × Bytes))
unfolding auth_skip_basic strchr
auth_plaintext_decode_ d header = do
  found ← auth_skip_basic header
  ok (elim found [
    | none ↦ none
    | some s ↦ if d.memory 0 then decoded_of d.memory (d.base64 s) else none
  ])

abbrev pub entry_accepts : Bytes → Bytes → Entry → Bool
entry_accepts username password x =
    strcase_eq x.username username && x.codec_verify x.password password

-- The loop over the entries.
unfoldable pub accepts : Bytes → Bytes → List Entry → Bool
accepts username password [] = false
accepts username password (x ∷ xs) =
    let rest = accepts username password xs in
    if entry_accepts username password x then true else rest

abbrev pub checked : AuthPlaintext → Option (Bytes × Bytes) → Bool × AuthPlaintext
checked auth none = (false, auth)
checked auth (some (username, password)) = (accepts username password auth.passwords, auth)

abbrev pub verified : Decoder → Bytes → Bool × AuthPlaintext → Result (Bool × AuthPlaintext)
verified d header (false, auth) = ok (false, auth)
verified d header (true, auth) = do
  decoded ← auth_plaintext_decode_ d header
  ok (checked auth decoded)

unfoldable pub auth_plaintext_verify_ :
    Files → Decoder → Bytes → AuthPlaintext → Result (Bool × AuthPlaintext)
unfolding auth_plaintext_update_ auth_plaintext_decode_ accepts
auth_plaintext_verify_ files d header auth = verified d header (auth_plaintext_update_ files auth)
