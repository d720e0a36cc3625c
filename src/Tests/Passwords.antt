-- ===== src/Tests/Passwords.antt =====
-- The theorems on auth-plaintext.c: a file that has lost its only line, and a line that is added.
use disqueue.Base.{
  ◌==◌, true, none, some, [], ◌∷◌, Bytes, codes, ok, ◌≡◌, refl, ◌↔◌, strcase_eq, tolower,
}
use disqueue.Auth.{
  Entry, Decoder, AuthPlaintext, File, Files, auth_read_lines, add_lines, strchr, same_bytes,
  auth_plaintext_plain_codec_, auth_entry_plaintext_add_, auth_plaintext_update_,
  auth_plaintext_decode_, auth_skip_basic, entry_accepts, accepts, auth_plaintext_verify_,
}
use disqueue.Auth.Passwords.{
  stored, auth_plaintext_verify_-revoked, auth_entry_plaintext_add_-accepts,
}

abbrev bob : Bytes
bob = codes "bob"

abbrev secret : Bytes
secret = codes "pw"

abbrev entry : Entry
entry = record {
  username = bob;
  password = stored secret;
  codec_verify = auth_plaintext_plain_codec_;
}

abbrev known : AuthPlaintext
known = record { source = some (codes "f"); source_last_read = 5; passwords = entry ∷ [] }

-- The file was emptied later.
abbrev emptied : Files
emptied path = record {
  mtime = some 9;
  contents = some [];
  buffers = λ n. true;
  lines = λ n k. true;
}

abbrev decoder : Decoder
decoder = record { base64 = λ s. some (codes "bob:pw"); memory = λ n. true }

auth_plaintext_verify_-revoked_example :
    auth_plaintext_verify_ emptied decoder (codes "Basic Ym9iOnB3") known
    ≡ ok (true, (auth_plaintext_update_ emptied known).1)
unfolding auth_plaintext_update_ auth_plaintext_decode_ auth_skip_basic strchr strcase_eq tolower
    accepts auth_plaintext_plain_codec_ same_bytes auth_read_lines add_lines
auth_plaintext_verify_-revoked_example =
    auth_plaintext_verify_-revoked emptied decoder (codes "Basic Ym9iOnB3") bob secret known refl
      refl refl

auth_entry_plaintext_add_-accepts_example :
    (x : Entry) × (auth_entry_plaintext_add_ (λ n. true) (codes "bob:$plain$pw") [] ≡ some (x ∷ []))
    × ((name given : Bytes)
        → (entry_accepts name given x ≡ true) ↔ ((strcase_eq bob name ≡ true) × (secret ≡ given)))
auth_entry_plaintext_add_-accepts_example =
    auth_entry_plaintext_add_-accepts (λ n. true) bob secret [] refl (refl, (refl, (refl, tt)))

-- A space at the end of a full buffer is lost, and an empty line is a line.
lines_of :
    auth_read_lines (λ n. true) 0 none [] 3 (codes "ab cd\n\nx")
    ≡ codes "abcd" ∷ [] ∷ codes "x" ∷ []
unfolding auth_read_lines disqueue.Auth.graph_part
lines_of = refl

-- Where the second line gets no memory, the file is taken as read, and its last line is missing.
partly_read :
    auth_plaintext_update_
      (λ path. record {
        mtime = some 9;
        contents = some (codes "bob:$plain$pw\ntom:$plain$x\n");
        buffers = λ n. n == 0;
        lines = λ n k. true;
      })
      (record known { passwords = [] })
    ≡ (true, record known { source_last_read = 9; passwords = entry ∷ [] })
unfolding auth_plaintext_update_ auth_read_lines add_lines auth_entry_plaintext_add_ strchr
    strcase_eq tolower disqueue.Auth.graph_part
partly_read = refl
