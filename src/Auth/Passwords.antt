-- ===== src/Auth/Passwords.antt =====
-- Which passwords are accepted.
use mathlib.Core.List.{append_assoc}
use disqueue.Base.{
  ℕ, suc, Bool, true, false, ◌&&◌, Option, none, some, List, [], ◌∷◌, ◌++◌, Bytes, codes, ◌==◌, leb,
  length, strcase_eq, tolower, ok, ◌≡◌, refl, ap, sym, ◌∙◌, ◌↔◌, arith, ==_refl, Bool-cases,
  Option-cases, inl, inr, All,
}
use disqueue.Json.{Calls}
use disqueue.Auth.{
  Entry, Decoder, with_memory, AuthPlaintext, File, Files, auth_read_lines, chunk_size, strchr,
  same_bytes, auth_plaintext_plain_codec_, line_entry, auth_entry_plaintext_add_, add_lines, loaded,
  opened, was_read, refreshed, at_source, auth_plaintext_update_, auth_plaintext_decode_,
  entry_accepts, accepts, verified, auth_plaintext_verify_,
}

pub same_bytes_refl : (xs : Bytes) → same_bytes xs xs ≡ true
unfolding same_bytes
same_bytes_refl [] = refl
same_bytes_refl (x ∷ xs) = rw (==_refl x, same_bytes_refl xs) refl

pub same_bytes-eq : (xs ys : Bytes) → same_bytes xs ys ≡ true → xs ≡ ys
unfolding same_bytes
same_bytes-eq [] [] h = refl
same_bytes-eq [] (y ∷ ys) h = cc
same_bytes-eq (x ∷ xs) [] h = cc
same_bytes-eq (x ∷ xs) (y ∷ ys) h = ground (arith, same_bytes-eq xs ys)

-- A stored password is `$plain$` and the password.
abbrev pub stored : Bytes → Bytes
stored password = codes "$plain$" ++ password

codec_true :
    (password provided : Bytes)
    → auth_plaintext_plain_codec_ (stored password) provided ≡ true
    → password ≡ provided
unfolding auth_plaintext_plain_codec_
codec_true password provided h = elim (Bool-cases (length password == length provided)) [
  | inl e ↦ same_bytes-eq password provided (sym (rw e refl) ∙ h)
  | inr e ↦ absurd (ground arith)
]

codec_same : (password : Bytes) → auth_plaintext_plain_codec_ (stored password) password ≡ true
unfolding auth_plaintext_plain_codec_
codec_same password = rw (==_refl (length password), same_bytes_refl password) refl

-- The entries that the file adds stand before those that were there.
add_lines-keeps :
    (mem : ℕ → Calls) (ls : List Bytes) (entries : List Entry)
    → (new : List Entry) × ((add_lines mem ls entries).1 ≡ new ++ entries)
unfolding add_lines auth_entry_plaintext_add_
add_lines-keeps mem [] entries = ([], refl)
add_lines-keeps mem (l ∷ ls) entries =
    elim (Option-cases (with_memory (mem 0) (line_entry (strchr b':' l)))) [
      | inl e ↦ ([], rw (e, add_lines) refl)
      | inr (x, e) ↦
          let (new, d) = add_lines-keeps (λ n. mem (suc n)) ls (x ∷ entries) in
          (new ++ x ∷ [], rw (e, add_lines) (d ∙ sym (append_assoc new (x ∷ []) entries)))
    ]

loaded-passwords :
    (mtime : ℕ) (auth : AuthPlaintext) (r : Bool × List Entry)
    → (loaded mtime auth r).1.passwords ≡ r.1
loaded-passwords mtime auth (true, entries) = refl
loaded-passwords mtime auth (false, entries) = refl

-- Every password that was loaded stays, whatever the file holds by now.
Keeps : AuthPlaintext → AuthPlaintext → Type 0
Keeps auth auth' = (new : List Entry) × (auth'.passwords ≡ new ++ auth.passwords)

opened-Keeps :
    (file : File) (mtime : ℕ) (auth : AuthPlaintext) (s : Option Bytes)
    → Keeps auth (opened file mtime auth s).1
unfolding Keeps
opened-Keeps file mtime auth none = ([], refl)
opened-Keeps file mtime auth (some s) =
    let ls = auth_read_lines file.buffers 0 none [] chunk_size s in
    let (new, e) = add_lines-keeps file.lines ls auth.passwords in
    (new, loaded-passwords mtime auth (add_lines file.lines ls auth.passwords) ∙ e)

refreshed-Keeps :
    (file : File) (auth : AuthPlaintext) (t : Option ℕ) → Keeps auth (refreshed file auth t).1
unfolding Keeps
refreshed-Keeps file auth none = ([], refl)
refreshed-Keeps file auth (some t) =
    elim (Bool-cases (was_read auth && leb t auth.source_last_read)) [
      | inl e ↦ ([], rw e refl)
      | inr e ↦ let (new, d) = opened-Keeps file t auth file.contents in (new, rw e d)
    ]

update-Keeps :
    (files : Files) (auth : AuthPlaintext) → Keeps auth (auth_plaintext_update_ files auth).1
unfolding auth_plaintext_update_ Keeps
update-Keeps files auth = elim (Option-cases auth.source) [
  | inl e ↦ ([], ap (λ s. (at_source files auth s).1.passwords) e)
  | inr (p, e) ↦
      let (new, d) = refreshed-Keeps (files p) auth (files p).mtime in
      (new, ap (λ s. (at_source files auth s).1.passwords) e ∙ d)
]

accepts-append :
    (u p : Bytes) (new xs : List Entry) → accepts u p xs ≡ true → accepts u p (new ++ xs) ≡ true
unfolding accepts
accepts-append u p [] xs h = h
accepts-append u p (x ∷ new) xs h = ground (arith, accepts-append u p new xs h)

-- Where a header is decoded to a name and a password that the entries in memory accept, and the
-- update of the entries succeeds, the header is accepted, whatever the password file holds by now:
-- a password that was loaded is never revoked.
pub auth_plaintext_verify_-revoked :
    (files : Files) (decoder : Decoder) (header u p : Bytes) (auth : AuthPlaintext)
    → auth_plaintext_decode_ decoder header ≡ ok (some (u, p))
    → accepts u p auth.passwords ≡ true
    → (auth_plaintext_update_ files auth).0 ≡ true
    → auth_plaintext_verify_ files decoder header auth
      ≡ ok (true, (auth_plaintext_update_ files auth).1)
unfolding auth_plaintext_verify_ Keeps
auth_plaintext_verify_-revoked files decoder header u p auth d a r =
    let (new, k) = update-Keeps files auth in
    let now : accepts u p (auth_plaintext_update_ files auth).1.passwords ≡ true =
      ap (accepts u p) k ∙ accepts-append u p new auth.passwords a in
    ap (λ b. verified decoder header (b, (auth_plaintext_update_ files auth).1)) r
    ∙ rw d (rw now refl)

strchr-first :
    (c : ℕ) (front back : Bytes)
    → All (λ b. (b == c) ≡ false) front
    → strchr c (front ++ c ∷ back) ≡ some (front, back)
unfolding strchr
strchr-first c [] back h = rw (==_refl c) refl
strchr-first c (b ∷ front) back h = rw (h.0, strchr-first c front back h.1) refl

both_true : (a b : Bool) → (a && b) ≡ true → (a ≡ true) × (b ≡ true)
both_true true true h = (refl, refl)
both_true true false h = cc
both_true false b h = cc

plain_accepts :
    (u p name given : Bytes)
    → (strcase_eq u name && auth_plaintext_plain_codec_ (stored p) given) ≡ true
    → (strcase_eq u name ≡ true) × (p ≡ given)
plain_accepts u p name given h =
    let (n, g) = both_true (strcase_eq u name) (auth_plaintext_plain_codec_ (stored p) given) h in
    (n, codec_true p given g)

accepts_plain :
    (u p name given : Bytes)
    → (strcase_eq u name ≡ true) × (p ≡ given)
    → (strcase_eq u name && auth_plaintext_plain_codec_ (stored p) given) ≡ true
accepts_plain u p name given h =
    rw h.0 (ap (auth_plaintext_plain_codec_ (stored p)) (sym h.1) ∙ codec_same p)

-- A line of a name without `:`, a `:`, and `$plain$` with a password is added as the first entry,
-- if there is memory for it, and this entry accepts exactly that name, in any case of its letters,
-- with that password.
pub auth_entry_plaintext_add_-accepts :
    (mem : Calls) (u p : Bytes) (entries : List Entry)
    → (mem 0 && mem 1 && mem 2) ≡ true
    → All (λ c. (c == b':') ≡ false) u
    → (x : Entry) × (auth_entry_plaintext_add_ mem (u ++ b':' ∷ stored p) entries
        ≡ some (x ∷ entries))
      × ((name given : Bytes)
          → (entry_accepts name given x ≡ true) ↔ ((strcase_eq u name ≡ true) × (p ≡ given)))
unfolding auth_entry_plaintext_add_ strchr strcase_eq tolower
auth_entry_plaintext_add_-accepts mem u p entries m h = (
  record { username = u; password = stored p; codec_verify = auth_plaintext_plain_codec_ },
  rw (m, strchr-first b':' u (stored p) h, auth_entry_plaintext_add_) refl,
  λ name given. (plain_accepts u p name given, accepts_plain u p name given),
)
