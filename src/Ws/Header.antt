-- ===== src/Ws/Header.antt =====
-- header_contains of src/ws.c, which looks for a word in a header that is a list of words.
use disqueue.Base.{
  ℕ, Bool, true, false, ◌||◌, List, [], ◌∷◌, ◌++◌, Bytes, ◌==◌, if◌then◌else◌, strcase_eq, ◌≡◌,
  refl, sym, ap, ◌∙◌, All,
}

abbrev comma : ℕ
comma = b','

abbrev space : ℕ
space = b' '

-- strtok leaves out the tokens that are empty.
abbrev token_of : Bytes → List Bytes → List Bytes
token_of [] ts = ts
token_of (c ∷ t) ts = (c ∷ t) ∷ ts

-- The tokens of `value` for the delimiter `,`, with what is read of the first one before it.
unfoldable pub strtok : Bytes → Bytes → List Bytes
strtok read [] = token_of read []
strtok read (c ∷ value) =
    let next = strtok [] value in
    let longer = strtok (read ++ c ∷ []) value in if c == comma then token_of read next else longer

-- `while (token[0] == ' ') token++`.
unfoldable pub skip_spaces : Bytes → Bytes
skip_spaces [] = []
skip_spaces (c ∷ token) = let rest = skip_spaces token in if c == space then rest else c ∷ token

-- The loop over the tokens.
unfoldable pub any_token : List Bytes → Bytes → Bool
unfolding skip_spaces
any_token [] look = false
any_token (token ∷ ts) look = strcase_eq (skip_spaces token) look || any_token ts look

unfoldable pub header_contains : Bytes → Bytes → Bool
unfolding strtok any_token
header_contains value look = any_token (strtok [] value) look

-- A header with these words.
abbrev pub header_of : List Bytes → Bytes
header_of [] = []
header_of (word ∷ []) = word
header_of (word ∷ w ∷ ws) = word ++ comma ∷ space ∷ header_of (w ∷ ws)

-- One of the words is the one looked for, letters of either case being the same.
abbrev pub has_word : List Bytes → Bytes → Bool
has_word [] look = false
has_word (word ∷ ws) look = strcase_eq word look || has_word ws look

-- A word: not empty, without a comma, and not started by a space.
pub data IsWord : Bytes → Type 0 where
  starts :
      (c : ℕ) (t : Bytes)
      → (c == space) ≡ false
      → All (λ b. (b == comma) ≡ false) (c ∷ t)
      → IsWord (c ∷ t)

no_comma : (word : Bytes) → IsWord word → All (λ b. (b == comma) ≡ false) word
no_comma word (starts c t s h) = h

append_nil : (xs : Bytes) → xs ++ [] ≡ xs
append_nil [] = refl
append_nil (x ∷ xs) = ap (λ ys. x ∷ ys) (append_nil xs)

append_assoc : (xs ys zs : Bytes) → (xs ++ ys) ++ zs ≡ xs ++ (ys ++ zs)
append_assoc [] ys zs = refl
append_assoc (x ∷ xs) ys zs = ap (λ r. x ∷ r) (append_assoc xs ys zs)

strtok-last :
    (read t : Bytes) → All (λ b. (b == comma) ≡ false) t → strtok read t ≡ token_of (read ++ t) []
unfolding strtok
strtok-last read [] h = ap (λ r. token_of r []) (sym (append_nil read))
strtok-last read (c ∷ t) h =
    rw (h.0)
      (strtok-last (read ++ c ∷ []) t h.1 ∙ ap (λ r. token_of r []) (append_assoc read (c ∷ []) t))

strtok-comma :
    (read t rest : Bytes)
    → All (λ b. (b == comma) ≡ false) t
    → strtok read (t ++ comma ∷ rest) ≡ token_of (read ++ t) (strtok [] rest)
unfolding strtok
strtok-comma read [] rest h = ap (λ r. token_of r (strtok [] rest)) (sym (append_nil read))
strtok-comma read (c ∷ t) rest h = rw (h.0) (
    strtok-comma (read ++ c ∷ []) t rest h.1
    ∙ ap (λ r. token_of r (strtok [] rest)) (append_assoc read (c ∷ []) t))

-- What strtok has read when a word begins: nothing, or the space behind a comma.
abbrev lead : Bool → Bytes
lead false = []
lead true = space ∷ []

first_word :
    (b : Bool) (word look : Bytes) (ts : List Bytes)
    → IsWord word
    → any_token (token_of (lead b ++ word) ts) look ≡ (strcase_eq word look || any_token ts look)
unfolding any_token skip_spaces
first_word false word look ts (starts c t s h) = rw (s, skip_spaces) refl
first_word true word look ts (starts c t s h) = rw (s, skip_spaces) refl

any_word :
    (b : Bool) (word : Bytes) (ws : List Bytes) (look : Bytes)
    → IsWord word
    → All IsWord ws
    → any_token (strtok (lead b) (header_of (word ∷ ws))) look ≡ has_word (word ∷ ws) look
unfolding any_token strtok
any_word b word [] look i is =
    ap (λ ts. any_token ts look) (strtok-last (lead b) word (no_comma word i))
    ∙ first_word b word look [] i
any_word b word (w ∷ ws) look i is =
    ap (λ ts. any_token ts look)
      (strtok-comma (lead b) word (space ∷ header_of (w ∷ ws)) (no_comma word i))
    ∙ first_word b word look (strtok [] (space ∷ header_of (w ∷ ws))) i
    ∙ ap (λ r. strcase_eq word look || r) (any_word true w ws look is.0 is.1)

-- In a header of words joined by a comma and a space, where no word is empty, holds a comma or
-- begins with a space, header_contains finds a word exactly if it is one of them, up to the case of
-- its letters.
pub header_contains-header_of :
    (ws : List Bytes) (look : Bytes)
    → All IsWord ws
    → header_contains (header_of ws) look ≡ has_word ws look
unfolding header_contains
header_contains-header_of [] look is = refl
header_contains-header_of (word ∷ ws) look is = any_word false word ws look is.0 is.1
