-- ===== src/Manager/Uuid/RoundTrip.antt =====
-- The text of an id, read back.
use native.Mathlib.Nat.{
  pow-suc, mul-add-mod_self_left, mod-eq_of_lt, div-add-mod, mod-lt, mul-le-mul_right,
}
use mathlib.Core.List.{append-nil}
use disqueue.Base.{
  ℕ, zero, suc, ◌+◌, ◌*◌, ◌/◌, ◌%◌, ◌^◌, ◌<◌, Bool, true, false, some, [], ◌∷◌, ◌++◌, Bytes, ◌==◌,
  ◌≡◌, refl, length, All, and_false, arith, ap, subst, sym, ◌≤◌, ◌∙◌,
}
use disqueue.Manager.Uuid.{
  load_le, store_le, htonl, htons, hex_digit, hex_digits, queue_get_uuid, print_uuid, byte_at,
  set_byte,
}
use disqueue.Manager.Uuid.Order.{
  scanned, number4, number2, first_number, other_numbers, to_network_four, to_network_eight,
  scanned-little,
}
use disqueue.Manager.Uuid.Scan.{
  hex_value, digits, prefixed, signed, scan_hex, scan_dash, scan_node, scan_uuid, to_network,
  parse_uuid, skip_space, finish, is_x,
}

hex_value-hex_digit : (d : ℕ) → d < 16 → hex_value (hex_digit d) ≡ some d
unfolding hex_value hex_digit
hex_value-hex_digit d h = ground arith

last_digit : (p q r : ℕ) → p * q + r ≡ p * 16 * (q / 16) + (q % 16 * p + r)
last_digit p q r = omega (arith, ap (λ (t : ℕ). p * t) (div-add-mod q 16))

last_digit_small : (p q r : ℕ) → r < p → q % 16 * p + r < p * 16
last_digit_small p q r h =
    let below : q % 16 ≤ 15 = omega arith in omega (arith, mul-le-mul_right p below)

mod-mul_sixteen : (v p : ℕ) → 0 < p → v % (p * 16) ≡ v / p % 16 * p + v % p
mod-mul_sixteen v p h =
    ap (λ n. n % (p * 16)) (sym (div-add-mod v p) ∙ last_digit p (v / p) (v % p))
    ∙ mul-add-mod_self_left (p * 16) (v / p / 16) (v / p % 16 * p + v % p)
    ∙ mod-eq_of_lt (last_digit_small p (v / p) (v % p) (mod-lt v h))

pow_pos : (n : ℕ) → 0 < 16 ^ n
pow_pos zero = omega arith
pow_pos (suc n) = rw pow-suc (omega (arith, pow_pos n))

digits-hex_digit :
    (n acc d : ℕ) (seen : Bool) (s : Bytes)
    → d < 16
    → digits (suc n) acc seen (hex_digit d ∷ s) ≡ digits n (acc * 16 + d) true s
unfolding digits
digits-hex_digit n acc d seen s h = rw (hex_value-hex_digit d h, digits) refl

accumulate :
    (acc v n : ℕ)
    → (acc * 16 + v / 16 ^ n % 16) * 16 ^ n + v % 16 ^ n ≡ acc * 16 ^ suc n + v % 16 ^ suc n
accumulate acc v n = rw pow-suc (omega (arith, mod-mul_sixteen v (16 ^ n) (pow_pos n)))

digits_more :
    (n v acc : ℕ) (rest : Bytes)
    → digits n acc true (hex_digits n v ++ rest) ≡ (acc * 16 ^ n + v % 16 ^ n, true, rest)
unfolding digits hex_digits
digits_more zero v acc rest = ap (λ (k : ℕ). (k, true, rest)) (omega arith)
digits_more (suc n) v acc rest =
    digits-hex_digit n acc (v / 16 ^ n % 16) true (hex_digits n v ++ rest) (omega arith)
    ∙ digits_more n v (acc * 16 + v / 16 ^ n % 16) rest
    ∙ ap (λ (k : ℕ). (k, true, rest)) (accumulate acc v n)

digits-hex_digits :
    (n v : ℕ) (rest : Bytes)
    → digits (suc n) 0 false (hex_digits (suc n) v ++ rest) ≡ (v % 16 ^ suc n, true, rest)
unfolding hex_digits
digits-hex_digits n v rest =
    digits-hex_digit n 0 (v / 16 ^ n % 16) false (hex_digits n v ++ rest) (omega arith)
    ∙ digits_more n v (0 * 16 + v / 16 ^ n % 16) rest
    ∙ ap (λ (k : ℕ). (k, true, rest)) (accumulate 0 v n ∙ omega arith)

-- A hex digit is no space, no sign and no `x`.
skip_space-hex_digit : (d : ℕ) (s : Bytes) → d < 16 → skip_space (hex_digit d ∷ s) ≡ hex_digit d ∷ s
unfolding skip_space hex_digit
skip_space-hex_digit d s h = ground arith

hex_digit_sign :
    (d : ℕ) → d < 16 → ((hex_digit d == b'-') ≡ false) × ((hex_digit d == b'+') ≡ false)
unfolding hex_digit
hex_digit_sign d h = ground arith

hex_digit_x : (d : ℕ) → d < 16 → is_x (hex_digit d) ≡ false
unfolding hex_digit
hex_digit_x d h = ground arith

signed-hex_digit :
    (bits w d : ℕ) (s : Bytes)
    → d < 16
    → signed bits (suc w) (hex_digit d ∷ s) ≡ finish (λ v. v) (prefixed (suc w) (hex_digit d ∷ s))
unfolding signed
signed-hex_digit bits w d s h = rw ((hex_digit_sign d h).0, signed) (rw (hex_digit_sign d h).1 refl)

prefixed-hex_digit :
    (w d e : ℕ) (s : Bytes)
    → e < 16
    → prefixed (suc (suc w)) (hex_digit d ∷ hex_digit e ∷ s)
      ≡ digits (suc (suc w)) 0 false (hex_digit d ∷ hex_digit e ∷ s)
unfolding prefixed
prefixed-hex_digit w d e s h =
    rw (hex_digit_x e h, prefixed) (rw (and_false (hex_digit d == b'0')) refl)

-- A conversion of full width reads back what `%0nx` wrote, whatever follows.
scan_hex-hex_digits :
    (bits n v : ℕ) (rest : Bytes)
    → v < 16 ^ suc (suc n)
    → scan_hex bits (suc (suc n)) (hex_digits (suc (suc n)) v ++ rest) ≡ some (v, rest)
unfolding scan_hex hex_digits
scan_hex-hex_digits bits n v rest h =
    let d : ℕ = v / 16 ^ suc n % 16 in
    let e : ℕ = v / 16 ^ n % 16 in
    let s : Bytes = hex_digit e ∷ hex_digits n v ++ rest in
    let d_small : d < 16 = omega arith in
    let e_small : e < 16 = omega arith in
    ap (signed bits (suc (suc n))) (skip_space-hex_digit d s d_small)
    ∙ signed-hex_digit bits (suc n) d s d_small
    ∙ ap (finish (λ k. k)) (
        prefixed-hex_digit n d e (hex_digits n v ++ rest) e_small
        ∙ digits-hex_digits (suc n) v rest)
    ∙ ap (λ (k : ℕ). some (k, rest)) (mod-eq_of_lt h)

-- The six bytes of the node.
abbrev IsByte : ℕ → Type 0
IsByte b = b < 256

scan_node-step :
    (n i v : ℕ) (rest r : Bytes)
    → v < 256
    → scan_node (suc n) i (hex_digits 2 v ++ rest) r ≡ scan_node n (suc i) rest (store_le 1 i v r)
unfolding scan_node
scan_node-step n i v rest r h = rw (scan_hex-hex_digits 8 0 v rest (omega arith), scan_node) refl

scan_node-last :
    (i v : ℕ) (r : Bytes) → v < 256 → scan_node 1 i (hex_digits 2 v) r ≡ some (store_le 1 i v r)
unfolding scan_node
scan_node-last i v r h =
    ap (λ s. scan_node 1 i s r) (sym (append-nil (hex_digits 2 v))) ∙ scan_node-step 0 i v [] r h

scan_uuid-print_uuid :
    (long a b c d : ℕ) (m r : Bytes)
    → a < 2 ^ 32
    → b < 65536
    → c < 65536
    → d < 65536
    → byte_at 10 m < 256
    → byte_at 11 m < 256
    → byte_at 12 m < 256
    → byte_at 13 m < 256
    → byte_at 14 m < 256
    → byte_at 15 m < 256
    → scan_uuid long (print_uuid a b c d m) r ≡ some (scanned long a b c d m r)
unfolding scan_uuid scan_dash
scan_uuid-print_uuid long a b c d m r ha hb hc hd h0 h1 h2 h3 h4 h5 =
    rw (scan_hex-hex_digits 64 6 a _ (omega arith)) (
      rw (scan_hex-hex_digits (8 * long) 2 b _ (omega arith)) (
        rw (scan_hex-hex_digits (8 * long) 2 c _ (omega arith)) (
          rw (scan_hex-hex_digits (8 * long) 2 d _ (omega arith)) (
            scan_node-step 5 10 (byte_at 10 m) _ _ h0
            ∙ scan_node-step 4 11 (byte_at 11 m) _ _ h1
            ∙ scan_node-step 3 12 (byte_at 12 m) _ _ h2
            ∙ scan_node-step 2 13 (byte_at 13 m) _ _ h3
            ∙ scan_node-step 1 14 (byte_at 14 m) _ _ h4
            ∙ scan_node-last 15 (byte_at 15 m) _ h5))))

-- Sixteen bytes.
pub record IsUuid (u : Bytes) : Type 0 where
  pub sixteen : length u ≡ 16
  pub bytes : All (λ b. b < 256) u

-- A list of sixteen, named one by one.
data Explicit (u : Bytes) : Type 0 where
  explicit :
      (b0 b1 b2 b3 b4 b5 b6 b7 b8 b9 b10 b11 b12 b13 b14 b15 : ℕ)
      → u ≡ b0 ∷ b1 ∷ b2 ∷ b3 ∷ b4 ∷ b5 ∷ b6 ∷ b7 ∷ b8 ∷ b9 ∷ b10 ∷ b11 ∷ b12 ∷ b13 ∷ b14 ∷ b15 ∷ []
      → Explicit u

Explicit-sixteen : (u : Bytes) → length u ≡ 16 → Explicit u
Explicit-sixteen
      (b0 ∷ b1 ∷ b2 ∷ b3 ∷ b4 ∷ b5 ∷ b6 ∷ b7 ∷ b8 ∷ b9 ∷ b10 ∷ b11 ∷ b12 ∷ b13 ∷ b14 ∷ b15 ∷ []) h =
    explicit b0 b1 b2 b3 b4 b5 b6 b7 b8 b9 b10 b11 b12 b13 b14 b15 refl
Explicit-sixteen _ h = absurd (omega arith)

-- What is left of an id when its name is read on a machine with an 8-byte `unsigned long`: bytes 4 to
-- 7 are cleared.
abbrev pub cleared : Bytes → Bytes
cleared u = set_byte 7 0 (set_byte 6 0 (set_byte 5 0 (set_byte 4 0 u)))

abbrev Reads : Bytes → Bytes → Type 0
Reads r u =
    (parse_uuid 4 r (queue_get_uuid 4 u) ≡ some u)
    × (parse_uuid 8 r (queue_get_uuid 8 u) ≡ some (cleared u))

-- An id printed and read again, by the numbers that it is printed from.
read_sixteen :
    (long : ℕ) (r u : Bytes) (a b c d : ℕ)
    → htonl (load_le long 0 u) ≡ a
    → htons (load_le 2 4 u) ≡ b
    → htons (load_le 2 6 u) ≡ c
    → htons (load_le 2 8 u) ≡ d
    → a < 2 ^ 32
    → b < 65536
    → c < 65536
    → d < 65536
    → byte_at 10 u < 256
    → byte_at 11 u < 256
    → byte_at 12 u < 256
    → byte_at 13 u < 256
    → byte_at 14 u < 256
    → byte_at 15 u < 256
    → parse_uuid long r (queue_get_uuid long u) ≡ some (to_network long (scanned long a b c d u r))
unfolding parse_uuid queue_get_uuid
read_sixteen long r u a b c d ea eb ec ed ha hb hc hd h0 h1 h2 h3 h4 h5 =
    rw (ea, eb, ec, ed)
      (rw (scan_uuid-print_uuid long a b c d u r ha hb hc hd h0 h1 h2 h3 h4 h5) refl)

Reads-explicit :
    (b0 b1 b2 b3 b4 b5 b6 b7 b8 b9 b10 b11 b12 b13 b14 b15 r0 r1 r2 r3 r4 r5 r6 r7 r8 r9 r10 r11 r12
      r13 r14 r15 : ℕ)
    → All
        (λ b. b < 256)
        (b0 ∷ b1 ∷ b2 ∷ b3 ∷ b4 ∷ b5 ∷ b6 ∷ b7 ∷ b8 ∷ b9 ∷ b10 ∷ b11 ∷ b12 ∷ b13 ∷ b14 ∷ b15 ∷ [])
    → Reads
        (r0 ∷ r1 ∷ r2 ∷ r3 ∷ r4 ∷ r5 ∷ r6 ∷ r7 ∷ r8 ∷ r9 ∷ r10 ∷ r11 ∷ r12 ∷ r13 ∷ r14 ∷ r15 ∷ [])
        (b0 ∷ b1 ∷ b2 ∷ b3 ∷ b4 ∷ b5 ∷ b6 ∷ b7 ∷ b8 ∷ b9 ∷ b10 ∷ b11 ∷ b12 ∷ b13 ∷ b14 ∷ b15 ∷ [])
Reads-explicit b0 b1 b2 b3 b4 b5 b6 b7 b8 b9 b10 b11 b12 b13 b14 b15 r0 r1 r2 r3 r4 r5 r6 r7 r8 r9
      r10 r11 r12 r13 r14 r15 h =
    let others =
      other_numbers b0 b1 b2 b3 b4 b5 b6 b7 b8 b9 b10 b11 b12 b13 b14 b15 h.0 h.1.0 h.1.1.0
        h.1.1.1.0 h.1.1.1.1.0 h.1.1.1.1.1.0 h.1.1.1.1.1.1.0 h.1.1.1.1.1.1.1.0 h.1.1.1.1.1.1.1.1.0
        h.1.1.1.1.1.1.1.1.1.0 h.1.1.1.1.1.1.1.1.1.1.0 h.1.1.1.1.1.1.1.1.1.1.1.0
        h.1.1.1.1.1.1.1.1.1.1.1.1.0 h.1.1.1.1.1.1.1.1.1.1.1.1.1.0 h.1.1.1.1.1.1.1.1.1.1.1.1.1.1.0
        h.1.1.1.1.1.1.1.1.1.1.1.1.1.1.1.0 in
    (
      read_sixteen 4
            (r0 ∷ r1 ∷ r2 ∷ r3 ∷ r4 ∷ r5 ∷ r6 ∷ r7 ∷ r8 ∷ r9 ∷ r10 ∷ r11 ∷ r12 ∷ r13 ∷ r14 ∷ r15
              ∷ [])
            (b0 ∷ b1 ∷ b2 ∷ b3 ∷ b4 ∷ b5 ∷ b6 ∷ b7 ∷ b8 ∷ b9 ∷ b10 ∷ b11 ∷ b12 ∷ b13 ∷ b14 ∷ b15
              ∷ [])
            (number4 b0 b1 b2 b3) (number2 b4 b5) (number2 b6 b7) (number2 b8 b9)
            (first_number b0 b1 b2 b3 b4 b5 b6 b7 b8 b9 b10 b11 b12 b13 b14 b15 h.0 h.1.0 h.1.1.0
              h.1.1.1.0 h.1.1.1.1.0 h.1.1.1.1.1.0 h.1.1.1.1.1.1.0 h.1.1.1.1.1.1.1.0
              h.1.1.1.1.1.1.1.1.0 h.1.1.1.1.1.1.1.1.1.0 h.1.1.1.1.1.1.1.1.1.1.0
              h.1.1.1.1.1.1.1.1.1.1.1.0 h.1.1.1.1.1.1.1.1.1.1.1.1.0 h.1.1.1.1.1.1.1.1.1.1.1.1.1.0
              h.1.1.1.1.1.1.1.1.1.1.1.1.1.1.0 h.1.1.1.1.1.1.1.1.1.1.1.1.1.1.1.0).0
            others.0 others.1 others.2 (omega arith) (omega arith) (omega arith) (omega arith)
            h.1.1.1.1.1.1.1.1.1.1.0 h.1.1.1.1.1.1.1.1.1.1.1.0 h.1.1.1.1.1.1.1.1.1.1.1.1.0
            h.1.1.1.1.1.1.1.1.1.1.1.1.1.0 h.1.1.1.1.1.1.1.1.1.1.1.1.1.1.0
            h.1.1.1.1.1.1.1.1.1.1.1.1.1.1.1.0
          ∙ ap (λ m. some (to_network 4 m))
              (scanned-little b0 b1 b2 b3 b4 b5 b6 b7 b8 b9 b10 b11 b12 b13 b14 b15 h.0 h.1.0
                h.1.1.0 h.1.1.1.0 h.1.1.1.1.0 h.1.1.1.1.1.0 h.1.1.1.1.1.1.0 h.1.1.1.1.1.1.1.0
                h.1.1.1.1.1.1.1.1.0 h.1.1.1.1.1.1.1.1.1.0 h.1.1.1.1.1.1.1.1.1.1.0
                h.1.1.1.1.1.1.1.1.1.1.1.0 h.1.1.1.1.1.1.1.1.1.1.1.1.0 h.1.1.1.1.1.1.1.1.1.1.1.1.1.0
                h.1.1.1.1.1.1.1.1.1.1.1.1.1.1.0 h.1.1.1.1.1.1.1.1.1.1.1.1.1.1.1.0 r0 r1 r2 r3 r4 r5
                r6 r7 r8 r9 r10 r11 r12 r13 r14 r15).0
          ∙ ap some (
              to_network_four b0 b1 b2 b3 b4 b5 b6 b7 b8 b9 b10 b11 b12 b13 b14 b15 h.0 h.1.0
                h.1.1.0 h.1.1.1.0 h.1.1.1.1.0 h.1.1.1.1.1.0 h.1.1.1.1.1.1.0 h.1.1.1.1.1.1.1.0
                h.1.1.1.1.1.1.1.1.0 h.1.1.1.1.1.1.1.1.1.0 h.1.1.1.1.1.1.1.1.1.1.0
                h.1.1.1.1.1.1.1.1.1.1.1.0 h.1.1.1.1.1.1.1.1.1.1.1.1.0 h.1.1.1.1.1.1.1.1.1.1.1.1.1.0
                h.1.1.1.1.1.1.1.1.1.1.1.1.1.1.0 h.1.1.1.1.1.1.1.1.1.1.1.1.1.1.1.0),
      read_sixteen 8
            (r0 ∷ r1 ∷ r2 ∷ r3 ∷ r4 ∷ r5 ∷ r6 ∷ r7 ∷ r8 ∷ r9 ∷ r10 ∷ r11 ∷ r12 ∷ r13 ∷ r14 ∷ r15
              ∷ [])
            (b0 ∷ b1 ∷ b2 ∷ b3 ∷ b4 ∷ b5 ∷ b6 ∷ b7 ∷ b8 ∷ b9 ∷ b10 ∷ b11 ∷ b12 ∷ b13 ∷ b14 ∷ b15
              ∷ [])
            (number4 b0 b1 b2 b3) (number2 b4 b5) (number2 b6 b7) (number2 b8 b9)
            (first_number b0 b1 b2 b3 b4 b5 b6 b7 b8 b9 b10 b11 b12 b13 b14 b15 h.0 h.1.0 h.1.1.0
              h.1.1.1.0 h.1.1.1.1.0 h.1.1.1.1.1.0 h.1.1.1.1.1.1.0 h.1.1.1.1.1.1.1.0
              h.1.1.1.1.1.1.1.1.0 h.1.1.1.1.1.1.1.1.1.0 h.1.1.1.1.1.1.1.1.1.1.0
              h.1.1.1.1.1.1.1.1.1.1.1.0 h.1.1.1.1.1.1.1.1.1.1.1.1.0 h.1.1.1.1.1.1.1.1.1.1.1.1.1.0
              h.1.1.1.1.1.1.1.1.1.1.1.1.1.1.0 h.1.1.1.1.1.1.1.1.1.1.1.1.1.1.1.0).1
            others.0 others.1 others.2 (omega arith) (omega arith) (omega arith) (omega arith)
            h.1.1.1.1.1.1.1.1.1.1.0 h.1.1.1.1.1.1.1.1.1.1.1.0 h.1.1.1.1.1.1.1.1.1.1.1.1.0
            h.1.1.1.1.1.1.1.1.1.1.1.1.1.0 h.1.1.1.1.1.1.1.1.1.1.1.1.1.1.0
            h.1.1.1.1.1.1.1.1.1.1.1.1.1.1.1.0
          ∙ ap (λ m. some (to_network 8 m))
              (scanned-little b0 b1 b2 b3 b4 b5 b6 b7 b8 b9 b10 b11 b12 b13 b14 b15 h.0 h.1.0
                h.1.1.0 h.1.1.1.0 h.1.1.1.1.0 h.1.1.1.1.1.0 h.1.1.1.1.1.1.0 h.1.1.1.1.1.1.1.0
                h.1.1.1.1.1.1.1.1.0 h.1.1.1.1.1.1.1.1.1.0 h.1.1.1.1.1.1.1.1.1.1.0
                h.1.1.1.1.1.1.1.1.1.1.1.0 h.1.1.1.1.1.1.1.1.1.1.1.1.0 h.1.1.1.1.1.1.1.1.1.1.1.1.1.0
                h.1.1.1.1.1.1.1.1.1.1.1.1.1.1.0 h.1.1.1.1.1.1.1.1.1.1.1.1.1.1.1.0 r0 r1 r2 r3 r4 r5
                r6 r7 r8 r9 r10 r11 r12 r13 r14 r15).1
          ∙ ap some (
              to_network_eight b0 b1 b2 b3 b4 b5 b6 b7 b8 b9 b10 b11 b12 b13 b14 b15 h.0 h.1.0
                h.1.1.0 h.1.1.1.0 h.1.1.1.1.0 h.1.1.1.1.1.0 h.1.1.1.1.1.1.0 h.1.1.1.1.1.1.1.0
                h.1.1.1.1.1.1.1.1.0 h.1.1.1.1.1.1.1.1.1.0 h.1.1.1.1.1.1.1.1.1.1.0
                h.1.1.1.1.1.1.1.1.1.1.1.0 h.1.1.1.1.1.1.1.1.1.1.1.1.0 h.1.1.1.1.1.1.1.1.1.1.1.1.1.0
                h.1.1.1.1.1.1.1.1.1.1.1.1.1.1.0 h.1.1.1.1.1.1.1.1.1.1.1.1.1.1.1.0),
    )

Reads-IsUuid : (r u : Bytes) → length r ≡ 16 → IsUuid u → Reads r u
Reads-IsUuid r u k v = both (Explicit-sixteen r k) (Explicit-sixteen u v.sixteen)
  where
    both : Explicit r → Explicit u → Reads r u
    both (explicit r0 r1 r2 r3 r4 r5 r6 r7 r8 r9 r10 r11 r12 r13 r14 r15 p)
          (explicit b0 b1 b2 b3 b4 b5 b6 b7 b8 b9 b10 b11 b12 b13 b14 b15 q) =
        subst (λ x. Reads x u) (sym p)
          (subst (Reads _) (sym q) (
            Reads-explicit b0 b1 b2 b3 b4 b5 b6 b7 b8 b9 b10 b11 b12 b13 b14 b15 r0 r1 r2 r3 r4 r5
              r6 r7 r8 r9 r10 r11 r12 r13 r14 r15 (subst (All (λ b. b < 256)) q v.bytes)))

-- Where `unsigned long` has 4 bytes, the name of an id of 16 bytes is read back as that id,
-- whatever bytes lay in the buffer before.
pub parse_uuid-queue_get_uuid :
    (r u : Bytes) → length r ≡ 16 → IsUuid u → parse_uuid 4 r (queue_get_uuid 4 u) ≡ some u
parse_uuid-queue_get_uuid r u k v = (Reads-IsUuid r u k v).0

-- Where `unsigned long` has 8 bytes, the name of an id of 16 bytes is read back as that id with
-- bytes 4 to 7 set to 0, whatever bytes lay in the buffer before.
pub parse_uuid_long :
    (r u : Bytes)
    → length r ≡ 16
    → IsUuid u
    → parse_uuid 8 r (queue_get_uuid 8 u) ≡ some (cleared u)
parse_uuid_long r u k v = (Reads-IsUuid r u k v).1
