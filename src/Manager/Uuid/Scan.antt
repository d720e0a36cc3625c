-- ===== src/Manager/Uuid/Scan.antt =====
-- The call of sscanf in manager_queue_get, and what it leaves in the 16 bytes.
use disqueue.Base.Options.{◌>>=◌}
use disqueue.Base.{
  ℕ, zero, suc, ◌+◌, ◌-◌, ◌*◌, ◌%◌, ◌^◌, Bool, true, false, ◌&&◌, ◌||◌, Option, none, some, [], ◌∷◌,
  Bytes, leb, ◌==◌, if◌then◌else◌, codes, ◌≡◌, refl,
}
use disqueue.Manager.Uuid.{load_le, store_le, htonl, htons}

abbrev is_space : ℕ → Bool
is_space c = c == 32 || (leb 9 c && leb c 13)

unfoldable pub skip_space : Bytes → Bytes
skip_space [] = []
skip_space (c ∷ s) = if is_space c then skip_space s else c ∷ s

unfoldable pub hex_value : ℕ → Option ℕ
hex_value c =
    if leb b'0' c && leb c b'9'
    then some (c - b'0')
    else if leb b'a' c && leb c b'f'
    then some (c - b'a' + 10)
    else if leb b'A' c && leb c b'F'
    then some (c - b'A' + 10)
    else none

-- At most `w` digits: the value, whether there was a digit, and what follows.
unfoldable pub digits : ℕ → ℕ → Bool → Bytes → ℕ × Bool × Bytes
digits zero acc seen s = (acc, seen, s)
digits (suc w) acc seen [] = (acc, seen, [])
digits (suc w) acc seen (c ∷ s) = elim (hex_value c) [
  | none ↦ (acc, seen, c ∷ s)
  | some d ↦ digits w (acc * 16 + d) true s
]

abbrev pub is_x : ℕ → Bool
is_x c = c == b'x' || c == b'X'

-- The digits behind an optional `0x`, which counts towards the width.
unfoldable pub prefixed : ℕ → Bytes → ℕ × Bool × Bytes
prefixed (suc (suc w)) (z ∷ x ∷ s) =
    if z == b'0' && is_x x then digits w 0 false s else digits (suc (suc w)) 0 false (z ∷ x ∷ s)
prefixed w s = digits w 0 false s

-- `- v` as an unsigned integer of `bits` bits.
abbrev pub negate : ℕ → ℕ → ℕ
negate bits v = (2 ^ bits - v % 2 ^ bits) % 2 ^ bits

abbrev pub finish : (ℕ → ℕ) → ℕ × Bool × Bytes → Option (ℕ × Bytes)
finish f (v, true, s) = some (f v, s)
finish f (v, false, s) = none

-- The digits behind an optional sign, which counts towards the width.
unfoldable pub signed : ℕ → ℕ → Bytes → Option (ℕ × Bytes)
signed bits (suc w) (c ∷ s) =
    if c == b'-'
    then finish (negate bits) (prefixed w s)
    else if c == b'+'
    then finish (λ v. v) (prefixed w s)
    else finish (λ v. v) (prefixed (suc w) (c ∷ s))
signed bits w s = none

-- `%{w}x` for an unsigned integer of `bits` bits.
unfoldable pub scan_hex : ℕ → ℕ → Bytes → Option (ℕ × Bytes)
scan_hex bits w s = signed bits w (skip_space s)

-- A `-` in the format.
unfoldable pub scan_dash : Bytes → Option Bytes
scan_dash [] = none
scan_dash (c ∷ s) = if c == b'-' then some s else none

-- The last six conversions, `%2hhx` each, into r[10] to r[15].
unfoldable pub scan_node : ℕ → ℕ → Bytes → Bytes → Option Bytes
scan_node zero i s r = some r
scan_node (suc n) i s r = do (v, rest) ← scan_hex 8 2 s; scan_node n (suc i) rest (store_le 1 i v r)

-- sscanf into `r`; `none` where fewer than ten conversions succeed.
unfoldable pub scan_uuid : ℕ → Bytes → Bytes → Option Bytes
unfolding scan_dash scan_node
scan_uuid long name r = do
  (a, s) ← scan_hex 64 8 name
  s ← scan_dash s
  (b, s) ← scan_hex (8 * long) 4 s
  s ← scan_dash s
  (c, s) ← scan_hex (8 * long) 4 s
  s ← scan_dash s
  (d, s) ← scan_hex (8 * long) 4 s
  s ← scan_dash s
  scan_node 6 10 s (store_le long 8 d (store_le long 6 c (store_le long 4 b (store_le 8 0 a r))))

-- The four stores in network byte order behind the sscanf.
unfoldable pub to_network : ℕ → Bytes → Bytes
unfolding load_le store_le htonl htons
to_network long r0 =
    let r1 = store_le long 0 (htonl (load_le long 0 r0)) r0 in
    let r2 = store_le 2 4 (htons (load_le 2 4 r1)) r1 in
    let r3 = store_le 2 6 (htons (load_le 2 6 r2)) r2 in store_le 2 8 (htons (load_le 2 8 r3)) r3

-- The id that a name stands for; `r` is what the stack holds before.
unfoldable pub parse_uuid : ℕ → Bytes → Bytes → Option Bytes
parse_uuid long r name = do r' ← scan_uuid long name r; some (to_network long r')

abbrev zeros : Bytes
zeros = 0 ∷ 0 ∷ 0 ∷ 0 ∷ 0 ∷ 0 ∷ 0 ∷ 0 ∷ 0 ∷ 0 ∷ 0 ∷ 0 ∷ 0 ∷ 0 ∷ 0 ∷ 0 ∷ []

parse_short :
    parse_uuid 4 zeros (codes "8a672d01-0daa-47c5-8D2E-C55c93fc71c2")
    ≡ some (
        0x8a ∷ 0x67 ∷ 0x2d ∷ 0x01 ∷ 0x0d ∷ 0xaa ∷ 0x47 ∷ 0xc5 ∷ 0x8d ∷ 0x2e ∷ 0xc5 ∷ 0x5c ∷ 0x93
        ∷ 0xfc ∷ 0x71 ∷ 0xc2 ∷ [])
unfolding parse_uuid scan_uuid to_network scan_hex signed prefixed digits skip_space hex_value
    store_le
parse_short = refl

parse_long :
    parse_uuid 8 zeros (codes "8a672d01-0daa-47c5-8D2E-C55c93fc71c2")
    ≡ some (
        0x8a ∷ 0x67 ∷ 0x2d ∷ 0x01 ∷ 0 ∷ 0 ∷ 0 ∷ 0 ∷ 0x8d ∷ 0x2e ∷ 0xc5 ∷ 0x5c ∷ 0x93 ∷ 0xfc ∷ 0x71
        ∷ 0xc2 ∷ [])
unfolding parse_uuid scan_uuid to_network scan_hex signed prefixed digits skip_space hex_value
    store_le
parse_long = refl
