-- ===== src/Manager/Uuid.antt =====
-- A queue's id as 16 bytes and as text: queue_get_uuid of src/queue.c writes it, manager_queue_get of
-- src/manager.c reads it. Both go through pointers to wider integers, on a little-endian machine
-- whose `unsigned long` has `long` bytes: 4 on Windows, 8 on 64-bit Linux.
pub mod Scan
pub mod Order
pub mod RoundTrip
use disqueue.Base.{
  ℕ, zero, suc, ◌+◌, ◌-◌, ◌*◌, ◌/◌, ◌%◌, ◌^◌, List, [], ◌∷◌, ◌++◌, Bytes, ltb, if◌then◌else◌, codes,
  ◌≡◌, refl,
}

abbrev pub byte_at : ℕ → Bytes → ℕ
byte_at i [] = 0
byte_at zero (b ∷ m) = b
byte_at (suc i) (b ∷ m) = byte_at i m

-- A write behind the end is left out: no write of the program is.
abbrev pub set_byte : ℕ → ℕ → Bytes → Bytes
set_byte i v [] = []
set_byte zero v (b ∷ m) = v ∷ m
set_byte (suc i) v (b ∷ m) = b ∷ set_byte i v m

-- The integer of `w` bytes at an offset, and the write of one; the low byte comes first.
unfoldable pub load_le : ℕ → ℕ → Bytes → ℕ
load_le zero i m = 0
load_le (suc w) i m = byte_at i m + 256 * load_le w (suc i) m

unfoldable pub store_le : ℕ → ℕ → ℕ → Bytes → Bytes
store_le zero i v m = m
store_le (suc w) i v m = store_le w (suc i) (v / 256) (set_byte i (v % 256) m)

-- The value with its `w` bytes in the other order: htonl is `swap 4`, htons is `swap 2`.
unfoldable pub swap : ℕ → ℕ → ℕ
swap zero v = 0
swap (suc w) v = (v % 256) * 256 ^ w + swap w (v / 256)

unfoldable pub htonl : ℕ → ℕ
unfolding swap
htonl v = swap 4 (v % 2 ^ 32)

unfoldable pub htons : ℕ → ℕ
unfolding swap
htons v = swap 2 (v % 2 ^ 16)

unfoldable pub hex_digit : ℕ → ℕ
hex_digit d = if ltb d 10 then b'0' + d else b'a' + d - 10

-- `%0nx` for a value below 16^n.
unfoldable pub hex_digits : ℕ → ℕ → Bytes
hex_digits zero v = []
hex_digits (suc n) v = hex_digit (v / 16 ^ n % 16) ∷ hex_digits n v

-- The text of the four numbers and the six bytes of an id.
abbrev pub print_uuid : ℕ → ℕ → ℕ → ℕ → Bytes → Bytes
print_uuid a b c d m =
    hex_digits 8 a
    ++ (b'-'
        ∷ (hex_digits 4 b
            ++ (b'-'
                ∷ (hex_digits 4 c
                    ++ (b'-'
                        ∷ (hex_digits 4 d
                            ++ (b'-'
                                ∷ (hex_digits 2 (byte_at 10 m)
                                    ++ (hex_digits 2 (byte_at 11 m)
                                        ++ (hex_digits 2 (byte_at 12 m)
                                            ++ (hex_digits 2 (byte_at 13 m)
                                                ++ (hex_digits 2 (byte_at 14 m)
                                                    ++ hex_digits 2 (byte_at 15 m)))))))))))))

unfoldable pub queue_get_uuid : ℕ → Bytes → Bytes
queue_get_uuid long uuid =
    print_uuid (htonl (load_le long 0 uuid)) (htons (load_le 2 4 uuid)) (htons (load_le 2 6 uuid))
      (htons (load_le 2 8 uuid)) uuid

abbrev pub sample : Bytes
sample =
    0x8a ∷ 0x67 ∷ 0x2d ∷ 0x01 ∷ 0x0d ∷ 0xaa ∷ 0x47 ∷ 0xc5 ∷ 0x8d ∷ 0x2e ∷ 0xc5 ∷ 0x5c ∷ 0x93 ∷ 0xfc
    ∷ 0x71 ∷ 0xc2 ∷ []

queue_get_uuid-sample : queue_get_uuid 8 sample ≡ codes "8a672d01-0daa-47c5-8d2e-c55c93fc71c2"
unfolding queue_get_uuid load_le htonl htons hex_digits hex_digit
queue_get_uuid-sample = refl
