-- ===== src/Manager/Uuid/Order.antt =====
-- The order of the bytes, before and behind htonl and htons.
use mathlib.Core.Path.{ap₂}
use disqueue.Base.{ℕ, ◌+◌, ◌*◌, ◌<◌, ◌≡◌, refl, [], ◌∷◌, Bytes, arith}
use disqueue.Manager.Uuid.{load_le, store_le, htonl, htons, byte_at}
use disqueue.Manager.Uuid.Scan.{to_network}

cons_eq : {a b : ℕ} {xs ys : Bytes} → a ≡ b → xs ≡ ys → (a ∷ xs) ≡ (b ∷ ys)
cons_eq p q = ap₂ ◌∷◌ p q

-- The number of four bytes in network order, and of two.
abbrev pub number4 : ℕ → ℕ → ℕ → ℕ → ℕ
number4 a b c d = 16777216 * a + 65536 * b + 256 * c + d

abbrev pub number2 : ℕ → ℕ → ℕ
number2 a b = 256 * a + b

-- The bytes once sscanf has read the text of four numbers and six bytes.
abbrev pub scanned : ℕ → ℕ → ℕ → ℕ → ℕ → Bytes → Bytes → Bytes
scanned long a b c d m r = store_le 1 15 (byte_at 15 m) (
    store_le 1 14 (byte_at 14 m) (
      store_le 1 13 (byte_at 13 m) (
        store_le 1 12 (byte_at 12 m) (
          store_le 1 11 (byte_at 11 m) (
            store_le 1 10 (byte_at 10 m)
              (store_le long 8 d (store_le long 6 c (store_le long 4 b (store_le 8 0 a r)))))))))

-- Sixteen bytes, and the sixteen that lie in `r` before.
module _ (b0 b1 b2 b3 b4 b5 b6 b7 b8 b9 b10 b11 b12 b13 b14 b15 : ℕ) (h0 : b0 < 256) (h1 : b1 < 256)
    (h2 : b2 < 256) (h3 : b3 < 256) (h4 : b4 < 256) (h5 : b5 < 256) (h6 : b6 < 256) (h7 : b7 < 256)
    (h8 : b8 < 256) (h9 : b9 < 256) (h10 : b10 < 256) (h11 : b11 < 256) (h12 : b12 < 256)
    (h13 : b13 < 256) (h14 : b14 < 256) (h15 : b15 < 256) where
  abbrev pub id : Bytes
  id = b0 ∷ b1 ∷ b2 ∷ b3 ∷ b4 ∷ b5 ∷ b6 ∷ b7 ∷ b8 ∷ b9 ∷ b10 ∷ b11 ∷ b12 ∷ b13 ∷ b14 ∷ b15 ∷ []

  -- What sscanf leaves: the numbers lie in the machine's order.
  abbrev pub little : Bytes
  little = b3 ∷ b2 ∷ b1 ∷ b0 ∷ b5 ∷ b4 ∷ b7 ∷ b6 ∷ b9 ∷ b8 ∷ b10 ∷ b11 ∷ b12 ∷ b13 ∷ b14 ∷ b15 ∷ []

  pub first_number :
      (htonl (load_le 4 0 id) ≡ number4 b0 b1 b2 b3)
      × (htonl (load_le 8 0 id) ≡ number4 b0 b1 b2 b3)
  unfolding htonl load_le
  first_number = (omega arith, omega arith)

  pub other_numbers :
      (htons (load_le 2 4 id) ≡ number2 b4 b5)
      × (htons (load_le 2 6 id) ≡ number2 b6 b7)
      × (htons (load_le 2 8 id) ≡ number2 b8 b9)
  unfolding htons load_le
  other_numbers = (omega arith, omega arith, omega arith)

  pub to_network_four : to_network 4 little ≡ id
  unfolding to_network
  to_network_four =
      (cons_eq (omega arith) (
        cons_eq (omega arith) (
          cons_eq (omega arith) (
            cons_eq (omega arith) (
              cons_eq (omega arith) (
                cons_eq (omega arith) (
                  cons_eq (omega arith) (
                    cons_eq (omega arith) (
                      cons_eq (omega arith) (
                        cons_eq (omega arith) (
                          cons_eq (omega arith) (
                            cons_eq (omega arith) (
                              cons_eq (omega arith) (
                                cons_eq (omega arith)
                                  (cons_eq (omega arith) (cons_eq (omega arith) refl))))))))))))))))

  pub to_network_eight :
      to_network 8 little
      ≡ b0 ∷ b1 ∷ b2 ∷ b3 ∷ 0 ∷ 0 ∷ 0 ∷ 0 ∷ b8 ∷ b9 ∷ b10 ∷ b11 ∷ b12 ∷ b13 ∷ b14 ∷ b15 ∷ []
  unfolding to_network
  to_network_eight =
      (cons_eq (omega arith) (
        cons_eq (omega arith) (
          cons_eq (omega arith) (
            cons_eq (omega arith) (
              cons_eq (omega arith) (
                cons_eq (omega arith) (
                  cons_eq (omega arith) (
                    cons_eq (omega arith) (
                      cons_eq (omega arith) (
                        cons_eq (omega arith) (
                          cons_eq (omega arith) (
                            cons_eq (omega arith) (
                              cons_eq (omega arith) (
                                cons_eq (omega arith)
                                  (cons_eq (omega arith) (cons_eq (omega arith) refl))))))))))))))))

  -- The bytes once sscanf has read the text of four numbers and six bytes.
  pub scanned-little :
      (r0 r1 r2 r3 r4 r5 r6 r7 r8 r9 r10 r11 r12 r13 r14 r15 : ℕ)
      → let r =
          r0 ∷ r1 ∷ r2 ∷ r3 ∷ r4 ∷ r5 ∷ r6 ∷ r7 ∷ r8 ∷ r9 ∷ r10 ∷ r11 ∷ r12 ∷ r13 ∷ r14 ∷ r15
          ∷ [] in
        (scanned 4 (number4 b0 b1 b2 b3) (number2 b4 b5) (number2 b6 b7) (number2 b8 b9) id r
          ≡ little)
        × (scanned 8 (number4 b0 b1 b2 b3) (number2 b4 b5) (number2 b6 b7) (number2 b8 b9) id r
            ≡ little)
  unfolding store_le
  scanned-little r0 r1 r2 r3 r4 r5 r6 r7 r8 r9 r10 r11 r12 r13 r14 r15 = (
    (cons_eq (omega arith) (
        cons_eq (omega arith) (
          cons_eq (omega arith) (
            cons_eq (omega arith) (
              cons_eq (omega arith) (
                cons_eq (omega arith) (
                  cons_eq (omega arith) (
                    cons_eq (omega arith) (
                      cons_eq (omega arith) (
                        cons_eq (omega arith) (
                          cons_eq (omega arith) (
                            cons_eq (omega arith) (
                              cons_eq (omega arith) (
                                cons_eq (omega arith) (
                                  cons_eq (omega arith) (cons_eq (omega arith) refl)))))))))))))))),
    (cons_eq (omega arith) (
        cons_eq (omega arith) (
          cons_eq (omega arith) (
            cons_eq (omega arith) (
              cons_eq (omega arith) (
                cons_eq (omega arith) (
                  cons_eq (omega arith) (
                    cons_eq (omega arith) (
                      cons_eq (omega arith) (
                        cons_eq (omega arith) (
                          cons_eq (omega arith) (
                            cons_eq (omega arith) (
                              cons_eq (omega arith) (
                                cons_eq (omega arith) (
                                  cons_eq (omega arith) (cons_eq (omega arith) refl)))))))))))))))),
  )
