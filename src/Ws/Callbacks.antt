-- ===== src/Ws/Callbacks.antt =====
-- The callbacks that src/ws.c gives to wslay for the bytes of a socket, over what libevent answers.
use disqueue.Base.{
  ℕ, suc, ◌-◌, ◌<◌, ◌^◌, ◌%◌, ◌≡◌, refl, Bool, true, false, Bytes, length, ltb, if◌then◌else◌, ℤ,
  pos, negsuc, arith,
}

-- What a callback gives back, and whether it has called wslay_event_set_error.
pub record Called : Type 0 where
  pub returned : ℤ
  pub failure : Bool

-- `size_t read = n`, of 64 bits.
unfoldable pub to_size : ℤ → ℕ
to_size (pos n) = n % 2 ^ 64
to_size (negsuc n) = 2 ^ 64 - suc (n % 2 ^ 64)

-- `return read`, as an ev_ssize_t.
unfoldable pub to_ssize : ℕ → ℤ
to_ssize n = if ltb n (2 ^ 63) then pos n else negsuc (2 ^ 64 - suc n)

-- `written` is whether bufferevent_write succeeds.
unfoldable pub evws_wslay_send_callback_ : Bool → Bytes → Called
evws_wslay_send_callback_ written bytes =
    if written
    then record { returned = pos (length bytes); failure = false }
    else record { returned = negsuc 0; failure = true }

-- `removed` is the answer of evbuffer_remove.
unfoldable pub evws_wslay_recv_callback_ : ℤ → Called
unfolding to_size to_ssize
evws_wslay_recv_callback_ removed =
    let read = to_size removed in
    if ltb read 0
    then record { returned = negsuc 0; failure = true }
    else record { returned = to_ssize read; failure = false }

-- An answer of 64 bits.
abbrev pub IsSsize : ℤ → Type 0
IsSsize (pos n) = n < 2 ^ 63
IsSsize (negsuc n) = n < 2 ^ 63

to_ssize-to_size : (z : ℤ) → IsSsize z → to_ssize (to_size z) ≡ z
unfolding to_ssize to_size
to_ssize-to_size (pos n) b =
    let e : n % 2 ^ 64 ≡ n = omega (arith, b) in
    let l : ltb n (2 ^ 63) ≡ true = ground (arith, b) in rw (e, l) refl
to_ssize-to_size (negsuc n) b =
    let e : n % 2 ^ 64 ≡ n = omega (arith, b) in
    let l : ltb (2 ^ 64 - suc n) (2 ^ 63) ≡ false = ground (arith, b) in
    let d : 2 ^ 64 - suc (2 ^ 64 - suc n) ≡ n = omega (arith, b) in rw (e, l, d) refl

-- Whatever evbuffer_remove answers in 64 bits, also an error, evws_wslay_recv_callback_ gives it
-- back to wslay unchanged and sets no error.
pub evws_wslay_recv_callback_-IsSsize :
    (removed : ℤ)
    → IsSsize removed
    → evws_wslay_recv_callback_ removed ≡ record { returned = removed; failure = false }
unfolding evws_wslay_recv_callback_
evws_wslay_recv_callback_-IsSsize removed b =
    let l : ltb (to_size removed) 0 ≡ false = ground arith in
    rw (l) (rw (to_ssize-to_size removed b) refl)
