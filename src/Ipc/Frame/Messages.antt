-- ===== src/Ipc/Frame/Messages.antt =====
-- crates/fineco-ipc/src/lib.rs: what is written is read back.
use fineco_helper.Ipc.Frame.{
  Bytes, Writer, max_message_bytes, write_all, read_exact, to_be_bytes, from_be_bytes, write_frame,
  read_frame, read_body, write_message, read_message,
}
use fineco_helper.Base.{
  [], false, ok, refl, ℕ, length, ◌<◌, ◌≤◌, ◌++◌, ◌≡◌, ltb, arith, ap, ◌-◌, length-append, some,
  le→leb, ◌+◌, Option, lt→ltb, ◌∙◌, continue, take-append, drop-append,
}

from_be_bytes-to_be_bytes : (n : ℕ) → n < 4294967296 → from_be_bytes (to_be_bytes n) ≡ n
from_be_bytes-to_be_bytes n h = omega arith

ltb_ge : (m n : ℕ) → n ≤ m → ltb m n ≡ false
ltb_ge m n h = ground arith

read_exact-append : (xs ys : Bytes) → read_exact (length xs) (xs ++ ys) ≡ (ok xs, ys)
read_exact-append xs ys =
    rw
      (
        le→leb (length xs) (length (xs ++ ys)) (omega (arith, length-append xs ys)),
        take-append xs ys,
        drop-append xs ys,
      )
      refl

write_all-fits :
    (bytes : Bytes) (w : Writer)
    → length bytes ≤ w.room
    → write_all bytes w ≡ (ok tt, record { sent = w.sent ++ bytes; room = w.room - length bytes })
write_all-fits bytes w h = rw (le→leb (length bytes) w.room h) refl

read_body-append :
    (body rest : Bytes)
    → length body ≤ max_message_bytes
    → read_body (length body) (body ++ rest) ≡ (ok body, rest)
read_body-append body rest h =
    rw (ltb_ge max_message_bytes (length body) h) (read_exact-append body rest)

read_frame-header :
    (n : ℕ) (rest : Bytes)
    → read_frame (to_be_bytes n ++ rest) ≡ read_body (from_be_bytes (to_be_bytes n)) rest
unfolding read_frame
read_frame-header n rest =
    ap (λ read. continue read.0 (λ len_buf. read_body (from_be_bytes len_buf)) read.1)
      (read_exact-append (to_be_bytes n) rest)

read_frame-append :
    (body rest : Bytes)
    → length body ≤ max_message_bytes
    → read_frame (to_be_bytes (length body) ++ (body ++ rest)) ≡ (ok body, rest)
read_frame-append body rest h =
    read_frame-header (length body) (body ++ rest)
    ∙ ap (λ n. read_body n (body ++ rest)) (from_be_bytes-to_be_bytes (length body) (omega arith))
    ∙ read_body-append body rest h

write_frame-fits :
    (bytes : Bytes) (room : ℕ)
    → length bytes ≤ max_message_bytes
    → 4 + length bytes ≤ room
    → write_frame bytes (record { sent = []; room = room }) ≡ (
      ok tt,
      record { sent = to_be_bytes (length bytes) ++ bytes; room = room - 4 - length bytes },
    )
unfolding write_frame
write_frame-fits bytes room h k =
    rw
      (
        ltb_ge max_message_bytes (length bytes) h,
        lt→ltb (length bytes) 4294967296 (omega arith),
        le→leb 4 room (omega arith),
      )
      (write_all-fits bytes (record { sent = to_be_bytes (length bytes); room = room - 4 })
        (omega arith))

module _ {T : Type 0} (to_vec : T → Option Bytes) (from_slice : Bytes → Option T) where
  -- A message whose JSON is at most 8 MiB and parses back to it, sent to a writer that takes the
  -- frame, is written without an error, and the reader of those bytes, whatever follows them, gets
  -- the message and is left with what follows.
  pub write_message-read_message :
      (message : T) (bytes rest : Bytes) (room : ℕ)
      → to_vec message ≡ some bytes
      → from_slice bytes ≡ some message
      → length bytes ≤ max_message_bytes
      → 4 + length bytes ≤ room
      → let (r, w) = write_message to_vec message (record { sent = []; room = room }) in
        (r ≡ ok tt) × (read_message from_slice (w.sent ++ rest) ≡ (ok message, rest))
  unfolding write_message read_message
  write_message-read_message message bytes rest room e f h k =
      rw (e, write_frame-fits bytes room h k, read_frame-append bytes rest h, f) (refl, refl)
