-- ===== src/Ipc/Frame.antt =====
-- crates/fineco-ipc/src/lib.rs: the frames on the socket. A writer is what it was sent and how many
-- bytes more it takes; a reader is the bytes that are still to come.
pub mod Messages
use mathlib.Core.Option
use fineco_helper.Base.{
  [], ◌∷◌, none, some, ok, err, List, String, ℕ, Exec, Option, ◌*◌, if◌then◌else◌, ◌/◌, ◌>>=◌, leb,
  ◌%◌, ◌+◌, ltb, lift, length, fail, ok_or, ◌++◌, take, ◌-◌, drop,
}

abbrev pub Bytes : Type 0
Bytes = List ℕ

-- `io::ErrorKind`
pub data IoError : Type 0 where
  invalid_data : String → IoError
  unexpected_eof : IoError
  write_zero : IoError

pub record Writer : Type 0 where
  pub sent : Bytes
  pub room : ℕ

abbrev pub max_message_bytes : ℕ
max_message_bytes = 8 * 1024 * 1024

-- `Write::write_all`: what still fits is sent.
abbrev pub write_all : Bytes → Exec Writer IoError Unit
write_all bytes w =
    if leb (length bytes) w.room
    then (ok tt, record { sent = w.sent ++ bytes; room = w.room - length bytes })
    else (err IoError.write_zero, record { sent = w.sent ++ take w.room bytes; room = 0 })

-- `Read::read_exact`
abbrev pub read_exact : ℕ → Exec Bytes IoError Bytes
read_exact n r =
    if leb n (length r) then (ok (take n r), drop n r) else (err IoError.unexpected_eof, [])

-- `u32::to_be_bytes`
abbrev pub to_be_bytes : ℕ → Bytes
to_be_bytes n = n / 16777216 % 256 ∷ n / 65536 % 256 ∷ n / 256 % 256 ∷ n % 256 ∷ []

abbrev be_number : ℕ → Bytes → ℕ
be_number n [] = n
be_number n (b ∷ bs) = be_number (n * 256 + b) bs

-- `u32::from_be_bytes`
abbrev pub from_be_bytes : Bytes → ℕ
from_be_bytes bytes = be_number 0 bytes

-- `u32::try_from`
abbrev pub u32_of : ℕ → Option ℕ
u32_of n = if ltb n 4294967296 then some n else none

unfoldable pub write_frame : Bytes → Exec Writer IoError Unit
write_frame bytes =
    if ltb max_message_bytes (length bytes)
    then fail (IoError.invalid_data "message exceeds size limit")
    else do
      len ← lift (ok_or (u32_of (length bytes)) (IoError.invalid_data "message too large"))
      _ ← write_all (to_be_bytes len)
      write_all bytes

abbrev pub read_body : ℕ → Exec Bytes IoError Bytes
read_body len =
    if ltb max_message_bytes len
    then fail (IoError.invalid_data "framed message exceeds size limit")
    else read_exact len

unfoldable pub read_frame : Exec Bytes IoError Bytes
read_frame = do len_buf ← read_exact 4; read_body (from_be_bytes len_buf)

-- `to_vec` and `from_slice` are JSON's; what they say of an error is not kept.
module _ {T : Type 0} where
  unfoldable pub write_message : (T → Option Bytes) → T → Exec Writer IoError Unit
  write_message to_vec message = do
    bytes ← lift (ok_or (to_vec message) (IoError.invalid_data "json"))
    write_frame bytes

  unfoldable pub read_message : (Bytes → Option T) → Exec Bytes IoError T
  read_message from_slice = do
    body ← read_frame
    lift (ok_or (from_slice body) (IoError.invalid_data "json"))
