-- ===== src/Wst/Writer.antt =====
-- The sending half of pkg/wst/connection.go: frames through a buffered writer.
-- The buffer's own flush when it is full is not modelled: it moves bytes from `buffered` to `wire`
-- earlier, and every call below flushes before it returns well.
use warp_stream.Base.{
  ℕ, ◌%◌, ◌^◌, Bool, true, false, Option, none, some, [], ◌∷◌, ◌++◌, length, leb, if◌then◌else◌,
  bit_or, Bytes, Text, be16, be64,
}
use warp_stream.Base.Monad.{Result, ok, err, Step, fail, ◌>>◌}

abbrev pub text_message : ℕ
text_message = 1

abbrev pub binary_message : ℕ
binary_message = 2

abbrev pub close_message : ℕ
close_message = 8

abbrev pub ping_message : ℕ
ping_message = 9

abbrev pub pong_message : ℕ
pong_message = 10

pub data WriteError : Type 0 where
  closed_pipe net_closed : WriteError
  io_failed : ℕ → WriteError
  control_too_long : ℕ → WriteError

-- The bufio.Writer over the connection. `failure` is the error that stays once a write to the
-- connection failed; `broken` is what the connection answers to a write now.
pub record Bufw : Type 0 where
  pub buffered : Bytes
  pub wire : Bytes
  pub failure : Option WriteError
  pub broken : Option WriteError

abbrev pub Write : Type 0 → Type 0
Write A = Step Bufw WriteError A

unfoldable pub write : Bytes → Write (Unit {0})
write bs w = elim w.failure [
  | some e ↦ (err e, w)
  | none ↦ (ok tt, record w { buffered = w.buffered ++ bs })
]

unfoldable pub write_byte : ℕ → Write (Unit {0})
write_byte b = write (b ∷ [])

unfoldable pub flush : Write (Unit {0})
flush w = elim w.failure [
  | some e ↦ (err e, w)
  | none ↦ elim w.broken [
    | some e ↦ (err e, record w { failure = some e })
    | none ↦ (ok tt, record w { buffered = []; wire = w.wire ++ w.buffered })
  ]
]

abbrev pub mask_bit : Bool → ℕ
mask_bit masking = if masking then 0x80 else 0

abbrev pub zero_key : Bytes
zero_key = 0 ∷ 0 ∷ 0 ∷ 0 ∷ []

-- The length field: seven bits, or 126 and two bytes, or 127 and eight.
unfoldable pub write_length : Bool → ℕ → Write (Unit {0})
write_length masking n =
    if leb n 125
    then write_byte (bit_or (mask_bit masking) (n % 256))
    else if leb n 65535
    then (do write_byte (bit_or (mask_bit masking) 126); write (be16 n))
    else (do write_byte (bit_or (mask_bit masking) 127); write (be64 n))

unfoldable pub write_payload : Bool → Bytes → Write (Unit {0})
write_payload true bs = do write zero_key; write bs
write_payload false bs = write bs

-- WriteMessage.
unfoldable pub write_message : Bool → ℕ → Bytes → Write (Unit {0})
write_message masking message_type bs = do
  write_byte (bit_or 0x80 (message_type % 256))
  write_length masking (length bs)
  write_payload masking bs
  flush

-- What WriteControl does once the length was found to fit.
unfoldable pub write_control_body : Bool → Bytes → Write (Unit {0})
write_control_body masking bs = do
  write_byte (bit_or (mask_bit masking) (length bs % 256))
  write_payload masking bs
  flush

-- WriteControl; its deadline argument is not used by the code. The first byte goes to the buffer
-- before the length is tested.
unfoldable pub write_control : Bool → ℕ → Bytes → Write (Unit {0})
write_control masking message_type bs = do
  write_byte (bit_or 0x80 (message_type % 256))
  (if leb (length bs) 125
      then write_control_body masking bs
      else fail (control_too_long (length bs)))

-- SetPingHandler's default: the pong, with two errors swallowed.
unfoldable pub ignore_closed : Result WriteError (Unit {0}) → Result WriteError (Unit {0})
ignore_closed (ok u) = ok u
ignore_closed (err closed_pipe) = ok tt
ignore_closed (err net_closed) = ok tt
ignore_closed (err e) = err e

unfoldable pub default_ping_handler : Bool → Bytes → Write (Unit {0})
default_ping_handler masking message w =
    let (r, w') = write_control masking pong_message message w in (ignore_closed r, w')

-- SetPongHandler's default.
unfoldable pub default_pong_handler : Bytes → Write (Unit {0})
default_pong_handler message w = (ok tt, w)

-- FormatCloseMessage.
unfoldable pub format_close_message : ℕ → Text → Bytes
format_close_message close_code text = be16 (close_code % 2 ^ 16) ++ text

abbrev pub close_normal_closure : ℕ
close_normal_closure = 1000
