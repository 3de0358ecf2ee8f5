-- ===== src/Wst/Reader.antt =====
-- The receiving half of pkg/wst/connection.go. The connection's input is the list of bytes that
-- the peer has sent and that are not yet read; its end is the end of the stream.
use warp_stream.Base.{
  ℕ, zero, suc, ◌*◌, ◌%◌, ◌^◌, Bool, true, false, ◌||◌, [], ◌∷◌, length, take, drop, leb, ltb, ◌==◌,
  if◌then◌else◌, bit_and, bit_xor, Bytes, be_value,
}
use warp_stream.Base.Monad.{Result, ok, err, Step, return, fail, and_then, ◌>>=◌}
use warp_stream.Wst.Writer.{Bufw, Write, WriteError, ping_message, pong_message, close_message}

pub data ReadError : Type 0 where
  eof unexpected_eof : ReadError
  out_of_bounds : ℕ → ReadError
  handler_failed : WriteError → ReadError

abbrev pub Read : Type 0 → Type 0
Read A = Step Bytes ReadError A

abbrev pub short_read : Bytes → ReadError
short_read [] = eof
short_read (b ∷ bs) = unexpected_eof

-- io.ReadFull into a buffer of `n` bytes.
unfoldable pub read_full : ℕ → Read Bytes
read_full n s = if leb n (length s) then (ok (take n s), drop n s) else (err (short_read s), [])

-- bufio.Reader.ReadByte.
unfoldable pub read_byte : Read ℕ
read_byte [] = (err eof, [])
read_byte (b ∷ s) = (ok b, s)

-- binary.Read of an unsigned big-endian number of `k` bytes.
unfoldable pub read_be : ℕ → Read ℕ
read_be k s = and_then (read_full k s) (λ bs. return (be_value 0 bs))

-- The length of the payload. The eight-byte form is read into an int64, so from 2 ^ 63 on it stands
-- for a negative number; `read_frame` tests for that.
unfoldable pub read_length : ℕ → Read ℕ
read_length n = if n == 126 then read_be 2 else if n == 127 then read_be 8 else return n

unfoldable pub read_mask_key : Bool → Read Bytes
read_mask_key true = read_full 4
read_mask_key false = return []

abbrev pub max_payload : ℕ
max_payload = 1024 * 1024 * 10

-- `length < 0 || length > 10MB`, on the bit pattern of an int64.
unfoldable pub is_out_of_bounds : ℕ → Bool
is_out_of_bounds n = leb (2 ^ 63) n || ltb max_payload n

abbrev pub get_or_zero : Bytes → ℕ → ℕ
get_or_zero [] i = 0
get_or_zero (b ∷ bs) zero = b
get_or_zero (b ∷ bs) (suc i) = get_or_zero bs i

-- `payload[i] ^= maskKey[i%4]`, from index `i` on.
unfoldable pub unmask : Bytes → ℕ → Bytes → Bytes
unmask key i [] = []
unmask key i (b ∷ bs) = bit_xor b (get_or_zero key (i % 4)) ∷ unmask key (suc i) bs

pub record Frame : Type 0 where
  pub opcode : ℕ
  pub payload : Bytes

unfoldable pub read_payload : Bool → Bytes → ℕ → Read Bytes
read_payload masked key n =
    if is_out_of_bounds n
    then fail (out_of_bounds n)
    else (do bs ← read_full n; return (if masked then unmask key 0 bs else bs))

-- One round of ReadMessage's loop, up to the dispatch on the opcode.
unfoldable pub read_frame : Read Frame
read_frame = do
  b0 ← read_byte
  b1 ← read_byte
  let masked = ltb 0 (bit_and b1 0x80)
  n ← read_length (bit_and b1 0x7f)
  key ← read_mask_key masked
  bs ← read_payload masked key n
  return (record { opcode = bit_and b0 0x0f; payload = bs })

-- A connection: what it has to read, and its writer, which the handlers use.
pub record Conn : Type 0 where
  pub bufr : Bytes
  pub bufw : Bufw

-- ReadMessage's three results. `stuck` is no Go value: the loop ran out of fuel.
pub data Outcome : Type 0 where
  got : ℕ → Bytes → Outcome
  failed : ℕ → Bytes → ReadError → Outcome
  stuck : Outcome

-- Call a handler; go on if it succeeds, else return what it was called for and its error.
unfoldable pub after_handler :
    (Conn → Outcome × Conn) → Frame → Conn → Result WriteError (Unit {0}) × Bufw → Outcome × Conn
after_handler continue f c (ok _, w) = continue (record c { bufw = w })
after_handler continue f c (err e, w) =
    (failed f.opcode f.payload (handler_failed e), record c { bufw = w })

unfoldable pub run_handler :
    (Bytes → Write (Unit {0})) → (Conn → Outcome × Conn) → Frame → Conn → Outcome × Conn
run_handler handler continue f c = after_handler continue f c (handler f.payload c.bufw)

module _ (ping_handler pong_handler : Bytes → Write (Unit {0})) where
  -- The switch on the opcode; `continue` is the next round.
  unfoldable pub dispatch : (Conn → Outcome × Conn) → Frame → Conn → Outcome × Conn
  dispatch continue f c =
      if f.opcode == ping_message
      then run_handler ping_handler continue f c
      else if f.opcode == pong_message
      then run_handler pong_handler continue f c
      else if f.opcode == close_message
      then (failed close_message [] eof, c)
      else (got f.opcode f.payload, c)

  unfoldable pub after_frame :
      (Conn → Outcome × Conn) → Conn → Result ReadError Frame × Bytes → Outcome × Conn
  after_frame continue c (ok f, s) = dispatch continue f (record c { bufr = s })
  after_frame continue c (err e, s) = (failed 0 [] e, record c { bufr = s })

  -- ReadMessage, by rounds.
  unfoldable pub read_message_loop : ℕ → Conn → Outcome × Conn
  read_message_loop zero c = (stuck, c)
  read_message_loop (suc fuel) c = after_frame (read_message_loop fuel) c (read_frame c.bufr)

  -- Every round takes two bytes at least, so one round for each byte and one more are enough.
  unfoldable pub read_message : Conn → Outcome × Conn
  read_message c = read_message_loop (suc (length c.bufr)) c
