-- ===== src/Tunnel/Pipe.antt =====
-- pkg/tunnel/pipe.go: Pipe, which copies between a local connection and a WebSocket connection. PipeRW
-- is the same code for another type of local connection. Each of its two goroutines is a function: the
-- one that reads the local connection runs through the turns that the connection's writer takes, and
-- the one that reads the WebSocket connection runs until reading or writing fails.
pub mod Ending
pub mod Sending
pub mod Delivery
pub mod Tests
use warp_stream.Base.{
  ℕ, zero, suc, ◌*◌, Bool, true, false, ◌||◌, Option, none, some, List, [], ◌∷◌, ◌++◌, length, ◌==◌,
  if◌then◌else◌, Bytes,
}
use warp_stream.Base.Monad.{Result, ok, err}
use warp_stream.Wst.Writer.{
  Bufw, Write, WriteError, write_message, format_close_message, text_message, binary_message,
  close_message, pong_message, close_normal_closure,
}
use warp_stream.Wst.Reader.{Conn, Outcome, got, failed, stuck, read_message}

-- `read`: the local connection's Read returns these bytes, and an error or none. `other`: another
-- goroutine sends a message, such as a ping or the answer to one.
pub data Turn : Type 0 where
  read : Bytes → Bool → Turn
  other : ℕ → Bytes → Turn

-- Is the goroutine over, or does it wait for the next turn?
pub data Progress : Type 0 where
  over waiting : Progress

unfoldable pub after_write :
    (Bufw → Progress × Bufw) → Result WriteError (Unit {0}) × Bufw → Progress × Bufw
after_write continue (ok _, w) = continue w
after_write continue (err e, w) = (over, w)

-- The loop from the local connection to the WebSocket connection. The error of a Read that returned
-- bytes is overwritten by that of WriteMessage.
unfoldable pub upload : Bool → List Turn → Bufw → Progress × Bufw
upload masking [] w = (waiting, w)
upload masking (read [] true ∷ turns) w = (over, w)
upload masking (read [] false ∷ turns) w = upload masking turns w
upload masking (read (b ∷ bs) _ ∷ turns) w =
    after_write (upload masking turns) (write_message masking binary_message (b ∷ bs) w)
upload masking (other t p ∷ turns) w = upload masking turns (write_message masking t p w).1

-- Its deferred call.
unfoldable pub say_goodbye : Bool → Progress × Bufw → Progress × Bufw
say_goodbye masking (waiting, w) = (waiting, w)
say_goodbye masking (over, w) =
    (over, (write_message masking close_message (format_close_message close_normal_closure []) w).1)

unfoldable pub pipe_upload : Bool → List Turn → Bufw → Progress × Bufw
pipe_upload masking turns w = say_goodbye masking (upload masking turns w)

abbrev pub buffer_size : ℕ
buffer_size = 32 * 1024

-- The local connection: what was written to it, how many more calls of Write succeed, and is it
-- closed?
pub record Local : Type 0 where
  pub output : Bytes
  pub writes : ℕ
  pub closed : Bool

unfoldable pub write_with : ℕ → Bytes → Local → Bool × Local
write_with zero p l = (false, l)
write_with (suc n) p l = (true, record l { output = l.output ++ p; writes = n })

unfoldable pub write_local : Bytes → Local → Bool × Local
write_local p l = write_with l.writes p l

unfoldable pub close_local : Conn × Local → Conn × Local
close_local (c, l) = (c, record l { closed = true })

unfoldable pub after_delivery :
    (Conn → Local → Option (Conn × Local)) → Conn → Bool × Local → Option (Conn × Local)
after_delivery continue c (true, l) = continue c l
after_delivery continue c (false, l) = some (c, l)

-- The rest of a round, behind ReadMessage.
unfoldable pub after_message :
    (Conn → Local → Option (Conn × Local)) → Local → Outcome × Conn → Option (Conn × Local)
after_message continue l (got t p, c) =
    if t == binary_message || t == text_message
    then after_delivery continue c (write_local p l)
    else continue c l
after_message continue l (failed t p e, c) = some (c, l)
after_message continue l (stuck, c) = none

module _ (ping_handler pong_handler : Bytes → Write (Unit {0})) where
  -- The loop from the WebSocket connection to the local one; none if the rounds do not suffice.
  unfoldable pub download : ℕ → Conn → Local → Option (Conn × Local)
  download zero c l = none
  download (suc fuel) c l =
      after_message (download fuel) l (read_message ping_handler pong_handler c)

  -- A round takes a byte at least. The deferred call closes the local connection.
  unfoldable pub pipe_download : Conn → Local → Option (Conn × Local)
  pipe_download c l = elim (download (suc (length c.bufr)) c l) [
    | none ↦ none
    | some r ↦ some (close_local r)
  ]

-- The ping handler that both ends set before they pipe.
unfoldable pub answer_ping : Bool → Bytes → Write (Unit {0})
answer_ping masking p w = write_message masking pong_message p w
