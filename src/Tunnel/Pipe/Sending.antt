-- ===== src/Tunnel/Pipe/Sending.antt =====
-- pkg/tunnel/pipe.go: what the goroutine that reads the local connection sends.
use warp_stream.Base.{
  if◌then◌else◌, ℕ, suc, ◌≤◌, ◌<◌, ◌≡◌, ◌∙◌, Bool, true, false, List, [], ◌∷◌, ◌++◌, append_assoc,
  append-nil, length, length-append, All, Bytes, IsByte, arith, ◌⊎◌, inl, inr, ◌==◌,
}
use warp_stream.Wst.Writer.{
  format_close_message, binary_message, close_message, ping_message, pong_message,
  close_normal_closure,
}
use warp_stream.Wst.Reader.{max_payload}
use warp_stream.Wst.Frames.{healthy, frame, write_message_lem}
use warp_stream.Tunnel.Pipe.{
  Turn, read, other, over, after_write, upload, say_goodbye, pipe_upload, buffer_size,
}

-- A turn that goes on: the local connection returns at most a buffer of bytes and, with none, no
-- error; the other goroutines send pings and pongs.
abbrev pub GoesOn : Turn → Type 0
GoesOn (read [] true) = ⊥
GoesOn (read [] false) = Unit {0}
GoesOn (read (b ∷ bs) bad) = All IsByte (b ∷ bs) × (length (b ∷ bs) ≤ buffer_size)
GoesOn (other t p) =
    ((t ≡ ping_message) ⊎ (t ≡ pong_message)) × All IsByte p × (length p ≤ max_payload)

-- What the local connection returned.
abbrev pub contents : List Turn → Bytes
contents [] = []
contents (read bs bad ∷ turns) = bs ++ contents turns
contents (other t p ∷ turns) = contents turns

-- How often it returned some bytes.
abbrev pub chunks : List Turn → ℕ
chunks [] = 0
chunks (read [] bad ∷ turns) = chunks turns
chunks (read (b ∷ bs) bad ∷ turns) = suc (chunks turns)
chunks (other t p ∷ turns) = chunks turns

-- The frames of the turns, and of the receiver's answers to the pings.
abbrev pub frames : Bool → List Turn → Bytes
frames masking [] = []
frames masking (read [] bad ∷ turns) = frames masking turns
frames masking (read (b ∷ bs) bad ∷ turns) =
    frame masking binary_message (b ∷ bs) ++ frames masking turns
frames masking (other t p ∷ turns) = frame masking t p ++ frames masking turns

abbrev pub answers : Bool → List Turn → Bytes
answers masking [] = []
answers masking (read bs bad ∷ turns) = answers masking turns
answers masking (other t p ∷ turns) =
    (if t == ping_message then frame masking pong_message p else []) ++ answers masking turns

abbrev pub goodbye : Bool → Bytes
goodbye masking = frame masking close_message (format_close_message close_normal_closure [])

-- The sender: the frames go out in the order of the turns, and the close frame behind them.
upload-frames :
    (masking : Bool) (turns : List Turn) (v : Bytes)
    → All GoesOn turns
    → upload masking (turns ++ read [] true ∷ []) (healthy [] v)
      ≡ (over, healthy [] (v ++ frames masking turns))
unfolding upload after_write
upload-frames masking [] v h = rw (append-nil v)
upload-frames masking (read [] true ∷ turns) v h = absurd h.0
upload-frames masking (read [] false ∷ turns) v h = upload-frames masking turns v h.1
upload-frames masking (read (b ∷ bs) bad ∷ turns) v h =
    rw (write_message_lem masking binary_message (b ∷ bs) [] v (omega arith)) (
      upload-frames masking turns (v ++ frame masking binary_message (b ∷ bs)) h.1
      ∙ rw append_assoc)
upload-frames masking (other t p ∷ turns) v h =
    rw (write_message_lem masking t p [] v (small t h.0.0), upload)
      (upload-frames masking turns (v ++ frame masking t p) h.1 ∙ rw append_assoc)
  where
    small : (t : ℕ) → (t ≡ ping_message) ⊎ (t ≡ pong_message) → t < 128
    small t (inl e) = omega arith
    small t (inr e) = omega arith

pub pipe_upload-frames :
    (masking : Bool) (turns : List Turn)
    → All GoesOn turns
    → pipe_upload masking (turns ++ read [] true ∷ []) (healthy [] [])
      ≡ (over, healthy [] (frames masking turns ++ goodbye masking))
unfolding pipe_upload say_goodbye
pipe_upload-frames masking turns h = rw (
  upload-frames masking turns [] h,
  say_goodbye,
  write_message_lem masking close_message (format_close_message close_normal_closure []) []
      (frames masking turns) (omega arith),
)

pub length-frame : (masking : Bool) (t : ℕ) (p : Bytes) → 0 < length (frame masking t p)
unfolding frame
length-frame masking t p = omega arith

pub chunks-le-frames :
    (masking : Bool) (turns : List Turn) → chunks turns ≤ length (frames masking turns)
chunks-le-frames masking [] = omega arith
chunks-le-frames masking (read [] bad ∷ turns) = chunks-le-frames masking turns
chunks-le-frames masking (read (b ∷ bs) bad ∷ turns) = omega (
  arith,
  length-append (frame masking binary_message (b ∷ bs)) (frames masking turns),
  length-frame masking binary_message (b ∷ bs),
  chunks-le-frames masking turns,
)
chunks-le-frames masking (other t p ∷ turns) = omega (
  arith,
  length-append (frame masking t p) (frames masking turns),
  chunks-le-frames masking turns,
)
