-- ===== src/Tunnel/Pipe/Delivery.antt =====
-- pkg/tunnel/pipe.go and pkg/wst/connection.go: what one end of a tunnel reads, the other end writes.
use warp_stream.Base.{
  if◌then◌else◌, ℕ, zero, suc, ◌+◌, ◌-◌, ◌≤◌, ◌<◌, ◌≡◌, refl, ap, ◌∙◌, Bool, true, false, Option,
  some, List, [], ◌∷◌, ◌++◌, append_assoc, append-nil, length, length-append, All, Bytes, IsByte,
  arith, ◌⊎◌, inl, inr, ◌==◌,
}
use warp_stream.Wst.Writer.{
  Bufw, zero_key, format_close_message, binary_message, close_message, ping_message, pong_message,
  close_normal_closure, default_pong_handler,
}
use warp_stream.Wst.Reader.{
  max_payload, Conn, Outcome, got, failed, eof, after_frame, dispatch, read_message,
  read_message_loop, run_handler, after_handler,
}
use warp_stream.Wst.Frames.{healthy, frame, write_message_lem}
use warp_stream.Wst.Decode.{read-peer_frame}
use warp_stream.Wst.RoundTrip.{IsDataOpcode, frame-peer_frame, read-peer}
use warp_stream.Wst.Rounds.{loop_fuel}
use warp_stream.Tunnel.Pipe.{
  Turn, read, other, over, pipe_upload, buffer_size, Local, write_with, write_local, close_local,
  after_delivery, after_message, download, pipe_download, answer_ping,
}
use warp_stream.Tunnel.Pipe.Sending.{
  GoesOn, contents, chunks, frames, answers, goodbye, pipe_upload-frames, length-frame,
  chunks-le-frames,
}

-- The receiver. It answers pings by the handler that both ends set, and it lets pongs pass.
module _ (reply_masking masking : Bool) where
  abbrev receive : Conn → Outcome × Conn
  receive = read_message (answer_ping reply_masking) default_pong_handler

  abbrev reply : ℕ → Bytes → Bytes
  reply t p = if t == ping_message then frame reply_masking pong_message p else []

  -- A round on a ping or a pong.
  loop-other :
      (fuel t : ℕ) (p s v : Bytes)
      → (t ≡ ping_message) ⊎ (t ≡ pong_message)
      → All IsByte p
      → length p ≤ max_payload
      → read_message_loop
          (answer_ping reply_masking)
          default_pong_handler
          (suc fuel)
          (record { bufr = frame masking t p ++ s; bufw = healthy [] v })
        ≡ read_message_loop
            (answer_ping reply_masking)
            default_pong_handler
            fuel
            (record { bufr = s; bufw = healthy [] (v ++ reply t p) })
  unfolding read_message_loop after_frame dispatch run_handler after_handler answer_ping
      default_pong_handler
  loop-other fuel t p s v (inl e) hp hl =
      rw (e, frame-peer_frame masking ping_message p hp)
        (rw
          (read-peer_frame masking zero_key ping_message p s refl (omega arith) (omega arith) hp hl)
          (rw (write_message_lem reply_masking pong_message p [] v (omega arith), after_handler)))
  loop-other fuel t p s v (inr e) hp hl =
      rw (e, frame-peer_frame masking pong_message p hp)
        (rw
          (read-peer_frame masking zero_key pong_message p s refl (omega arith) (omega arith) hp hl)
          (rw (append-nil v)))

  receive-other :
      (t : ℕ) (p s v : Bytes)
      → (t ≡ ping_message) ⊎ (t ≡ pong_message)
      → All IsByte p
      → length p ≤ max_payload
      → receive (record { bufr = frame masking t p ++ s; bufw = healthy [] v })
        ≡ receive (record { bufr = s; bufw = healthy [] (v ++ reply t p) })
  unfolding read_message
  receive-other t p s v k hp hl =
      loop-other (length (frame masking t p ++ s)) t p s v k hp hl
      ∙ loop_fuel (answer_ping reply_masking) default_pong_handler _ _ _
          (longer (length-append (frame masking t p) s)) (omega arith)
    where
      longer :
          length (frame masking t p ++ s) ≡ length (frame masking t p) + length s
          → length s < length (frame masking t p ++ s)
      longer e = omega (arith, length-frame masking t p)

  receive-goodbye :
      (s : Bytes) (w : Bufw)
      → receive (record { bufr = goodbye masking ++ s; bufw = w })
        ≡ (failed close_message [] eof, record { bufr = s; bufw = w })
  unfolding read_message read_message_loop after_frame dispatch format_close_message
  receive-goodbye s w =
      let farewell : Bytes = format_close_message close_normal_closure [] in
      let bytes : All IsByte farewell = omega arith in
      rw (frame-peer_frame masking close_message farewell bytes) (
        rw (
          read-peer_frame masking zero_key close_message farewell s refl (omega arith) (omega arith)
            bytes (omega arith)))

  data_opcode : IsDataOpcode binary_message
  data_opcode = record {
    small = omega arith;
    not_close = λ e. omega arith;
    not_ping = λ e. omega arith;
    not_pong = λ e. omega arith;
  }

  receive-chunk :
      (bs s : Bytes) (w : Bufw)
      → All IsByte bs
      → length bs ≤ buffer_size
      → receive (record { bufr = frame masking binary_message bs ++ s; bufw = w })
        ≡ (got binary_message bs, record { bufr = s; bufw = w })
  receive-chunk bs s w hb hl = rw (frame-peer_frame masking binary_message bs hb) (
      read-peer (answer_ping reply_masking) default_pong_handler masking zero_key binary_message bs
        s w refl (omega arith) data_opcode hb (omega arith))

  -- The local connection after the turns, if it takes all writes.
  abbrev written : Bytes → ℕ → List Turn → Local
  written out n turns = record {
    output = out ++ contents turns;
    writes = n - chunks turns;
    closed = false;
  }

  download-frames :
      (turns : List Turn) (fuel n : ℕ) (out s v : Bytes)
      → All GoesOn turns
      → chunks turns < fuel
      → chunks turns ≤ n
      → download
          (answer_ping reply_masking)
          default_pong_handler
          fuel
          (record { bufr = frames masking turns ++ (goodbye masking ++ s); bufw = healthy [] v })
          (record { output = out; writes = n; closed = false })
        ≡ some (
          record { bufr = s; bufw = healthy [] (v ++ answers reply_masking turns) },
          written out n turns,
        )
  unfolding download after_message after_delivery write_local write_with
  download-frames turns zero n out s v h hf hn = absurd (omega arith)
  download-frames [] (suc fuel) n out s v h hf hn =
      rw (receive-goodbye s (healthy [] v), after_message, append-nil v, append-nil out)
        (ap
          (λ (k : ℕ). some (
            record { bufr = s; bufw = healthy [] v },
            record { output = out; writes = k; closed = false },
          ))
          (omega arith))
  download-frames (read [] true ∷ turns) (suc fuel) n out s v h hf hn = absurd h.0
  download-frames (read [] false ∷ turns) (suc fuel) n out s v h hf hn =
      download-frames turns (suc fuel) n out s v h.1 hf hn
  download-frames (read (b ∷ bs) bad ∷ turns) (suc fuel) zero out s v h hf hn = absurd (omega arith)
  download-frames (read (b ∷ bs) bad ∷ turns) (suc fuel) (suc n) out s v h hf hn =
      rw
        (
          append_assoc,
          receive-chunk (b ∷ bs) (frames masking turns ++ (goodbye masking ++ s)) (healthy [] v)
              h.0.0 h.0.1,
        )
        (download-frames turns fuel n (out ++ b ∷ bs) s v h.1 (omega arith) (omega arith) ∙ same)
    where
      same :
          Path
            (Option (Conn × Local))
            (some (
              record { bufr = s; bufw = healthy [] (v ++ answers reply_masking turns) },
              written (out ++ b ∷ bs) n turns,
            ))
            (some (
              record { bufr = s; bufw = healthy [] (v ++ answers reply_masking turns) },
              written out (suc n) (read (b ∷ bs) bad ∷ turns),
            ))
      same = rw append_assoc (
          ap
            (λ (k : ℕ). some (
              record { bufr = s; bufw = healthy [] (v ++ answers reply_masking turns) },
              record {
                output = out ++ contents (read (b ∷ bs) bad ∷ turns);
                writes = k;
                closed = false;
              },
            ))
            (omega arith))
  download-frames (other t p ∷ turns) (suc fuel) n out s v h hf hn =
      rw
        (
          append_assoc,
          receive-other t p (frames masking turns ++ (goodbye masking ++ s)) v h.0.0 h.0.1 h.0.2,
        )
        (download-frames turns (suc fuel) n out s (v ++ reply t p) h.1 hf hn ∙ rw append_assoc)

-- A tunnel's two ends by WebSocket. Whatever the local connection of one end returns, in whatever
-- pieces of at most 32 KiB until it ends, and whatever pings and pongs are sent in between, with or
-- without masking: the other end writes these bytes to its local connection, in their order and no
-- others, answers each ping, and closes its local connection behind the last byte. That connection
-- takes as many writes as there are pieces, and the other end's writer works and is empty.
pub pipe-delivers :
    (masking reply_masking : Bool) (turns : List Turn) (n : ℕ) (s v : Bytes)
    → All GoesOn turns
    → chunks turns ≤ n
    → (sent : Bytes) × (pipe_upload masking (turns ++ read [] true ∷ []) (healthy [] [])
        ≡ (over, healthy [] sent))
      × (pipe_download
            (answer_ping reply_masking)
            default_pong_handler
            (record { bufr = sent ++ s; bufw = healthy [] v })
            (record { output = []; writes = n; closed = false })
          ≡ some (
            record { bufr = s; bufw = healthy [] (v ++ answers reply_masking turns) },
            record { output = contents turns; writes = n - chunks turns; closed = true },
          ))
unfolding pipe_download close_local
pipe-delivers masking reply_masking turns n s v h hn = (
  frames masking turns ++ goodbye masking,
  pipe_upload-frames masking turns h,
  rw append_assoc (
      rw (
        download-frames reply_masking masking turns
            (suc (length (frames masking turns ++ (goodbye masking ++ s)))) n [] s v h
            (omega (
              arith,
              chunks-le-frames masking turns,
              length-append (frames masking turns) (goodbye masking ++ s),
            ))
            hn,
        pipe_download,
      )),
)
