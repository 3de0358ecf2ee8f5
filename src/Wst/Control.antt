-- ===== src/Wst/Control.antt =====
-- pkg/wst/connection.go: control frames.
use warp_stream.Base.{
  ℕ, zero, suc, ◌+◌, ◌≤◌, ◌<◌, ◌≡◌, ap, ◌∙◌, Bool, List, [], ◌∷◌, ◌++◌, append_assoc, append-nil,
  length, length-append, All, Bytes, IsByte, arith,
}
use warp_stream.Base.Monad.{ok, err}
use warp_stream.Wst.Writer.{
  write_message, write_control, control_too_long, default_ping_handler, default_pong_handler,
  ignore_closed, ping_message, pong_message,
}
use warp_stream.Wst.Reader.{
  max_payload, Conn, Outcome, got, after_frame, dispatch, read_message, read_message_loop,
  run_handler, after_handler,
}
use warp_stream.Wst.Frames.{
  healthy, frame, write_message_lem, write_control_lem, write_control_long,
}
use warp_stream.Wst.Decode.{peer_frame, read-peer_frame}
use warp_stream.Wst.RoundTrip.{IsDataOpcode, loop-peer_frame}

-- The frames of a row of pings, and of the pongs that answer them.
abbrev pub pings : Bool → Bytes → List Bytes → Bytes
pings masking key [] = []
pings masking key (p ∷ ps) = peer_frame masking key ping_message p ++ pings masking key ps

abbrev pub pongs : Bool → List Bytes → Bytes
pongs masking [] = []
pongs masking (p ∷ ps) = frame masking pong_message p ++ pongs masking ps

abbrev pub IsControlPayload : Bytes → Type 0
IsControlPayload p = All IsByte p × (length p ≤ 125)

default_ping_handler_lem :
    (masking : Bool) (p v : Bytes)
    → length p ≤ 125
    → default_ping_handler masking p (healthy [] v)
      ≡ (ok tt, healthy [] (v ++ frame masking pong_message p))
unfolding default_ping_handler ignore_closed
default_ping_handler_lem masking p v h =
    rw (write_control_lem masking pong_message p [] v (omega arith) h)

module _ (reply_masking masking : Bool) (key : Bytes) (four : length key ≡ 4)
    (bytes : All IsByte key) where
  abbrev answering : ℕ → Conn → Outcome × Conn
  answering = read_message_loop (default_ping_handler reply_masking) default_pong_handler

  loop-ping :
      (fuel : ℕ) (p s v : Bytes)
      → IsControlPayload p
      → answering
          (suc fuel)
          (record { bufr = peer_frame masking key ping_message p ++ s; bufw = healthy [] v })
        ≡ answering fuel
            (record { bufr = s; bufw = healthy [] (v ++ frame reply_masking pong_message p) })
  unfolding read_message_loop after_frame dispatch run_handler after_handler
  loop-ping fuel p s v h =
      rw (read-peer_frame masking key ping_message p s four bytes (omega arith) h.0 (omega arith))
        (rw (default_ping_handler_lem reply_masking p v h.1, after_handler))

  loop-pings :
      (ps : List Bytes) (fuel : ℕ) (t : ℕ) (bs s v : Bytes)
      → length ps < fuel
      → All IsControlPayload ps
      → IsDataOpcode t
      → All IsByte bs
      → length bs ≤ max_payload
      → answering fuel (record {
        bufr = pings masking key ps ++ (peer_frame masking key t bs ++ s);
        bufw = healthy [] v;
      })
        ≡ (got t bs, record { bufr = s; bufw = healthy [] (v ++ pongs reply_masking ps) })
  loop-pings ps zero t bs s v hf hp d hb hl = absurd (omega arith)
  loop-pings [] (suc fuel) t bs s v hf hp d hb hl =
      loop-peer_frame _ _ fuel masking key t bs s _ four bytes d hb hl ∙ rw (append-nil v)
  loop-pings (p ∷ ps) (suc fuel) t bs s v hf hp d hb hl = rw append_assoc (
      loop-ping fuel p _ v hp.0
      ∙ loop-pings ps fuel t bs s _ (omega arith) hp.1 d hb hl
      ∙ rw append_assoc)

  length-pings : (ps : List Bytes) (s : Bytes) → length ps ≤ length (pings masking key ps ++ s)
  length-pings [] s = omega arith
  length-pings (p ∷ ps) s = omega (
    arith,
    length-append (peer_frame masking key ping_message p) (pings masking key ps),
    ap length (append_assoc (peer_frame masking key ping_message p) (pings masking key ps) s),
    length-append (peer_frame masking key ping_message p) (pings masking key ps ++ s),
    length-pings ps s,
  )

  -- A data message behind any number of pings is delivered, and each ping is answered by a pong with
  -- its payload, in their order; the pings carry at most 125 bytes, the message at most 10 MiB, the
  -- handlers are the default ones, and the reply goes to a working connection.
  pub read-pings :
      (ps : List Bytes) (t : ℕ) (bs s v : Bytes)
      → All IsControlPayload ps
      → IsDataOpcode t
      → All IsByte bs
      → length bs ≤ max_payload
      → read_message (default_ping_handler reply_masking) default_pong_handler (record {
        bufr = pings masking key ps ++ (peer_frame masking key t bs ++ s);
        bufw = healthy [] v;
      })
        ≡ (got t bs, record { bufr = s; bufw = healthy [] (v ++ pongs reply_masking ps) })
  unfolding read_message
  read-pings ps t bs s v hp d hb hl =
      loop-pings ps _ t bs s v (omega (arith, length-pings ps (peer_frame masking key t bs ++ s)))
        hp d hb hl

-- A control message of more than 125 bytes is refused, and spoils the next message: what a later
-- WriteMessage puts on the wire begins with the first byte of the control frame that was refused.
pub write_message-write_control_long :
    (masking : Bool) (t u : ℕ) (long bs v : Bytes)
    → t < 128
    → u < 128
    → 125 < length long
    → ((write_control masking t long (healthy [] v)).0 ≡ err (control_too_long (length long)))
      × (write_message masking u bs (write_control masking t long (healthy [] v)).1
          ≡ (ok tt, healthy [] (v ++ ((128 + t) ∷ frame masking u bs))))
write_message-write_control_long masking t u long bs v ht hu hl =
    let e = write_control_long masking t long [] v ht hl in
    (rw e, rw e (write_message_lem masking u bs ((128 + t) ∷ []) v hu))
