-- ===== src/Wst/RoundTrip.antt =====
-- pkg/wst/connection.go: what WriteMessage sends, ReadMessage receives.
use warp_stream.Base.{
  ℕ, suc, ◌≤◌, ◌<◌, ◌≡◌, ◌≢◌, refl, Bool, true, false, [], ◌++◌, length, All, Bytes, IsByte, arith,
  ◌==◌,
}
use warp_stream.Base.Monad.{ok}
use warp_stream.Wst.Writer.{
  Write, Bufw, zero_key, write_message, ping_message, pong_message, close_message,
}
use warp_stream.Wst.Reader.{
  max_payload, Conn, Outcome, got, after_frame, dispatch, read_message, read_message_loop,
}
use warp_stream.Wst.Frames.{healthy, frame, write_message_lem}
use warp_stream.Wst.Decode.{peer_frame, unmask-zero_key, read-peer_frame}

-- The opcodes that ReadMessage hands to its caller.
pub record IsDataOpcode (t : ℕ) : Type 0 where
  pub small : t < 16
  pub not_close : t ≢ close_message
  pub not_ping : t ≢ ping_message
  pub not_pong : t ≢ pong_message

-- What the code sends is a peer's frame under the zero key.
pub frame-peer_frame :
    (masking : Bool) (t : ℕ) (bs : Bytes)
    → All IsByte bs
    → frame masking t bs ≡ peer_frame masking zero_key t bs
unfolding frame
frame-peer_frame true t bs h = rw (unmask-zero_key 0 bs h)
frame-peer_frame false t bs h = refl

ne→false : (a b : ℕ) → a ≢ b → (a == b) ≡ false
ne→false a b h = ground arith

module _ (ping_handler pong_handler : Bytes → Write (Unit {0})) where
  dispatch_data :
      (continue : Conn → Outcome × Conn) (t : ℕ) (bs : Bytes) (c : Conn)
      → IsDataOpcode t
      → dispatch ping_handler pong_handler continue (record { opcode = t; payload = bs }) c
        ≡ (got t bs, c)
  unfolding dispatch
  dispatch_data continue t bs c d = rw (
    ne→false t ping_message d.not_ping,
    ne→false t pong_message d.not_pong,
    ne→false t close_message d.not_close,
  )

  -- A round on a data frame ends the loop.
  pub loop-peer_frame :
      (fuel : ℕ) (masking : Bool) (key : Bytes) (t : ℕ) (bs s : Bytes) (w : Bufw)
      → length key ≡ 4
      → All IsByte key
      → IsDataOpcode t
      → All IsByte bs
      → length bs ≤ max_payload
      → read_message_loop ping_handler pong_handler
          (suc fuel)
          (record { bufr = peer_frame masking key t bs ++ s; bufw = w })
        ≡ (got t bs, record { bufr = s; bufw = w })
  unfolding read_message_loop after_frame
  loop-peer_frame fuel masking key t bs s w h4 hk d hb hl =
      rw (read-peer_frame masking key t bs s h4 hk d.small hb hl)
        (dispatch_data (read_message_loop ping_handler pong_handler fuel) t bs _ d)

  -- A data message of any peer, masked with any key or not masked, is received: its opcode, its
  -- payload as it was before the masking, and the stream behind the frame. The payload is at most
  -- 10 MiB long.
  pub read-peer :
      (masking : Bool) (key : Bytes) (t : ℕ) (bs s : Bytes) (w : Bufw)
      → length key ≡ 4
      → All IsByte key
      → IsDataOpcode t
      → All IsByte bs
      → length bs ≤ max_payload
      → read_message ping_handler pong_handler
          (record { bufr = peer_frame masking key t bs ++ s; bufw = w })
        ≡ (got t bs, record { bufr = s; bufw = w })
  unfolding read_message
  read-peer masking key t bs s w h4 hk d hb hl =
      loop-peer_frame _ masking key t bs s w h4 hk d hb hl

  -- Whatever one side sends by WriteMessage on a working connection with an empty buffer, the other
  -- side's ReadMessage returns, for every data opcode below 16 and every payload of at most 10 MiB,
  -- with masking or without; the rest of the stream and the receiver's writer stay as they were.
  pub read-write :
      (masking : Bool) (t : ℕ) (bs s v : Bytes) (w : Bufw)
      → IsDataOpcode t
      → All IsByte bs
      → length bs ≤ max_payload
      → (sent : Bytes) × ((write_message masking t bs (healthy [] v))
          ≡ (ok tt, healthy [] (v ++ sent)))
        × (read_message ping_handler pong_handler (record { bufr = sent ++ s; bufw = w })
            ≡ (got t bs, record { bufr = s; bufw = w }))
  read-write masking t bs s v w d hb hl = (
    frame masking t bs,
    write_message_lem masking t bs [] v (omega (arith, d.small)),
    rw (frame-peer_frame masking t bs hb)
        (read-peer masking zero_key t bs s w refl (omega arith) d hb hl),
  )
