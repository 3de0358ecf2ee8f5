-- ===== src/Wst/Rounds.antt =====
-- pkg/wst/connection.go: ReadMessage does not depend on the rounds that it is given, and each message
-- takes bytes off the stream.
use warp_stream.Base.{
  ℕ, zero, suc, ◌≤◌, ◌<◌, ◌≡◌, refl, length, Bytes, Bool-cases, inl, inr, ◌==◌, arith,
}
use warp_stream.Base.Monad.{Result, ok, err}
use warp_stream.Wst.Writer.{Write, Bufw, WriteError, ping_message, pong_message, close_message}
use warp_stream.Wst.Reader.{
  Frame, Conn, Outcome, got, failed, stuck, after_frame, dispatch, read_frame, read_message_loop,
  run_handler, after_handler,
}
use warp_stream.Wst.Bounds.{read_frame_takes, read_frame-cases}

-- A message leaves fewer than `n` bytes.
abbrev pub Leaves : ℕ → Outcome × Conn → Type 0
Leaves n (got t p, c) = length c.bufr < n
Leaves n (failed t p e, c) = Unit {0}
Leaves n (stuck, c) = Unit {0}

module _ (ping_handler pong_handler : Bytes → Write (Unit {0})) where
  after_handler_ext :
      (k l : Conn → Outcome × Conn) (f : Frame) (c : Conn) (r : Result WriteError (Unit {0}) × Bufw)
      → ((w : Bufw) → k (record c { bufw = w }) ≡ l (record c { bufw = w }))
      → after_handler k f c r ≡ after_handler l f c r
  unfolding after_handler
  after_handler_ext k l f c (ok u, w) h = h w
  after_handler_ext k l f c (err e, w) h = refl

  dispatch_ext :
      (k l : Conn → Outcome × Conn) (f : Frame) (c : Conn)
      → ((w : Bufw) → k (record c { bufw = w }) ≡ l (record c { bufw = w }))
      → dispatch ping_handler pong_handler k f c ≡ dispatch ping_handler pong_handler l f c
  unfolding dispatch run_handler
  dispatch_ext k l f c h = elim (Bool-cases (f.opcode == ping_message)) [
    | inl e ↦ rw (e, dispatch) (after_handler_ext k l f c _ h)
    | inr e ↦ elim (Bool-cases (f.opcode == pong_message)) [
      | inl g ↦ rw (e, g, dispatch) (after_handler_ext k l f c _ h)
      | inr g ↦ rw (e, g, dispatch)
    ]
  ]

  -- More rounds than there are bytes are as good as any other such number.
  pub loop_fuel :
      (m n : ℕ) (c : Conn)
      → length c.bufr < m
      → length c.bufr < n
      → read_message_loop ping_handler pong_handler m c
        ≡ read_message_loop ping_handler pong_handler n c
  unfolding read_message_loop after_frame
  loop_fuel zero n c hm hn = absurd (omega arith)
  loop_fuel (suc m) zero c hm hn = absurd (omega arith)
  loop_fuel (suc m) (suc n) c hm hn = elim (read_frame-cases (read_frame c.bufr)) [
    | inl (f, s', e) ↦
        let t = read_frame_takes c.bufr e in
        rw (e, after_frame)
          (dispatch_ext (read_message_loop ping_handler pong_handler m)
            (read_message_loop ping_handler pong_handler n) f _
            (λ w.
              loop_fuel m n (record { bufr = s'; bufw = w }) (omega (arith, t)) (omega (arith, t))))
    | inr (x, s', e) ↦ rw (e, after_frame)
  ]

  after_handler-Leaves :
      (continue : Conn → Outcome × Conn) (f : Frame) (c : Conn) (n : ℕ)
      (r : Result WriteError (Unit {0}) × Bufw)
      → ((w : Bufw) → Leaves n (continue (record c { bufw = w })))
      → Leaves n (after_handler continue f c r)
  unfolding after_handler
  after_handler-Leaves continue f c n (ok u, w) h = h w
  after_handler-Leaves continue f c n (err e, w) h = tt

  dispatch-Leaves :
      (continue : Conn → Outcome × Conn) (f : Frame) (c : Conn) (n : ℕ)
      → length c.bufr < n
      → ((w : Bufw) → Leaves n (continue (record c { bufw = w })))
      → Leaves n (dispatch ping_handler pong_handler continue f c)
  unfolding dispatch run_handler
  dispatch-Leaves continue f c n hl h = elim (Bool-cases (f.opcode == ping_message)) [
    | inl e ↦ rw (e, dispatch) (after_handler-Leaves continue f c n _ h)
    | inr e ↦ elim (Bool-cases (f.opcode == pong_message)) [
      | inl g ↦ rw (e, g, dispatch) (after_handler-Leaves continue f c n _ h)
      | inr g ↦ elim (Bool-cases (f.opcode == close_message)) [
        | inl i ↦ rw (e, g, i, dispatch) tt
        | inr i ↦ rw (e, g, i, dispatch) hl
      ]
    ]
  ]

  pub loop-Leaves :
      (fuel n : ℕ) (c : Conn)
      → length c.bufr ≤ n
      → Leaves n (read_message_loop ping_handler pong_handler fuel c)
  unfolding read_message_loop after_frame
  loop-Leaves zero n c h = tt
  loop-Leaves (suc fuel) n c h = elim (read_frame-cases (read_frame c.bufr)) [
    | inl (f, s', e) ↦
        let t = read_frame_takes c.bufr e in
        rw (e, after_frame)
          (dispatch-Leaves (read_message_loop ping_handler pong_handler fuel) f _ n
            (omega (arith, t))
            (λ w. loop-Leaves fuel n (record { bufr = s'; bufw = w }) (omega (arith, t))))
    | inr (x, s', e) ↦ rw (e, after_frame) tt
  ]
