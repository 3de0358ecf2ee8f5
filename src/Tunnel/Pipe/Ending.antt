-- ===== src/Tunnel/Pipe/Ending.antt =====
-- pkg/tunnel/pipe.go: the goroutine that reads the WebSocket connection comes to its end.
use warp_stream.Base.{
  ℕ, zero, suc, ◌<◌, ◌≡◌, refl, Bool, true, false, Option, none, some, length, Bytes, Bool-cases,
  inl, inr, ◌==◌, ◌||◌, arith,
}
use warp_stream.Wst.Writer.{Write, binary_message, text_message}
use warp_stream.Wst.Reader.{Conn, Outcome, got, failed, stuck, read_message}
use warp_stream.Wst.Bounds.{read_message-IsSound, IsSound}
use warp_stream.Wst.Rounds.{Leaves, loop-Leaves}
use warp_stream.Tunnel.Pipe.{
  Local, after_message, after_delivery, write_local, download, pipe_download, close_local,
}

module _ (ping_handler pong_handler : Bytes → Write (Unit {0})) where
  -- The loop over messages is over, and with the deferred call the local connection is closed.
  abbrev pub IsOver : Option (Conn × Local) → Type 0
  IsOver none = ⊥
  IsOver (some r) = Unit {0}

  after_delivery-IsOver :
      (continue : Conn → Local → Option (Conn × Local)) (c : Conn) (r : Bool × Local)
      → ((l : Local) → IsOver (continue c l))
      → IsOver (after_delivery continue c r)
  unfolding after_delivery
  after_delivery-IsOver continue c (true, l) h = h l
  after_delivery-IsOver continue c (false, l) h = tt

  after_message-IsOver :
      (continue : Conn → Local → Option (Conn × Local)) (l : Local) (n : ℕ) (r : Outcome × Conn)
      → IsSound r.0
      → Leaves n r
      → ((c : Conn) (k : Local) → length c.bufr < n → IsOver (continue c k))
      → IsOver (after_message continue l r)
  unfolding after_message
  after_message-IsOver continue l n (got t p, c) v h f =
      elim (Bool-cases (t == binary_message || t == text_message)) [
        | inl e ↦
            rw (e, after_message)
              (after_delivery-IsOver continue c (write_local p l) (λ k. f c k h))
        | inr e ↦ rw (e, after_message) (f c l h)
      ]
  after_message-IsOver continue l n (failed t p e, c) v h f = tt
  after_message-IsOver continue l n (stuck, c) v h f = absurd v

  pub download-IsOver :
      (fuel : ℕ) (c : Conn) (l : Local)
      → length c.bufr < fuel
      → IsOver (download ping_handler pong_handler fuel c l)
  unfolding download read_message
  download-IsOver zero c l h = absurd (omega arith)
  download-IsOver (suc fuel) c l h =
      after_message-IsOver (download ping_handler pong_handler fuel) l (length c.bufr) _
        (read_message-IsSound ping_handler pong_handler c)
        (loop-Leaves ping_handler pong_handler (suc (length c.bufr)) (length c.bufr) c
          (omega arith))
        (λ c' k h'. download-IsOver fuel c' k (omega arith))

  closes :
      (o : Option (Conn × Local))
      → IsOver o
      → (r : Conn × Local) × (elim o as (λ p. Option (Conn × Local)) [
        | none ↦ none
        | some s ↦ some (close_local s)
      ]
          ≡ some r)
        × (r.1.closed ≡ true)
  unfolding close_local
  closes none h = absurd h
  closes (some r) h = (close_local r, refl, refl)

  -- Whatever the peer sends, whatever the handlers do and whenever a write to the local connection
  -- fails: the goroutine that reads the WebSocket connection is over once the stream is, and has
  -- closed the local connection.
  pub pipe_download_closes :
      (c : Conn) (l : Local)
      → (r : Conn × Local) × (pipe_download ping_handler pong_handler c l ≡ some r)
        × (r.1.closed ≡ true)
  unfolding pipe_download
  pipe_download_closes c l = closes _ (download-IsOver (suc (length c.bufr)) c l (omega arith))
