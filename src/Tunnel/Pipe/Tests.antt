-- ===== src/Tunnel/Pipe/Tests.antt =====
-- A short session over a WebSocket connection.
use warp_stream.Base.{◌≡◌, refl, false, true, some, List, [], ◌∷◌, ◌++◌, Bytes, codes, arith, inl}
use warp_stream.Wst.Writer.{ping_message, default_pong_handler}
use warp_stream.Wst.Frames.{healthy}
use warp_stream.Tunnel.Pipe.{
  Turn, read, other, over, waiting, upload, pipe_upload, say_goodbye, pipe_download, answer_ping,
}
use warp_stream.Wst.Reader.{Conn}
use warp_stream.Tunnel.Pipe.{Local}
use warp_stream.Tunnel.Pipe.Ending.{pipe_download_closes}
use warp_stream.Tunnel.Pipe.Sending.{answers}
use warp_stream.Tunnel.Pipe.Delivery.{pipe-delivers}

-- Two pieces with a ping in between.
abbrev session : List Turn
session = read (codes "hi") false ∷ other ping_message (7 ∷ []) ∷ read (codes "!") false ∷ []

-- Without the end of the local connection the goroutine waits.
still_waiting : (pipe_upload false [] (healthy [] [])).0 ≡ waiting
unfolding pipe_upload upload say_goodbye
still_waiting = refl

pipe-delivers_example :
    (sent : Bytes) × (pipe_upload true (session ++ read [] true ∷ []) (healthy [] [])
      ≡ (over, healthy [] sent))
    × (pipe_download
          (answer_ping false)
          default_pong_handler
          (record { bufr = sent ++ []; bufw = healthy [] [] })
          (record { output = []; writes = 5; closed = false })
        ≡ some (
          record { bufr = []; bufw = healthy [] ([] ++ answers false session) },
          record { output = codes "hi!"; writes = 3; closed = true },
        ))
pipe-delivers_example =
    pipe-delivers true false session 5 [] []
      (
        (omega arith, omega arith),
        ((inl refl, omega arith, omega arith), ((omega arith, omega arith), tt)),
      )
      (omega arith)

-- A stream that ends in the middle of a frame.
pipe_download_closes_example :
    (r : Conn × Local) × (pipe_download
        (answer_ping false)
        default_pong_handler
        (record { bufr = 130 ∷ 5 ∷ 1 ∷ []; bufw = healthy [] [] })
        (record { output = []; writes = 1; closed = false })
      ≡ some r)
    × (r.1.closed ≡ true)
pipe_download_closes_example =
    pipe_download_closes (answer_ping false) default_pong_handler
      (record { bufr = 130 ∷ 5 ∷ 1 ∷ []; bufw = healthy [] [] })
      (record { output = []; writes = 1; closed = false })
