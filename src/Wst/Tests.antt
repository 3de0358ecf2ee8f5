-- ===== src/Wst/Tests.antt =====
-- Runs of the WebSocket handshake, and of the connection on small messages.
use warp_stream.Base.{◌+◌, ◌≡◌, refl, List, true, false, [], ◌∷◌, ◌++◌, replicate, Bytes, arith}
use warp_stream.Base.Monad.{ok, err}
use warp_stream.Wst.Upgrade.{UpgradeResponse, upgrade_connection, dial_request, check_response}
use warp_stream.Wst.Upgrade.Agreement.{working, upgrade-dial}
use warp_stream.Base.{◌↔◌, Text, codes}
use warp_stream.Wst.Writer.{
  write_message, write_control, control_too_long, default_ping_handler, default_pong_handler,
  ping_message,
}
use warp_stream.Wst.Reader.{read_message, got}
use warp_stream.Wst.Frames.{healthy, frame}
use warp_stream.Wst.Decode.{peer_frame}
use warp_stream.Wst.RoundTrip.{IsDataOpcode, read-write, read-peer}
use warp_stream.Wst.Control.{write_message-write_control_long}
use warp_stream.Wst.Bounds.{IsSound, read_message-IsSound}

abbrev hello : Bytes
hello = 104 ∷ 101 ∷ 108 ∷ 108 ∷ 111 ∷ []

abbrev mask_key : Bytes
mask_key = 7 ∷ 1 ∷ 200 ∷ 33 ∷ []

abbrev pings_sent : List Bytes
pings_sent = (1 ∷ 2 ∷ []) ∷ [] ∷ []

binary : IsDataOpcode 2
binary = record {
  small = omega arith;
  not_close = λ e. omega (arith, e);
  not_ping = λ e. omega (arith, e);
  not_pong = λ e. omega (arith, e);
}

read-write_example :
    (sent : Bytes) × ((write_message true 2 hello (healthy [] (9 ∷ [])))
      ≡ (ok tt, healthy [] (9 ∷ sent)))
    × (read_message
          (default_ping_handler false)
          default_pong_handler
          (record { bufr = sent ++ 8 ∷ []; bufw = healthy [] [] })
        ≡ (got 2 hello, record { bufr = 8 ∷ []; bufw = healthy [] [] }))
read-write_example =
    read-write (default_ping_handler false) default_pong_handler true 2 hello (8 ∷ []) (9 ∷ [])
      (healthy [] []) binary (omega arith) (omega arith)

read-peer_example :
    read_message
      (default_ping_handler false)
      default_pong_handler
      (record { bufr = peer_frame true mask_key 2 hello ++ 8 ∷ []; bufw = healthy [] [] })
    ≡ (got 2 hello, record { bufr = 8 ∷ []; bufw = healthy [] [] })
read-peer_example =
    read-peer (default_ping_handler false) default_pong_handler true mask_key 2 hello (8 ∷ [])
      (healthy [] []) refl (omega arith) binary (omega arith) (omega arith)

read_message-IsSound_example :
    IsSound
      (read_message
        (default_ping_handler false)
        default_pong_handler
        (record { bufr = 137 ∷ 0 ∷ 130 ∷ 1 ∷ 5 ∷ []; bufw = healthy [] [] })).0
read_message-IsSound_example =
    read_message-IsSound (default_ping_handler false) default_pong_handler
      (record { bufr = 137 ∷ 0 ∷ 130 ∷ 1 ∷ 5 ∷ []; bufw = healthy [] [] })

abbrev long : Bytes
long = replicate 126 0

write_message-write_control_long_example :
    ((write_control false ping_message long (healthy [] [])).0 ≡ err (control_too_long 126))
    × (write_message false 2 hello (write_control false ping_message long (healthy [] [])).1
        ≡ (ok tt, healthy [] ((128 + ping_message) ∷ frame false 2 hello)))
write_message-write_control_long_example =
    write_message-write_control_long false ping_message 2 long hello [] (omega arith) (omega arith)
      (omega arith)

abbrev accept_key : Text → Text
accept_key key = key ++ codes "258E"

upgrade-dial_example :
    (r : UpgradeResponse) × (upgrade_connection accept_key
        (codes "v1" ∷ [])
        working
        (dial_request (codes "bm9uY2U="))
      ≡ ok r)
    × (check_response accept_key (codes "bm9uY2U=") r ≡ ok tt)
    × ((check_response accept_key (codes "b3RoZXI=") r ≡ ok tt)
        ↔ (accept_key (codes "bm9uY2U=") ≡ accept_key (codes "b3RoZXI=")))
upgrade-dial_example =
    upgrade-dial accept_key (codes "v1" ∷ []) (codes "bm9uY2U=") (codes "b3RoZXI=") refl
