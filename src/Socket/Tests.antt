-- ===== src/Socket/Tests.antt =====
-- A destination behind a message of another kind.
use warp_stream.Base.{◌≡◌, [], ◌∷◌, ◌++◌, Bytes, arith}
use warp_stream.Socket.Cmsg.{destination, or_else, parse_orig_dst_addr}
use warp_stream.Socket.Cmsg.Search.{message, parse_orig_dst_addr-message}

abbrev port_53 : Bytes
port_53 = message 0 20 (2 ∷ 0 ∷ 0 ∷ 53 ∷ 10 ∷ 0 ∷ 0 ∷ 7 ∷ [])

parse_orig_dst_addr-message_example :
    parse_orig_dst_addr (message 1 2 (3 ∷ []) ++ port_53)
    ≡ or_else (destination 1 2 (3 ∷ [])) (parse_orig_dst_addr port_53)
unfolding warp_stream.Socket.Cmsg.aligned
parse_orig_dst_addr-message_example =
    parse_orig_dst_addr-message 1 2 (3 ∷ []) port_53 (omega arith) (omega arith) (omega arith)
