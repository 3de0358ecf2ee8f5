-- ===== src/Tunnel/Tests.antt =====
-- A PROXY header for an IPv4 address and an IPv6 one, and a connection that is used once.
use warp_stream.Base.{◌≡◌, none, some, [], ◌∷◌, ◌++◌, Option, Bytes, Text}
use warp_stream.Tunnel.ProxyHeader.{Addr, tcp_addr, parse_ip_port, proxy_header_v2}
use warp_stream.Tunnel.ProxyHeader.Decode.{decode_v2, described, decode_v2-proxy_header_v2}
use warp_stream.Tunnel.IdleTimer.{System, initial, moved, used_at, transfer, here, next}
use warp_stream.Tunnel.IdleTimer.Closing.{IdleInv, Reach-IdleInv}

abbrev parse_ip : Text → Option Bytes
parse_ip s = none

abbrev client_addr : Addr
client_addr = tcp_addr (some (10 ∷ 0 ∷ 0 ∷ 7 ∷ [])) 40000

abbrev target_addr : Addr
target_addr =
    tcp_addr (some (32 ∷ 1 ∷ 13 ∷ 184 ∷ 0 ∷ 0 ∷ 0 ∷ 0 ∷ 0 ∷ 0 ∷ 0 ∷ 0 ∷ 0 ∷ 0 ∷ 0 ∷ 1 ∷ [])) 5432

decode_v2-proxy_header_v2_example :
    decode_v2 (proxy_header_v2 parse_ip client_addr target_addr ++ 1 ∷ 2 ∷ []) ≡ (
      some (described (parse_ip_port parse_ip client_addr) (parse_ip_port parse_ip target_addr)),
      1 ∷ 2 ∷ [],
    )
decode_v2-proxy_header_v2_example =
    decode_v2-proxy_header_v2 parse_ip client_addr target_addr (1 ∷ 2 ∷ [])

abbrev idle_start : System
idle_start = initial 100 50

abbrev used_once : System
used_once = record idle_start {
  conn = moved 120 3 idle_start.conn;
  last_used = used_at 120 3 idle_start;
}

Reach-IdleInv_example : IdleInv used_once
Reach-IdleInv_example = Reach-IdleInv 100 50 {s = used_once} (next here (transfer 120 3))
