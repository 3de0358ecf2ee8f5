-- ===== src/Tunnel/ProxyHeader.antt =====
-- pkg/tunnel/proxyproto.go: the HAProxy PROXY headers, as the bytes of the one call of Write.
-- net.ParseIP is the parameter `parse_ip`.
pub mod Bounds
pub mod Decode
use warp_stream.Base.{
  ℕ, ◌%◌, ◌^◌, Option, none, some, [], ◌∷◌, ◌++◌, Bytes, be16, Text, codes, parse_uint16,
}
use warp_stream.Base.Net.{to4, to16, ip_string, split_host_port, decimal}

-- A net.Addr: nil, a TCP or UDP address (whose IP may be nil; the pointer may be nil as well, which
-- the code treats alike), or another one, by its String.
pub data Addr : Type 0 where
  nil_addr : Addr
  tcp_addr udp_addr : Option Bytes → ℕ → Addr
  other_addr : Text → Addr

abbrev pub with_port : Option Bytes → ℕ → Option (Bytes × ℕ)
with_port none port = none
with_port (some ip) port = some (ip, port % 2 ^ 16)

abbrev pub both : Option Bytes → Option ℕ → Option (Bytes × ℕ)
both (some ip) (some port) = some (ip, port)
both _ _ = none

abbrev pub v2_signature : Bytes
v2_signature =
    0x0D ∷ 0x0A ∷ 0x0D ∷ 0x0A ∷ 0x00 ∷ 0x0D ∷ 0x0A ∷ 0x51 ∷ 0x55 ∷ 0x49 ∷ 0x54 ∷ 0x0A ∷ []

abbrev pub unknown_v1 : Text
unknown_v1 = codes "PROXY UNKNOWN" ++ 13 ∷ 10 ∷ []

-- `PROXY <family> <source> <destination> <source port> <destination port>`.
unfoldable pub line_v1 : Text → Bytes → Bytes → ℕ → ℕ → Text
line_v1 family src dst src_port dst_port =
    codes "PROXY "
    ++ (family
        ++ (b' ' ∷ ip_string src
            ++ (b' ' ∷ ip_string dst
                ++ (b' ' ∷ decimal src_port ++ (b' ' ∷ decimal dst_port ++ 13 ∷ 10 ∷ [])))))

unfoldable pub families_v1 : Bytes × ℕ → Bytes × ℕ → Option Bytes → Option Bytes → Text
families_v1 src dst (some src4) (some dst4) = line_v1 (codes "TCP4") src4 dst4 src.1 dst.1
families_v1 src dst none none = line_v1 (codes "TCP6") src.0 dst.0 src.1 dst.1
families_v1 src dst _ _ = unknown_v1

unfoldable pub parsed_v1 : Option (Bytes × ℕ) → Option (Bytes × ℕ) → Text
parsed_v1 (some src) (some dst) = families_v1 src dst (to4 src.0) (to4 dst.0)
parsed_v1 _ _ = unknown_v1

unfoldable pub unknown_v2 : Bytes
unknown_v2 = v2_signature ++ 0x20 ∷ 0x00 ∷ be16 0

-- The 28 or 52 bytes of a header with addresses.
unfoldable pub header_v2 : ℕ → ℕ → Bytes → Bytes → ℕ → ℕ → Bytes
header_v2 family n src dst src_port dst_port =
    v2_signature ++ 0x21 ∷ family ∷ (be16 n ++ (src ++ (dst ++ (be16 src_port ++ be16 dst_port))))

unfoldable pub ipv6_v2 : ℕ → ℕ → Option Bytes → Option Bytes → Bytes
ipv6_v2 src_port dst_port (some src6) (some dst6) = header_v2 0x21 36 src6 dst6 src_port dst_port
ipv6_v2 src_port dst_port _ _ = unknown_v2

unfoldable pub families_v2 : Bytes × ℕ → Bytes × ℕ → Option Bytes → Option Bytes → Bytes
families_v2 src dst (some src4) (some dst4) = header_v2 0x11 12 src4 dst4 src.1 dst.1
families_v2 src dst _ _ = ipv6_v2 src.1 dst.1 (to16 src.0) (to16 dst.0)

unfoldable pub parsed_v2 : Option (Bytes × ℕ) → Option (Bytes × ℕ) → Bytes
parsed_v2 (some src) (some dst) = families_v2 src dst (to4 src.0) (to4 dst.0)
parsed_v2 _ _ = unknown_v2

module _ (parse_ip : Text → Option Bytes) where
  unfoldable pub split_ip_port : Option (Text × Text) → Option (Bytes × ℕ)
  split_ip_port none = none
  split_ip_port (some (host, port)) = both (parse_ip host) (parse_uint16 port)

  -- parseIPPort.
  unfoldable pub parse_ip_port : Addr → Option (Bytes × ℕ)
  parse_ip_port nil_addr = none
  parse_ip_port (tcp_addr ip port) = with_port ip port
  parse_ip_port (udp_addr ip port) = with_port ip port
  parse_ip_port (other_addr s) = split_ip_port (split_host_port s)

  -- WriteProxyHeaderV1.
  unfoldable pub proxy_header_v1 : Addr → Addr → Text
  proxy_header_v1 src dst = parsed_v1 (parse_ip_port src) (parse_ip_port dst)

  -- WriteProxyHeaderV2.
  unfoldable pub proxy_header_v2 : Addr → Addr → Bytes
  proxy_header_v2 src dst = parsed_v2 (parse_ip_port src) (parse_ip_port dst)
