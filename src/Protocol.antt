-- ===== src/Protocol.antt =====
-- pkg/protocol/types.go: what a tunnel request says. A Go pointer is an `Option`; a string is its
-- bytes; `*struct{}` is an option of the type with one value.
use warp_stream.Base.{ℕ, Option, none, Bool, Text, codes}

pub record Duration : Type 0 where
  pub secs : ℕ
  pub nanos : ℕ

pub record Credentials : Type 0 where
  pub username : Text
  pub password : Text

pub record TcpProtocol : Type 0 where
  pub proxy_protocol : Bool

pub record UdpProtocol : Type 0 where
  pub timeout : Option Duration

pub record StdioProtocol : Type 0 where
  pub proxy_protocol : Bool

pub record Socks5Protocol : Type 0 where
  pub timeout : Option Duration
  pub credentials : Option Credentials

pub record HttpProxyProtocol : Type 0 where
  pub timeout : Option Duration
  pub credentials : Option Credentials
  pub proxy_protocol : Bool

pub record ReverseUnixProtocol : Type 0 where
  pub path : Text

pub record UnixProtocol : Type 0 where
  pub path : Text
  pub proxy_protocol : Bool

-- TProxyUdpProtocol and ReverseUdpProtocol have the one field of UdpProtocol, and
-- ReverseSocks5Protocol and ReverseHttpProxyProtocol the two of Socks5Protocol.
pub record LocalProtocol : Type 0 where
  pub tcp : Option TcpProtocol
  pub udp : Option UdpProtocol
  pub stdio : Option StdioProtocol
  pub socks5 : Option Socks5Protocol
  pub tproxy_tcp : Option (Unit {0})
  pub tproxy_udp : Option UdpProtocol
  pub http_proxy : Option HttpProxyProtocol
  pub reverse_tcp : Option (Unit {0})
  pub reverse_udp : Option UdpProtocol
  pub reverse_socks5 : Option Socks5Protocol
  pub reverse_http_proxy : Option Socks5Protocol
  pub reverse_unix : Option ReverseUnixProtocol
  pub unix : Option UnixProtocol

-- The zero value: no protocol is set.
abbrev pub no_protocol : LocalProtocol
no_protocol = record {
  tcp = none;
  udp = none;
  stdio = none;
  socks5 = none;
  tproxy_tcp = none;
  tproxy_udp = none;
  http_proxy = none;
  reverse_tcp = none;
  reverse_udp = none;
  reverse_socks5 = none;
  reverse_http_proxy = none;
  reverse_unix = none;
  unix = none;
}

pub record JwtTunnelConfig : Type 0 where
  pub id : Text
  pub protocol : LocalProtocol
  pub remote : Text
  pub port : ℕ

pub record LocalToRemote : Type 0 where
  pub protocol : LocalProtocol
  pub local : Text
  pub remote : Text
  pub port : ℕ

abbrev pub jwt_header_prefix : Text
jwt_header_prefix = codes "authorization.bearer."
