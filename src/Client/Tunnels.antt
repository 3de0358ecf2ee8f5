-- ===== src/Client/Tunnels.antt =====
-- pkg/client/client.go: StartTunnel and what each kind of listener asks the server for, by the calls
-- that the goroutine of one accepted connection makes.
pub mod Written
pub mod Routes
use warp_stream.Base.{
  ℕ, Bool, true, ◌||◌, Option, none, some, is_some, List, [], ◌∷◌, ◌++◌, ◌==◌, if◌then◌else◌, Text,
  codes, text_eq,
}
use warp_stream.Base.Monad.{Result, ok, err}
use warp_stream.Protocol.{
  LocalProtocol, no_protocol, LocalToRemote, Duration, UdpProtocol, Socks5Protocol, Credentials,
}
use warp_stream.Server.Restrictions.{is_empty}
use warp_stream.Proxy.Socks5.{Socket, SocksError, handle_socks5}
use warp_stream.Proxy.HttpProxy.{tcp_protocol}

pub data Listener : Type 0 where
  stdio udp socks5 http_proxy unix tproxy_tcp tproxy_udp tcp : Listener

-- StartTunnel.
unfoldable pub start_tunnel : LocalToRemote → Listener
start_tunnel ltr =
    let p = ltr.protocol in
    if is_some p.stdio
    then stdio
    else if is_some p.udp
    then udp
    else if is_some p.socks5
    then socks5
    else if is_some p.http_proxy
    then http_proxy
    else if is_some p.unix
    then unix
    else if is_some p.tproxy_tcp
    then tproxy_tcp
    else if is_some p.tproxy_udp
    then tproxy_udp
    else tcp

-- What is asked for: the arguments of connectToTransport.
pub record Asked : Type 0 where
  pub protocol : LocalProtocol
  pub remote_host : Text
  pub remote_port : ℕ

unfoldable pub ask_for_remote : LocalToRemote → Asked
ask_for_remote ltr = record {
  protocol = ltr.protocol;
  remote_host = ltr.remote;
  remote_port = ltr.port;
}

unfoldable pub ask_for_tcp : Text → ℕ → Asked
ask_for_tcp host port = record { protocol = tcp_protocol; remote_host = host; remote_port = port }

abbrev timeout_of : Option UdpProtocol → Option Duration
timeout_of none = none
timeout_of (some u) = u.timeout

unfoldable pub ask_for_udp : LocalToRemote → Text → ℕ → Asked
ask_for_udp ltr host port = record {
  protocol = record no_protocol {
    udp = some (record { timeout = timeout_of ltr.protocol.tproxy_udp });
  };
  remote_host = host;
  remote_port = port;
}

pub data Event : Type 0 where
  handshake_failed no_target : Event
  asks : Asked → Event
  connect_failed pipes : Event
  closes_local closes_stream : Event

-- connectToTransport and then startPipe, whose deferred call closes the stream.
unfoldable pub ask_and_pipe : Bool → Asked → List Event
ask_and_pipe connects a =
    asks a ∷ (if connects then pipes ∷ closes_stream ∷ [] else connect_failed ∷ [])

-- The goroutines of runTcpTunnel and runUnixTunnel.
unfoldable pub tcp_connection : LocalToRemote → Bool → List Event
tcp_connection ltr connects = ask_and_pipe connects (ask_for_remote ltr) ++ closes_local ∷ []

unfoldable pub unix_connection : LocalToRemote → Bool → List Event
unix_connection ltr connects = ask_and_pipe connects (ask_for_remote ltr) ++ closes_local ∷ []

-- The goroutine of runSocks5Tunnel.
unfoldable pub socks5_credentials : Option Socks5Protocol → Option Credentials
socks5_credentials none = none
socks5_credentials (some s) = s.credentials

unfoldable pub after_handshake : Bool → Result SocksError (Text × ℕ) × Socket → List Event
after_handshake connects (err e, c) = handshake_failed ∷ []
after_handshake connects (ok (host, port), c) = ask_and_pipe connects (ask_for_tcp host port)

unfoldable pub socks5_connection : LocalToRemote → Bool → Socket → List Event
socks5_connection ltr connects c =
    after_handshake connects (handle_socks5 (socks5_credentials ltr.protocol.socks5) c)
    ++ closes_local ∷ []

-- The goroutine of runTProxyTcpTunnel: the destination is the connection's local address if it has a
-- host and a port, else what the socket option says. Both are answers of the system.
unfoldable pub is_missing : Option (Text × ℕ) → Bool
is_missing none = true
is_missing (some (host, port)) = is_empty host || port == 0

unfoldable pub original_target : Option (Text × ℕ) → Option (Text × ℕ) → Option (Text × ℕ)
original_target local original = if is_missing local then original else local

unfoldable pub ask_for_target : Bool → Option (Text × ℕ) → List Event
ask_for_target connects none = no_target ∷ []
ask_for_target connects (some (host, port)) = ask_and_pipe connects (ask_for_tcp host port)

unfoldable pub tproxy_connection : Bool → Option (Text × ℕ) → Option (Text × ℕ) → List Event
tproxy_connection connects local original =
    ask_for_target connects (original_target local original) ++ closes_local ∷ []

-- The target of a datagram in runTProxyUdpTunnel: the control message's, else the configured remote,
-- else the socket's own; an error of the last leaves no host and port 0.
unfoldable pub or_nothing : Option (Text × ℕ) → Text × ℕ
or_nothing none = ([], 0)
or_nothing (some target) = target

unfoldable pub datagram_target : LocalToRemote → Option (Text × ℕ) → Option (Text × ℕ) → Text × ℕ
datagram_target ltr parsed original =
    if is_missing parsed
    then (if is_empty ltr.remote || (text_eq ltr.remote (codes "0.0.0.0") || ltr.port == 0)
        then or_nothing original
        else (ltr.remote, ltr.port))
    else or_nothing parsed
