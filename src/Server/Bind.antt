-- ===== src/Server/Bind.antt =====
-- pkg/server/manager.go, the head of getOrCreateListener: where a reverse tunnel listens.
use warp_stream.Base.{Bool, true, false, Option, none, some, is_some, if◌then◌else◌, Text}
use warp_stream.Base.Net.{join_host_port, decimal}
use warp_stream.Protocol.{JwtTunnelConfig, ReverseUnixProtocol}
use warp_stream.Server.Restrictions.{is_empty}
use warp_stream.Server.Dispatch.{Network, tcp, udp, unix}

pub record BindTarget : Type 0 where
  pub bind_addr : Text
  pub is_unix : Bool
  pub network : Network

unfoldable pub bind_of : Option ReverseUnixProtocol → JwtTunnelConfig → BindTarget
bind_of (some u) claims = record {
  bind_addr = if is_empty claims.remote then u.path else claims.remote;
  is_unix = true;
  network = unix;
}
bind_of none claims = record {
  bind_addr = join_host_port claims.remote (decimal claims.port);
  is_unix = false;
  network = if is_some claims.protocol.reverse_udp then udp else tcp;
}

unfoldable pub bind_target : JwtTunnelConfig → BindTarget
bind_target claims = bind_of claims.protocol.reverse_unix claims
