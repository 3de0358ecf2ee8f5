-- ===== src/Client/Arguments.antt =====
-- pkg/client/config.go: ParseTunnelArg, on an argument in valid UTF-8. time.ParseDuration is the
-- parameter `parse_duration`; its answer is a number of nanoseconds, which is not negative for what a
-- user writes, and whose seconds a float64 holds exactly (below 2 ^ 23 of them).
pub mod Protocols
use warp_stream.Client.Query.{
  Options, key_and_value, parse_query, option_value, get_credentials, get_proxy_protocol,
}
use warp_stream.Base.{
  ℕ, ◌/◌, ◌%◌, ◌^◌, Bool, true, false, not, ◌&&◌, Option, none, some, List, [], ◌∷◌, ◌++◌, ◌==◌,
  if◌then◌else◌, Text, codes, text_eq, cut, trim_brackets, parse_port, parse_uint64,
}
use warp_stream.Base.Monad.{Result, ok, err}
use warp_stream.Base.Net.{split_host_port, join_host_port}
use warp_stream.Protocol.{Duration, LocalProtocol, no_protocol, LocalToRemote}
use warp_stream.Server.Restrictions.{is_empty}

pub data ArgumentError : Type 0 where
  missing_scheme invalid_stdio_target invalid_format : ArgumentError
  unsupported_protocol : Text → ArgumentError

-- The loop that splits at colons outside of brackets; `curr` is the part being read.
unfoldable pub split_colons : Bool → Text → Text → List Text
split_colons in_brackets curr [] = curr ∷ []
split_colons in_brackets curr (c ∷ s) =
    let inside = if c == b'[' then true else if c == b']' then false else in_brackets in
    elim (c == b':' && not inside) [
      | true ↦ curr ∷ split_colons inside [] s
      | false ↦ split_colons inside (curr ++ c ∷ []) s
    ]

-- Where a tunnel starts and ends.
pub record Ends : Type 0 where
  pub local_bind : Text
  pub local_port : Text
  pub remote_host : Text
  pub remote_port : ℕ

-- The switch on the number of parts.
unfoldable pub ends_of : List Text → Option Ends
ends_of (port ∷ []) = some (record {
  local_bind = codes "127.0.0.1";
  local_port = port;
  remote_host = codes "0.0.0.0";
  remote_port = 0;
})
ends_of (bind ∷ port ∷ []) = some (record {
  local_bind = bind;
  local_port = port;
  remote_host = codes "0.0.0.0";
  remote_port = 0;
})
ends_of (port ∷ host ∷ rp ∷ []) = some (record {
  local_bind = codes "127.0.0.1";
  local_port = port;
  remote_host = host;
  remote_port = parse_port rp;
})
ends_of (bind ∷ port ∷ host ∷ rp ∷ []) = some (record {
  local_bind = bind;
  local_port = port;
  remote_host = host;
  remote_port = parse_port rp;
})
ends_of _ = none

-- The `?` that starts the options.
abbrev pub info_and_options : Text → Option (Text × Text) → Text × Options
info_and_options s none = (s, [])
info_and_options s (some (info, query)) = (info, parse_query query)

-- `stdio://host:port`.
unfoldable pub stdio_argument : Options → Option (Text × Text) → Result ArgumentError LocalToRemote
stdio_argument options none = err invalid_stdio_target
stdio_argument options (some (host, port)) = ok (record {
  protocol = record no_protocol {
    stdio = some (record { proxy_protocol = get_proxy_protocol options });
  };
  local = [];
  remote = host;
  port = parse_port port;
})

-- `unix://local[:remote]`.
unfoldable pub unix_argument : Options → Bool → Text × Text → LocalToRemote
unix_argument options true (path, remote_path) = record {
  protocol = record no_protocol { reverse_unix = some (record { path = path }) };
  local = path;
  remote = remote_path;
  port = 0;
}
unix_argument options false (path, remote_path) = record {
  protocol = record no_protocol {
    unix = some (record { path = remote_path; proxy_protocol = get_proxy_protocol options });
  };
  local = path;
  remote = remote_path;
  port = 0;
}

module _ (parse_duration : Text → Option ℕ) where
  -- parseDurationSec: none stands for a nil pointer, with or without an error.
  unfoldable pub after_duration : Text → Option ℕ → Option Duration
  after_duration s (some ns) = some (record { secs = ns / 10 ^ 9; nanos = ns % 10 ^ 9 })
  after_duration s none = elim (parse_uint64 s) [
    | some n ↦ some (record { secs = n; nanos = 0 })
    | none ↦ none
  ]

  unfoldable pub parse_duration_sec : Text → Option Duration
  parse_duration_sec s =
      if is_empty s then none else after_duration s (parse_duration (s ++ b's' ∷ []))

  -- getTimeout.
  unfoldable pub get_timeout : Options → Option Duration
  get_timeout options = elim (option_value (codes "timeout_sec") options) [
    | some v ↦ parse_duration_sec v
    | none ↦ some (record { secs = 30; nanos = 0 })
  ]

  -- The switch on the scheme.
  unfoldable pub protocol_of : Text → Bool → Options → Option LocalProtocol
  protocol_of scheme reverse options =
      let timeout = get_timeout options in
      let credentials = get_credentials options in
      let proxy = get_proxy_protocol options in
      if text_eq scheme (codes "tcp")
      then some (
          if reverse
          then record no_protocol { reverse_tcp = some tt }
          else record no_protocol { tcp = some (record { proxy_protocol = proxy }) })
      else if text_eq scheme (codes "udp")
      then some (
          if reverse
          then record no_protocol { reverse_udp = some (record { timeout = timeout }) }
          else record no_protocol { udp = some (record { timeout = timeout }) })
      else if text_eq scheme (codes "socks5")
      then some (
          if reverse
          then record no_protocol {
            reverse_socks5 = some (record { timeout = timeout; credentials = credentials });
          }
          else record no_protocol {
            socks5 = some (record { timeout = timeout; credentials = credentials });
          })
      else if text_eq scheme (codes "http")
      then some (
          if reverse
          then record no_protocol {
            reverse_http_proxy = some (record { timeout = timeout; credentials = credentials });
          }
          else record no_protocol {
            http_proxy =
                some
                  (record { timeout = timeout; credentials = credentials; proxy_protocol = proxy });
          })
      else if text_eq scheme (codes "tproxy+tcp")
      then some (record no_protocol { tproxy_tcp = some tt })
      else if text_eq scheme (codes "tproxy+udp")
      then some (record no_protocol { tproxy_udp = some (record { timeout = timeout }) })
      else none

  abbrev pub with_protocol : Text → Ends → Option LocalProtocol → Result ArgumentError LocalToRemote
  with_protocol scheme e none = err (unsupported_protocol scheme)
  with_protocol scheme e (some p) = ok (record {
    protocol = p;
    local = join_host_port (trim_brackets e.local_bind) e.local_port;
    remote = trim_brackets e.remote_host;
    port = e.remote_port;
  })

  unfoldable pub network_argument :
      Text → Bool → Options → Option Ends → Result ArgumentError LocalToRemote
  network_argument scheme reverse options none = err invalid_format
  network_argument scheme reverse options (some e) =
      with_protocol scheme e (protocol_of scheme reverse options)

  unfoldable pub parse_with : Text → Bool → Text × Options → Result ArgumentError LocalToRemote
  parse_with scheme reverse (info, options) =
      if text_eq scheme (codes "stdio")
      then stdio_argument options (split_host_port info)
      else if text_eq scheme (codes "unix")
      then ok (unix_argument options reverse (key_and_value info (cut (b':' ∷ []) info)))
      else network_argument scheme reverse options (ends_of (split_colons false [] info))

  unfoldable pub parse_split : Bool → Option (Text × Text) → Result ArgumentError LocalToRemote
  parse_split reverse none = err missing_scheme
  parse_split reverse (some (scheme, rest)) =
      parse_with scheme reverse (info_and_options rest (cut (b'?' ∷ []) rest))

  -- ParseTunnelArg.
  unfoldable pub parse_tunnel_arg : Text → Bool → Result ArgumentError LocalToRemote
  parse_tunnel_arg arg reverse = parse_split reverse (cut (codes "://") arg)
