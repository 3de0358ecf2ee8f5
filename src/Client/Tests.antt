-- ===== src/Client/Tests.antt =====
-- A tunnel argument.
use warp_stream.Base.{
  ℕ, ◌≡◌, refl, true, false, none, some, [], Option, Text, codes, text_eq, has_prefix, cut,
  parse_port,
}
use warp_stream.Base.Monad.{ok}
use warp_stream.Base.Net.{join_host_port, decimal}
use warp_stream.Protocol.{no_protocol, LocalToRemote}
use warp_stream.Server.Dispatch
use warp_stream.Server.Dispatch.{forward}
use warp_stream.Client.Tunnels.Written
use warp_stream.Client.Tunnels.Written.{Written, network, argument_text}
use warp_stream.Client.Tunnels.Routes.{IsRouted, route-argument_text}
use warp_stream.Client.Query.{parse_query, parse_parts, unescape, option_value, get_proxy_protocol}
use warp_stream.Client.Arguments.{
  parse_tunnel_arg, parse_split, parse_with, network_argument, ends_of, split_colons, protocol_of,
}
use warp_stream.Client.Arguments.Protocols.{IsDirected, parse_tunnel_arg-IsDirected}

abbrev parse_duration : Text → Option ℕ
parse_duration s = none

abbrev database_argument : Text
database_argument = codes "tcp://[::1]:5433:db:5432?proxy_protocol"

abbrev database_written : Written
database_written =
    network Written.tcp (some (codes "[::1]")) (codes "5433") (some (codes "db", codes "5432"))

abbrev database_query : Option Text
database_query = some (codes "proxy_protocol")

abbrev database_tunnel : LocalToRemote
database_tunnel = record {
  protocol = record no_protocol { tcp = some (record { proxy_protocol = true }) };
  local = codes "[::1]:5433";
  remote = codes "db";
  port = 5432;
}

database_parses : parse_tunnel_arg parse_duration database_argument false ≡ ok database_tunnel
unfolding parse_tunnel_arg parse_split cut has_prefix parse_with text_eq network_argument ends_of
    split_colons protocol_of get_proxy_protocol join_host_port warp_stream.Base.trim_brackets
    parse_port option_value warp_stream.Base.drop_last_brackets warp_stream.Base.parse_digits
    parse_query warp_stream.Base.skip_brackets parse_parts warp_stream.Base.is_bracket
    warp_stream.Base.split_on unescape
database_parses = refl

parse_tunnel_arg-IsDirected_example : IsDirected false database_tunnel.protocol
parse_tunnel_arg-IsDirected_example =
    parse_tunnel_arg-IsDirected parse_duration database_argument false database_tunnel
      database_parses

-- The server dials the database by TCP.
route-argument_text_example :
    IsRouted
      (parse_tunnel_arg parse_duration (argument_text database_written database_query) false)
      false
      (codes "t1")
      []
      0
      (forward Dispatch.tcp (join_host_port (codes "db") (decimal 5432)))
unfolding warp_stream.Base.trim_brackets warp_stream.Base.drop_last_brackets parse_port
    warp_stream.Base.parse_digits warp_stream.Base.skip_brackets warp_stream.Base.is_bracket
    join_host_port
route-argument_text_example =
    route-argument_text parse_duration database_written database_query false (codes "t1") [] 0
      (refl, (refl, (refl, (refl, tt)))) refl
