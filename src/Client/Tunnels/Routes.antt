-- ===== src/Client/Tunnels/Routes.antt =====
-- pkg/client/config.go, pkg/client/client.go and pkg/server/server.go: what the server does for a tunnel
-- argument of the client.
use warp_stream.Base.{
  skip_brackets, is_bracket, drop_last_brackets, ℕ, ◌≡◌, refl, Bool, true, false, Option, none,
  some, ◌++◌, Text, codes, text_eq, if◌then◌else◌, trim_brackets, parse_port,
}
use warp_stream.Base.Monad.{Result, ok, err}
use warp_stream.Base.Net.{join_host_port, decimal}
use warp_stream.Protocol.{LocalToRemote}
use warp_stream.Server.Dispatch
use warp_stream.Server.Dispatch.{
  Route, forward, reverse, unsupported, route, is_forward, is_reverse_route, target, target_address,
}
use warp_stream.Client.Arguments.{
  Ends, ArgumentError, parse_tunnel_arg, parse_split, parse_with, network_argument, ends_of,
  protocol_of, unix_argument, stdio_argument,
}
use warp_stream.Client.Query.{Options}
use warp_stream.Client.Connect.{claims_of}
use warp_stream.Client.Tunnels.{
  Listener, stdio, udp, socks5, http_proxy, unix, tproxy_tcp, tproxy_udp, tcp, start_tunnel, Asked,
  ask_for_remote, ask_for_tcp, ask_for_udp,
}
use warp_stream.Client.Tunnels.Written
use warp_stream.Client.Tunnels.Written.{
  Scheme, scheme_text, Written, network, kind_text, info_text, query_text, argument_text, parts_of,
  lacks, WellWritten, cut-first, options_of, info_and_options-text, split_colons-parts,
  other_scheme, cut-scheme,
}

-- What a listener asks for, when the peer named `host` and `port`.
abbrev pub asked_by : Listener → LocalToRemote → Text → ℕ → Asked
asked_by stdio ltr host port = ask_for_remote ltr
asked_by udp ltr host port = ask_for_remote ltr
asked_by unix ltr host port = ask_for_remote ltr
asked_by tcp ltr host port = ask_for_remote ltr
asked_by socks5 ltr host port = ask_for_tcp host port
asked_by http_proxy ltr host port = ask_for_tcp host port
asked_by tproxy_tcp ltr host port = ask_for_tcp host port
asked_by tproxy_udp ltr host port = ask_for_udp ltr host port

-- For -R StartReverseTunnel asks with the argument as it is.
abbrev pub asked_for : Bool → LocalToRemote → Text → ℕ → Asked
asked_for true ltr host port = ask_for_remote ltr
asked_for false ltr host port = asked_by (start_tunnel ltr) ltr host port

-- Where the remote part of an argument leads.
abbrev pub remote_address : Option (Text × Text) → Text
remote_address none = join_host_port (codes "0.0.0.0") (decimal 0)
remote_address (some (host, port)) = join_host_port (trim_brackets host) (decimal (parse_port port))

-- What an argument of -L means, by its scheme; `peer` is the address that a proxy's client or a
-- redirected connection names.
abbrev pub meant_forward : Scheme → Text → Text → Route
meant_forward Written.tcp remote peer = forward Dispatch.tcp remote
meant_forward Written.udp remote peer = forward Dispatch.udp remote
meant_forward Written.socks5 remote peer = forward Dispatch.tcp peer
meant_forward Written.http remote peer = forward Dispatch.tcp peer
meant_forward Written.tproxy_tcp remote peer = forward Dispatch.tcp peer
meant_forward Written.tproxy_udp remote peer = forward Dispatch.udp peer

-- And one of -R.
abbrev pub meant_reverse : Scheme → Route
meant_reverse Written.tcp = reverse
meant_reverse Written.udp = reverse
meant_reverse Written.socks5 = reverse
meant_reverse Written.http = reverse
meant_reverse Written.tproxy_tcp = unsupported
meant_reverse Written.tproxy_udp = unsupported

abbrev pub meant : Written → Bool → Text → Route
meant (network s bind port remote) false peer = meant_forward s (remote_address remote) peer
meant (network s bind port remote) true peer = meant_reverse s
meant (Written.unix path remote_path) false peer = forward Dispatch.unix remote_path
meant (Written.unix path remote_path) true peer = reverse
meant (Written.stdio host port) is_reverse_arg peer = unsupported

-- An argument parses, and the server does with the client's request what `r` says.
abbrev pub IsRouted : Result ArgumentError LocalToRemote → Bool → Text → Text → ℕ → Route → Type 0
IsRouted (err e) is_reverse_arg id host port r = ⊥
IsRouted (ok ltr) is_reverse_arg id host port r =
    let a = asked_for is_reverse_arg ltr host port in
    route (claims_of id a.protocol a.remote_host a.remote_port) ≡ r

-- The parts of a network argument in their places.
ends_of-parts :
    (bind : Option Text) (port : Text) (remote : Option (Text × Text))
    → (e : Ends) × (ends_of (parts_of bind port remote) ≡ some e)
      × (join_host_port (trim_brackets e.remote_host) (decimal e.remote_port)
          ≡ remote_address remote)
unfolding ends_of trim_brackets skip_brackets is_bracket drop_last_brackets
ends_of-parts none port none = (_, refl, refl)
ends_of-parts none port (some (host, remote_port)) = (_, refl, refl)
ends_of-parts (some bind) port none = (_, refl, refl)
ends_of-parts (some bind) port (some (host, remote_port)) = (_, refl, refl)

module _ (parse_duration : Text → Option ℕ) where
  network-IsRouted :
      (s : Scheme) (is_reverse_arg : Bool) (options : Options) (e : Ends) (id host : Text)
      (peer_port : ℕ)
      → IsRouted
          (network_argument parse_duration (scheme_text s) is_reverse_arg options (some e))
          is_reverse_arg
          id
          host
          peer_port
          (if is_reverse_arg
            then meant_reverse s
            else meant_forward s
                (join_host_port (trim_brackets e.remote_host) (decimal e.remote_port))
                (join_host_port host (decimal peer_port)))
  unfolding network_argument protocol_of text_eq start_tunnel route is_forward is_reverse_route
      target target_address claims_of ask_for_remote ask_for_tcp ask_for_udp
  network-IsRouted Written.tcp true options e id host peer_port = refl
  network-IsRouted Written.udp true options e id host peer_port = refl
  network-IsRouted Written.socks5 true options e id host peer_port = refl
  network-IsRouted Written.http true options e id host peer_port = refl
  network-IsRouted Written.tproxy_tcp true options e id host peer_port = refl
  network-IsRouted Written.tproxy_udp true options e id host peer_port = refl
  network-IsRouted Written.tcp false options e id host peer_port = refl
  network-IsRouted Written.udp false options e id host peer_port = refl
  network-IsRouted Written.socks5 false options e id host peer_port = refl
  network-IsRouted Written.http false options e id host peer_port = refl
  network-IsRouted Written.tproxy_tcp false options e id host peer_port = refl
  network-IsRouted Written.tproxy_udp false options e id host peer_port = refl

  parts-IsRouted :
      (s : Scheme) (bind : Option Text) (port : Text) (remote : Option (Text × Text))
      (is_reverse_arg : Bool) (options : Options) (id host : Text) (peer_port : ℕ)
      → IsRouted
          (network_argument parse_duration
            (scheme_text s)
            is_reverse_arg
            options
            (ends_of (parts_of bind port remote)))
          is_reverse_arg
          id
          host
          peer_port
          (meant
            (network s bind port remote)
            is_reverse_arg
            (join_host_port host (decimal peer_port)))
  parts-IsRouted s bind port remote true options id host peer_port =
      let (e, ends, _) = ends_of-parts bind port remote in
      rw ends (network-IsRouted s true options e id host peer_port)
  parts-IsRouted s bind port remote false options id host peer_port =
      let (e, ends, address) = ends_of-parts bind port remote in
      rw (ends, ← address) (network-IsRouted s false options e id host peer_port)

  -- Behind the cutting.
  parsed-IsRouted :
      (w : Written) (is_reverse_arg : Bool) (options : Options) (id host : Text) (peer_port : ℕ)
      → WellWritten w
      → IsRouted
          (parse_with parse_duration (kind_text w) is_reverse_arg (info_text w, options))
          is_reverse_arg
          id
          host
          peer_port
          (meant w is_reverse_arg (join_host_port host (decimal peer_port)))
  unfolding parse_with text_eq unix_argument stdio_argument start_tunnel route is_forward
      is_reverse_route target target_address claims_of ask_for_remote
  parsed-IsRouted (network s bind port remote) is_reverse_arg options id host peer_port h =
      let (no_stdio, no_unix) = other_scheme s in
      rw (no_stdio, no_unix, split_colons-parts bind port remote h)
        (parts-IsRouted s bind port remote is_reverse_arg options id host peer_port)
  parsed-IsRouted (Written.unix path remote_path) true options id host peer_port h = refl
  parsed-IsRouted (Written.unix path remote_path) false options id host peer_port h =
      rw (cut-first b':' path remote_path h) refl
  parsed-IsRouted (Written.stdio host port) true options id peer peer_port h = rw h refl
  parsed-IsRouted (Written.stdio host port) false options id peer peer_port h = rw h refl

  -- Client and server together. A user writes a tunnel argument: a scheme with a bind host or none, a
  -- port, and a remote host and port or none; or unix:// and two paths, or stdio:// and a host and
  -- port; with options behind a question mark or none. The parts are so written that they can be told
  -- apart. Then the argument parses, and the server's handler treats the client's request as the text
  -- says. For -L it dials the remote host without its brackets and the remote port, by TCP for tcp and
  -- by UDP for udp; the address that the peer named, by TCP for socks5, http and tproxy+tcp and by UDP
  -- for tproxy+udp; and the second path for unix. For -R it listens. It serves neither stdio nor, for
  -- -R, tproxy+tcp and tproxy+udp.
  pub route-argument_text :
      (w : Written) (query : Option Text) (is_reverse_arg : Bool) (id host : Text) (peer_port : ℕ)
      → WellWritten w
      → lacks b'?' (info_text w) ≡ true
      → IsRouted
          (parse_tunnel_arg parse_duration (argument_text w query) is_reverse_arg)
          is_reverse_arg
          id
          host
          peer_port
          (meant w is_reverse_arg (join_host_port host (decimal peer_port)))
  unfolding parse_tunnel_arg parse_split
  route-argument_text w query is_reverse_arg id host peer_port h l =
      rw
        (
          cut-scheme w (info_text w ++ query_text query),
          info_and_options-text (info_text w) query l,
        )
        (parsed-IsRouted w is_reverse_arg (options_of query) id host peer_port h)
