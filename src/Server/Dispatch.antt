-- ===== src/Server/Dispatch.antt =====
-- pkg/server/server.go: what the server does with a request that it accepted.
-- A handler is modelled by the calls it makes, in their order and with its deferred calls at the end;
-- whether the dial and the header write succeed is given.
pub mod Holding
pub mod Routing
pub mod Access
pub mod Unjudged
use warp_stream.Base.{
  ℕ, ◌*◌, ◌%◌, ◌^◌, Option, none, some, is_some, List, [], ◌∷◌, ◌++◌, Bool, true, false, ◌&&◌, ◌||◌,
  Text, ltb, if◌then◌else◌,
}
use warp_stream.Base.Net.{join_host_port, decimal}
use warp_stream.Protocol.{LocalProtocol, JwtTunnelConfig, Duration, UnixProtocol}

pub data Network : Type 0 where
  tcp udp unix : Network

-- The condition of the forward branch, the same in all three handlers.
unfoldable pub is_forward : LocalProtocol → Bool
is_forward p =
    is_some p.tcp
    || (is_some p.udp || (is_some p.socks5 || (is_some p.http_proxy || is_some p.unix)))

-- The condition of the reverse branch.
unfoldable pub is_reverse_route : LocalProtocol → Bool
is_reverse_route p =
    is_some p.reverse_tcp
    || (is_some p.reverse_unix
        || (is_some p.reverse_socks5 || (is_some p.reverse_http_proxy || is_some p.reverse_udp)))

pub data Route : Type 0 where
  forward : Network → Text → Route
  reverse : Route
  unsupported : Route

-- The network and the address that the forward branch dials.
unfoldable pub target_address : JwtTunnelConfig → Text
target_address claims = join_host_port claims.remote (decimal claims.port)

unfoldable pub target : Option UnixProtocol → JwtTunnelConfig → Route
target (some u) claims = forward unix u.path
target none claims =
    forward (if is_some claims.protocol.udp then udp else tcp) (target_address claims)

unfoldable pub route : JwtTunnelConfig → Route
route claims =
    if is_forward claims.protocol
    then target claims.protocol.unix claims
    else if is_reverse_route claims.protocol
    then reverse
    else unsupported

-- time.Duration is an int64 of nanoseconds; this is its bit pattern.
abbrev pub second : ℕ
second = 1_000_000_000

abbrev pub thirty_seconds : ℕ
thirty_seconds = 30 * second

unfoldable pub seconds_duration : ℕ → ℕ
seconds_duration secs = secs * second % 2 ^ 64

unfoldable pub timeout_or_default : Option Duration → ℕ
timeout_or_default none = thirty_seconds
timeout_or_default (some d) = if ltb 0 d.secs then seconds_duration d.secs else thirty_seconds

-- udpTimeoutDuration.
unfoldable pub udp_timeout_duration : JwtTunnelConfig → ℕ
udp_timeout_duration claims = elim claims.protocol.udp [
  | none ↦ thirty_seconds
  | some u ↦ timeout_or_default u.timeout
]

abbrev pub flag_of {ℓ} : {A : Type ℓ} → Option A → (A → Bool) → Bool
flag_of none f = false
flag_of (some a) f = f a

-- shouldWriteProxyHeader.
unfoldable pub should_write_proxy_header : LocalProtocol → Bool
should_write_proxy_header p =
    flag_of p.tcp (λ x. x.proxy_protocol)
    || (flag_of p.http_proxy (λ x. x.proxy_protocol)
        || (flag_of p.stdio (λ x. x.proxy_protocol) || flag_of p.unix (λ x. x.proxy_protocol)))

-- What a handler does to the outside.
pub data Event : Type 0 where
  set_ping_handler : Event
  dial_failed dialed : Network → Text → Event
  wrap_idle_timeout : ℕ → Event
  header_written header_failed : Event
  copied_to_tunnel copied_to_target sent_close : Event
  closed_target closed_tunnel : Event
  handed_to_manager : Event

abbrev pub is_tcp : Network → Bool
is_tcp tcp = true
is_tcp udp = false
is_tcp unix = false

abbrev pub is_udp : Network → Bool
is_udp udp = true
is_udp tcp = false
is_udp unix = false

-- The environment's answers: does the dial succeed, and the write of the PROXY header? `schedule` tells
-- which of the two goroutines of a pipe goes on: the first at true, the second at false.
pub record Answers : Type 0 where
  pub dial_ok : Bool
  pub header_ok : Bool
  pub schedule : List Bool

-- Two goroutines together, each with its own events in order. One that has no more, and both when the
-- schedule ends, leave the rest to the other.
unfoldable pub interleave : List Bool → List Event → List Event → List Event
interleave [] xs ys = xs ++ ys
interleave (true ∷ turns) [] ys = ys
interleave (true ∷ turns) (x ∷ xs) ys = x ∷ interleave turns xs ys
interleave (false ∷ turns) xs [] = xs
interleave (false ∷ turns) xs (y ∷ ys) = y ∷ interleave turns xs ys

-- Pipe and PipeGorilla: a goroutine copies and then runs its deferred call, the close message to the
-- tunnel, or the close of the target.
abbrev pub pipe_to_tunnel : List Event
pipe_to_tunnel = copied_to_tunnel ∷ sent_close ∷ []

abbrev pub pipe_to_target : List Event
pipe_to_target = copied_to_target ∷ closed_target ∷ []

-- PipeBiDir with the target first: the deferred calls of each goroutine close the tunnel, then the
-- target.
abbrev pub copy_to_tunnel : List Event
copy_to_tunnel = copied_to_tunnel ∷ closed_tunnel ∷ closed_target ∷ []

abbrev pub copy_to_target : List Event
copy_to_target = copied_to_target ∷ closed_tunnel ∷ closed_target ∷ []

-- dialTargetAndMaybeProxyHeader: its calls, and whether it returns a connection.
unfoldable pub dial_target : Answers → JwtTunnelConfig → Network → Text → List Event × Bool
dial_target env claims network address =
    if env.dial_ok
    then (let start : List Event =
          dialed network address
          ∷ (if is_udp network then wrap_idle_timeout (udp_timeout_duration claims) ∷ [] else []) in
        if is_tcp network && should_write_proxy_header claims.protocol
        then (if env.header_ok
            then (start ++ header_written ∷ [], true)
            else (start ++ header_failed ∷ closed_target ∷ [], false))
        else (start, true))
    else (dial_failed network address ∷ [], false)

-- The forward branch of handleConnection and handleGorillaConnection, which pipe and then run the
-- deferred close of the target.
unfoldable pub after_dial : List Bool → List Event × Bool → List Event
after_dial turns (events, true) =
    events ++ (interleave turns pipe_to_tunnel pipe_to_target ++ closed_target ∷ [])
after_dial turns (events, false) = events

unfoldable pub run_route : Answers → JwtTunnelConfig → Route → List Event
run_route env claims (forward network address) =
    after_dial env.schedule (dial_target env claims network address)
run_route env claims reverse = handed_to_manager ∷ []
run_route env claims unsupported = []

-- handleConnection; handleGorillaConnection makes the same calls on the other kind of connection.
unfoldable pub handle_connection : Answers → JwtTunnelConfig → List Event
handle_connection env claims =
    set_ping_handler ∷ (run_route env claims (route claims) ++ closed_tunnel ∷ [])

-- The failure branch of handleHttp2Connection closes the tunnel itself. Its only deferred call is the
-- close of the target: PipeBiDir closes the tunnel, and the manager closes what it was handed.
unfoldable pub after_dial_http2 : List Bool → List Event × Bool → List Event
after_dial_http2 turns (events, true) =
    events ++ (interleave turns copy_to_tunnel copy_to_target ++ closed_target ∷ [])
after_dial_http2 turns (events, false) = events ++ closed_tunnel ∷ []

unfoldable pub run_route_http2 : Answers → JwtTunnelConfig → Route → List Event
run_route_http2 env claims (forward network address) =
    after_dial_http2 env.schedule (dial_target env claims network address)
run_route_http2 env claims reverse = handed_to_manager ∷ []
run_route_http2 env claims unsupported = closed_tunnel ∷ []

-- handleHttp2Connection.
unfoldable pub handle_http2_connection : Answers → JwtTunnelConfig → List Event
handle_http2_connection env claims = run_route_http2 env claims (route claims)
