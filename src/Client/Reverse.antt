-- ===== src/Client/Reverse.antt =====
-- pkg/client/client.go: StartReverseTunnel. Each round of its endless loop is a function of what the
-- environment answers in it. Durations are nanoseconds, as the bit patterns of int64.
pub mod Backoff
use warp_stream.Base.{
  ℕ, ◌+◌, ◌*◌, ◌%◌, ◌^◌, Bool, ◌||◌, Option, none, some, is_some, List, [], ◌∷◌, ◌++◌, ◌==◌, ltb,
  if◌then◌else◌, Text,
}
use warp_stream.Base.Net.{join_host_port, decimal}
use warp_stream.Protocol.{
  LocalProtocol, LocalToRemote, JwtTunnelConfig, UnixProtocol, ReverseUnixProtocol,
}
use warp_stream.Server.Restrictions.{is_empty}
use warp_stream.Server.Dispatch.{second}

-- What happens in a round: does connectToTransport succeed; what readTargetFrame returns; the claims in
-- the Set-Cookie field of the response, if there is one and it can be read; does the dial succeed?
pub record Answers : Type 0 where
  pub connected : Bool
  pub target_frame : Option (Text × ℕ)
  pub cookie_claims : Option JwtTunnelConfig
  pub dial_ok : Bool

pub data Event : Type 0 where
  connect_failed : Event
  sleeps : ℕ → Event
  dials_unix dials_tcp : Text → Event
  pipes closes_stream : Event

unfoldable pub max_delay : ℕ → ℕ
max_delay configured = if configured == 0 then 10 * second else configured

-- `a > b` on int64.
unfoldable pub greater : ℕ → ℕ → Bool
greater a b = ltb ((b + 2 ^ 63) % 2 ^ 64) ((a + 2 ^ 63) % 2 ^ 64)

unfoldable pub next_delay : ℕ → ℕ → ℕ
next_delay limit delay =
    let doubled = delay * 2 % 2 ^ 64 in if greater doubled limit then limit else doubled

-- Where the tunnel leads to.
pub record Target : Type 0 where
  pub host : Text
  pub port : ℕ
  pub protocol : LocalProtocol

unfoldable pub is_dynamic : LocalProtocol → Bool
is_dynamic p = is_some p.reverse_socks5 || is_some p.reverse_http_proxy

abbrev pub own_target : LocalToRemote → Target
own_target ltr = record { host = ltr.remote; port = ltr.port; protocol = ltr.protocol }

unfoldable pub with_cookie : LocalToRemote → Option JwtTunnelConfig → Target
with_cookie ltr none = own_target ltr
with_cookie ltr (some claims) =
    if is_empty claims.remote
    then own_target ltr
    else record { host = claims.remote; port = claims.port; protocol = claims.protocol }

unfoldable pub with_frame : LocalToRemote → Option (Text × ℕ) → Option Target
with_frame ltr none = none
with_frame ltr (some (host, port)) =
    some (record { host = host; port = port; protocol = ltr.protocol })

unfoldable pub target_of : LocalToRemote → Answers → Option Target
target_of ltr a =
    if is_dynamic ltr.protocol
    then with_frame ltr a.target_frame
    else some (with_cookie ltr a.cookie_claims)

unfoldable pub dial_event : Option UnixProtocol → Option ReverseUnixProtocol → Target → Event
dial_event (some u) r t = dials_unix u.path
dial_event none (some r) t = dials_unix r.path
dial_event none none t = dials_tcp (join_host_port t.host (decimal t.port))

unfoldable pub dial : Target → Event
dial t = dial_event t.protocol.unix t.protocol.reverse_unix t

-- The rest of a round once the stream stands, with the delay one second.
unfoldable pub on_stream : Answers → Option Target → List Event
on_stream a none = closes_stream ∷ sleeps second ∷ []
on_stream a (some t) =
    dial t ∷ (if a.dial_ok then pipes ∷ closes_stream ∷ [] else closes_stream ∷ sleeps second ∷ [])

-- A round: what it does, and the delay that the next one starts with.
unfoldable pub reverse_round : ℕ → LocalToRemote → Answers → ℕ → List Event × ℕ
reverse_round limit ltr a delay =
    if a.connected
    then (on_stream a (target_of ltr a), second)
    else (connect_failed ∷ sleeps delay ∷ [], next_delay limit delay)

-- The rounds for as long as the environment answers.
unfoldable pub reverse_rounds : ℕ → LocalToRemote → List Answers → ℕ → List Event
reverse_rounds limit ltr [] delay = []
reverse_rounds limit ltr (a ∷ answers) delay =
    let (events, delay') = reverse_round limit ltr a delay in
    events ++ reverse_rounds limit ltr answers delay'

-- StartReverseTunnel.
unfoldable pub start_reverse_tunnel : ℕ → LocalToRemote → List Answers → List Event
start_reverse_tunnel configured ltr answers =
    reverse_rounds (max_delay configured) ltr answers second
