-- ===== src/Client/Connect.antt =====
-- pkg/client/client.go: connectToTransport and the three functions that it chooses from, up to the
-- dialling. A URL is what url.Parse makes of it; `sign` is the JWT library's SignedString for HS256,
-- and the request's identifier is given.
pub mod Token
pub mod Arrival
pub mod Admitted
use warp_stream.Base.{
  ℕ, Bool, ◌||◌, Option, none, some, [], ◌∷◌, ◌++◌, if◌then◌else◌, Text, codes, text_eq, trim_byte,
}
use warp_stream.Protocol.{LocalProtocol, JwtTunnelConfig, jwt_header_prefix}
use warp_stream.Server.Restrictions.{is_empty}
use warp_stream.Client.Headers.{Fields, set, set_all, load_http_headers}

-- What the code reads of the configuration. `headers_file` is what the file of additional fields
-- holds, and none without one.
pub record Config : Type 0 where
  pub path_prefix : Text
  pub jwt_secret : Text
  pub headers : Fields
  pub headers_file : Option Text
  pub http_upgrade_credentials : Text
  pub websocket_protocol : Text

pub record Url : Type 0 where
  pub scheme : Text
  pub hostname : Text
  pub port : Text
  pub path : Text

unfoldable pub events_path : Text → Text
events_path prefix =
    let trimmed = trim_byte b'/' prefix in
    if is_empty trimmed then codes "/events" else b'/' ∷ (trimmed ++ codes "/events")

abbrev pub is_secure : Text → Bool
is_secure scheme = text_eq scheme (codes "wss") || text_eq scheme (codes "https")

unfoldable pub with_default_port : Url → Url
with_default_port u =
    if is_empty u.port
    then record u { port = if is_secure u.scheme then codes "443" else codes "80" }
    else u

-- The URLs that the three functions make of the server's.
unfoldable pub warp_stream_url : Config → Url → Url
warp_stream_url config u =
    let v = with_default_port u in
    record v {
      scheme = if is_secure v.scheme then codes "ws" else v.scheme;
      path = events_path config.path_prefix;
    }

unfoldable pub http2_url : Config → Url → Url
http2_url config u =
    let v = with_default_port u in
    record v {
      scheme =
          if text_eq v.scheme (codes "ws")
          then codes "http"
          else if text_eq v.scheme (codes "wss")
          then codes "https"
          else v.scheme;
      path = events_path config.path_prefix;
    }

unfoldable pub gorilla_url : Config → Url → Url
gorilla_url config u = record u {
  scheme =
      if text_eq u.scheme (codes "ws") || text_eq u.scheme (codes "http")
      then codes "ws"
      else if is_secure u.scheme
      then codes "wss"
      else u.scheme;
  path = events_path config.path_prefix;
}

abbrev pub legacy_jwt_secret : Text
legacy_jwt_secret = codes "champignonfrais"

unfoldable pub secret_of : Config → Text
secret_of config = if is_empty config.jwt_secret then legacy_jwt_secret else config.jwt_secret

unfoldable pub claims_of : Text → LocalProtocol → Text → ℕ → JwtTunnelConfig
claims_of request_id p remote_host remote_port = record {
  id = request_id;
  protocol = p;
  remote = remote_host;
  port = remote_port;
}

abbrev pub protocol_field : Text
protocol_field = codes "Sec-WebSocket-Protocol"

abbrev pub cookie_field : Text
cookie_field = codes "Cookie"

abbrev pub authorization_field : Text
authorization_field = codes "Authorization"

-- The custom fields, those of the file, and the credentials; each replaces what stands before it.
unfoldable pub custom_fields : Config → Fields → Fields
custom_fields config h =
    let all = set_all (load_http_headers config.headers_file) (set_all config.headers h) in
    if is_empty config.http_upgrade_credentials
    then all
    else set authorization_field config.http_upgrade_credentials all

unfoldable pub websocket_fields : Config → Text → Fields
websocket_fields config token =
    custom_fields config (set protocol_field (codes "v1, " ++ (jwt_header_prefix ++ token)) [])

unfoldable pub http2_fields : Config → Text → Fields
http2_fields config token =
    custom_fields config
      (set (codes "Content-Type") (codes "application/json") (set cookie_field token []))

pub data Transport : Type 0 where
  wst gorilla http2 : Transport

-- How connectToTransport goes on: it fails before it dials, or it dials and sends a request.
pub data Attempt : Type 0 where
  invalid_url signing_failed : Attempt
  dials : Transport → Url → Fields → Attempt

-- The choice.
unfoldable pub transport_of : Config → Url → Transport
transport_of config u =
    if text_eq u.scheme (codes "http") || text_eq u.scheme (codes "https")
    then http2
    else if text_eq config.websocket_protocol (codes "ws")
    then gorilla
    else wst

-- connectToWarpStream, connectToGorilla and connectToHttp2 behind the signing.
unfoldable pub url_over : Config → Url → Transport → Url
url_over config u wst = warp_stream_url config u
url_over config u gorilla = gorilla_url config u
url_over config u http2 = http2_url config u

unfoldable pub fields_over : Config → Text → Transport → Fields
fields_over config token wst = websocket_fields config token
fields_over config token gorilla = websocket_fields config token
fields_over config token http2 = http2_fields config token

unfoldable pub request_over : Config → Url → Text → Transport → Attempt
request_over config u token t = dials t (url_over config u t) (fields_over config token t)

unfoldable pub after_signing : Config → Url → Option Text → Attempt
after_signing config u none = signing_failed
after_signing config u (some token) = request_over config u token (transport_of config u)

module _ (sign : Text → JwtTunnelConfig → Option Text) where
  -- generateJWT.
  unfoldable pub generate_jwt : Config → JwtTunnelConfig → Option Text
  generate_jwt config claims = sign (secret_of config) claims

  -- connectToTransport.
  unfoldable pub connect_to_transport :
      Config → Option Url → Text → LocalProtocol → Text → ℕ → Attempt
  connect_to_transport config none request_id p remote_host remote_port = invalid_url
  connect_to_transport config (some u) request_id p remote_host remote_port =
      after_signing config u (generate_jwt config (claims_of request_id p remote_host remote_port))
