-- ===== src/Proxy/HttpProxy.antt =====
-- The HTTP proxies: handleHttpProxy and authenticateHTTPProxy of pkg/client/client.go, and
-- handleHttpProxyHandshake of pkg/server/manager.go. The request is what http.ReadRequest makes of the
-- connection's bytes.
pub mod Reading
pub mod Login
pub mod Pipelined
pub mod Tests
use warp_stream.Base.{
  ℕ, Bool, true, false, not, Option, none, some, List, [], ◌∷◌, ◌++◌, if◌then◌else◌, Text, codes,
  text_eq, cut, equal_fold, trim_space, parse_port, parse_uint16, Bytes,
}
use warp_stream.Base.Base64.{decode}
use warp_stream.Base.Monad.{Result, ok, err}
use warp_stream.Base.Net.{split_host_port}
use warp_stream.Protocol.{Credentials, LocalProtocol, no_protocol}
use warp_stream.Server.Restrictions.{is_empty}
use warp_stream.Proxy.Socks5.{constant_time_equal_bytes}

-- The fields that the code reads; `url_hostname` and `url_port` are those of the request's URL.
pub record Request : Type 0 where
  pub method : Text
  pub host : Text
  pub url_hostname : Text
  pub url_port : Text
  pub proxy_authorization : Text

-- A connection after ReadRequest: the request, the bytes that the buffered reader has taken from the
-- connection behind the request, and those that are still to come.
pub record Received : Type 0 where
  pub request : Option Request
  pub buffered : Bytes
  pub coming : Bytes

abbrev pub is_connect : Request → Bool
is_connect r = text_eq r.method (codes "CONNECT")

-- authenticateHTTPProxy.
unfoldable pub expected_login : Credentials → Text
expected_login c = c.username ++ b':' ∷ c.password

unfoldable pub check_payload : Credentials → Option Bytes → Bool
check_payload c none = false
check_payload c (some payload) = constant_time_equal_bytes payload (expected_login c)

unfoldable pub check_parts : Credentials → Option (Text × Text) → Bool
check_parts c none = false
check_parts c (some (scheme, parameter)) =
    if equal_fold scheme (codes "Basic")
    then check_payload c (decode (trim_space parameter))
    else false

unfoldable pub authenticate_http_proxy : Text → Option Credentials → Bool
authenticate_http_proxy header none = true
authenticate_http_proxy header (some c) =
    let trimmed = trim_space header in
    if is_empty trimmed then false else check_parts c (cut (codes " ") trimmed)

-- The answers, by their status.
pub data Event : Type 0 where
  answered write_failed : ℕ → Event
  connects : LocalProtocol → Text → ℕ → Event
  connect_failed : Event
  pipes : Bytes → Event
  closes : Event

-- Does the write of the answer succeed, and does connectToTransport?
pub record Answers : Type 0 where
  pub write_ok : Bool
  pub connect_ok : Bool

abbrev pub tcp_protocol : LocalProtocol
tcp_protocol = record no_protocol { tcp = some (record { proxy_protocol = false }) }

-- Behind the tests: the answer, the connection to the server, and the data of the raw connection.
unfoldable pub tunnel_to : Answers → Bytes → Option (Text × Text) → List Event
tunnel_to env coming none = []
tunnel_to env coming (some (host, port)) =
    if env.write_ok
    then answered 200
      ∷ connects tcp_protocol host (parse_port port)
      ∷ (if env.connect_ok then pipes coming ∷ [] else connect_failed ∷ [])
    else write_failed 200 ∷ []

unfoldable pub serve_request : Option Credentials → Answers → Bytes → Request → List Event
serve_request credentials env coming r =
    if not (is_connect r)
    then answered 405 ∷ []
    else if not (authenticate_http_proxy r.proxy_authorization credentials)
    then answered 407 ∷ []
    else tunnel_to env coming (split_host_port r.host)

unfoldable pub after_request : Option Credentials → Answers → Bytes → Option Request → List Event
after_request credentials env coming none = []
after_request credentials env coming (some r) = serve_request credentials env coming r

-- handleHttpProxy, with its deferred close. What the buffered reader holds is not used again.
unfoldable pub handle_http_proxy : Option Credentials → Answers → Received → List Event
handle_http_proxy credentials env c =
    after_request credentials env c.coming c.request ++ closes ∷ []

pub data ProxyError : Type 0 where
  unreadable unsupported_method invalid_port answer_failed : ProxyError

-- What handleHttpProxyHandshake returns: the host, the port, and the bytes that the connection will
-- still deliver; prefixConn puts the buffered ones in front.
pub record Accepted : Type 0 where
  pub target_host : Text
  pub target_port : ℕ
  pub delivers : Bytes

unfoldable pub accept_port : Bool → Received → Request → Option ℕ → Result ProxyError Accepted
accept_port write_ok c r none = err invalid_port
accept_port write_ok c r (some port) =
    if write_ok
    then ok (record {
      target_host = r.url_hostname;
      target_port = port;
      delivers = c.buffered ++ c.coming;
    })
    else err answer_failed

unfoldable pub accept_request : Bool → Received → Option Request → Result ProxyError Accepted
accept_request write_ok c none = err unreadable
accept_request write_ok c (some r) =
    if not (is_connect r)
    then err unsupported_method
    else accept_port write_ok c r
        (parse_uint16 (if is_empty r.url_port then codes "80" else r.url_port))

-- handleHttpProxyHandshake.
unfoldable pub handle_http_proxy_handshake : Bool → Received → Result ProxyError Accepted
handle_http_proxy_handshake write_ok c = accept_request write_ok c c.request
