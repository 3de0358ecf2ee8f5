-- ===== src/Client/Sessions.antt =====
-- Small runs of the client: a request with a stand-in for the JWT library, an argument, and a reverse
-- tunnel whose server cannot be reached at first.
use warp_stream.Base.{
  ℕ, ◌≡◌, refl, true, false, Bool, Option, none, some, [], ◌∷◌, Bytes, Text, codes, text_eq,
  is_space, equal_fold, to_lower, trim_byte, replicate, All, arith,
}
use warp_stream.Protocol.{no_protocol, JwtTunnelConfig, LocalProtocol, LocalToRemote}
use warp_stream.Server.Restrictions.{validate}
use warp_stream.Server.Startup
use warp_stream.Server.Gateway.{Token, serve_http}
use warp_stream.Client.Headers.{Fields, load_http_headers}
use warp_stream.Client.Connect.{
  Config, Url, Transport, secret_of, claims_of, dials, connect_to_transport,
}
use warp_stream.Client.Connect.Arrival.{arrives, opened}
use warp_stream.Client.Connect.Admitted.{signed, IsRead, connect_to_transport-serve_http}
use warp_stream.Client.Reverse.{start_reverse_tunnel, max_delay}
use warp_stream.Client.Reverse.Backoff.{IsBounded, unreachable, waits, start_reverse_tunnel_backoff}

abbrev config : Config
config = record {
  path_prefix = codes "/v1/";
  jwt_secret = codes "key";
  headers = (codes "User-Agent", codes "ws") ∷ [];
  headers_file = none;
  http_upgrade_credentials = [];
  websocket_protocol = codes "rust";
}

abbrev server : Startup.Config
server = record {
  path_prefix = codes "v1";
  jwt_secret = codes "key";
  insecure_no_jwt_validation = false;
  restrict_to = [];
  restrict_http_upgrade_path_prefix = [];
  restrict_config = [];
  websocket_protocol = codes "rust";
}

abbrev url : Url
url = record { scheme = codes "wss"; hostname = codes "example.org"; port = []; path = [] }

abbrev tcp : LocalProtocol
tcp = record no_protocol { tcp = some (record { proxy_protocol = false }) }

abbrev claims : JwtTunnelConfig
claims = record { id = codes "t1"; protocol = tcp; remote = codes "db"; port = 5432 }

-- A library that knows one token, which "key" has signed.
abbrev sign : Text → JwtTunnelConfig → Option Text
sign secret c = some (codes "a.b.c")

abbrev parse_unverified : Text → Option Token
parse_unverified s = some (signed claims)

abbrev check_key : Option Text → Option (Token × Bool)
check_key none = none
check_key (some key) = some (signed claims, text_eq key (codes "key"))

abbrev parse_with_claims : Text → (Token → Option Text) → Option (Token × Bool)
parse_with_claims s key = check_key (key (signed claims))

abbrev parse_ip : Text → Option Bytes
parse_ip s = none

token-IsRead : IsRead parse_unverified parse_with_claims (codes "key") (codes "a.b.c") claims
unfolding is_space text_eq
token-IsRead = record { compact = (refl, (search)); unverified = refl; verified = λ key e. rw e }

connect_to_transport-serve_http_example :
    (t : Transport) × (v : Url) × (h : Fields) × (connect_to_transport sign config
        (some url)
        (codes "t1")
        tcp
        (codes "db")
        5432
      ≡ dials t v h)
    × (serve_http parse_ip parse_unverified parse_with_claims server none (arrives none t v h)
        ≡ opened t server (claims_of (codes "t1") tcp (codes "db") 5432))
unfolding trim_byte warp_stream.Base.skip_byte warp_stream.Base.drop_last_byte secret_of equal_fold
    text_eq to_lower load_http_headers validate claims_of
connect_to_transport-serve_http_example =
    connect_to_transport-serve_http parse_ip parse_unverified parse_with_claims sign config server
      none url (codes "t1") tcp (codes "db") 5432 none (codes "a.b.c") refl refl ((refl, tt), tt)
      ((refl, tt), tt) refl token-IsRead refl

abbrev shell : LocalToRemote
shell = record {
  protocol = record no_protocol { reverse_tcp = some tt };
  local = [];
  remote = codes "localhost";
  port = 22;
}

start_reverse_tunnel_backoff_example :
    All (IsBounded (max_delay 0)) (start_reverse_tunnel 0 shell (unreachable ∷ unreachable ∷ []))
    × (start_reverse_tunnel 0 shell (replicate 5 unreachable) ≡ waits (max_delay 0) 0 5)
unfolding max_delay
start_reverse_tunnel_backoff_example =
    start_reverse_tunnel_backoff 0 5 shell (unreachable ∷ unreachable ∷ []) (omega arith)
      (omega arith)
