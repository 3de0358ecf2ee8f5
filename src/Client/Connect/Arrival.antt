-- ===== src/Client/Connect/Arrival.antt =====
-- pkg/client/client.go and pkg/server/server.go: how the request of a client looks to the server.
use warp_stream.Base.{
  ◌∙◌, ◌≡◌, refl, Bool, true, false, Option, [], ◌∷◌, ◌++◌, if◌then◌else◌, Text, codes, text_eq,
  has_prefix, trim_space, trim_right, skip_spaces, split_on, trim_byte, equal_fold, arith,
  Bool-cases, inl, inr, to_lower,
}
use warp_stream.Protocol.{JwtTunnelConfig, jwt_header_prefix}
use warp_stream.Server.Restrictions.{is_empty}
use warp_stream.Server.Startup
use warp_stream.Server.Startup.{is_ws}
use warp_stream.Server.Gateway.{
  Request, Reply, http2_tunnel, gorilla_upgrade, wst_upgrade, bearer, token_of, subprotocols,
  is_websocket, open_tunnel, path_refused,
}
use warp_stream.Client.Headers.{Fields, get, set, set_all, load_http_headers}
use warp_stream.Client.Headers.Laws.{Avoid, get-set_self, get-set_other, get-set_all}
use warp_stream.Client.Connect.{
  Config, Url, url_over, fields_over, events_path, warp_stream_url, http2_url, gorilla_url,
  protocol_field, cookie_field, authorization_field, custom_fields, websocket_fields, http2_fields,
  Transport, wst, gorilla, http2,
}
use warp_stream.Client.Connect.Token.{IsCompact, split_field, bearer_lem, trim-v1}

-- The custom fields do not touch this one.
abbrev pub Untouched : Config → Text → Type 0
Untouched config k = Avoid k config.headers × Avoid k (load_http_headers config.headers_file)

get-custom_fields :
    (config : Config) (k : Text) (h : Fields)
    → equal_fold authorization_field k ≡ false
    → Untouched config k
    → get k (custom_fields config h) ≡ get k h
unfolding custom_fields
get-custom_fields config k h e a =
    let all : get k (set_all (load_http_headers config.headers_file) (set_all config.headers h))
        ≡ get k h =
      get-set_all k (load_http_headers config.headers_file) (set_all config.headers h) a.1
      ∙ get-set_all k config.headers h a.0 in
    elim (Bool-cases (is_empty config.http_upgrade_credentials)) [
      | inl no_credentials ↦ rw no_credentials all
      | inr credentials ↦
          rw credentials
            (get-set_other authorization_field k config.http_upgrade_credentials _ e ∙ all)
    ]

get-protocol :
    (config : Config) (token : Text)
    → Untouched config protocol_field
    → get protocol_field (websocket_fields config token)
      ≡ codes "v1, " ++ (jwt_header_prefix ++ token)
unfolding websocket_fields equal_fold text_eq to_lower
get-protocol config token a =
    get-custom_fields config protocol_field _ refl a ∙ get-set_self protocol_field _ []

get-protocol_http2 :
    (config : Config) (token : Text)
    → Untouched config protocol_field
    → get protocol_field (http2_fields config token) ≡ []
unfolding http2_fields equal_fold text_eq to_lower get set warp_stream.Client.Headers.remove
get-protocol_http2 config token a = get-custom_fields config protocol_field _ refl a

get-cookie_http2 :
    (config : Config) (token : Text)
    → Untouched config cookie_field
    → get cookie_field (http2_fields config token) ≡ token
unfolding http2_fields equal_fold text_eq to_lower
get-cookie_http2 config token a =
    get-custom_fields config cookie_field _ refl a
    ∙ get-set_other (codes "Content-Type") cookie_field _ _ refl
    ∙ get-set_self cookie_field token []

-- What reaches the server: a WebSocket upgrade over HTTP/1.1, or a POST over HTTP/2.
abbrev pub upgrade_of : Transport → Text
upgrade_of wst = codes "websocket"
upgrade_of gorilla = codes "websocket"
upgrade_of http2 = []

abbrev pub is_http2 : Transport → Bool
is_http2 wst = false
is_http2 gorilla = false
is_http2 http2 = true

abbrev pub arrives : Option Text → Transport → Url → Fields → Request
arrives name t u h = record {
  path = u.path;
  sec_websocket_protocol = get protocol_field h;
  cookie = get cookie_field h;
  authorization = get authorization_field h;
  upgrade = upgrade_of t;
  peer_common_name = name;
  is_http2 = is_http2 t;
}

-- The tunnel that is opened: over HTTP/2, or by the server's WebSocket implementation, which answers
-- the subprotocol `v1`.
abbrev pub opened : Transport → Startup.Config → JwtTunnelConfig → Reply
opened http2 server claims = http2_tunnel claims
opened wst server claims =
    if is_ws server
    then gorilla_upgrade (codes "v1" ∷ []) claims
    else wst_upgrade (codes "v1" ∷ []) claims
opened gorilla server claims =
    if is_ws server
    then gorilla_upgrade (codes "v1" ∷ []) claims
    else wst_upgrade (codes "v1" ∷ []) claims

no_bearer : bearer (split_on b',' []) ≡ []
unfolding bearer split_on has_prefix trim_space trim_right skip_spaces
no_bearer = refl

pub token_of-arrives :
    (config : Config) (u : Url) (token : Text) (name : Option Text) (t : Transport)
    → IsCompact token
    → Untouched config protocol_field
    → Untouched config cookie_field
    → token_of (arrives name t (url_over config u t) (fields_over config token t)) ≡ token
unfolding token_of fields_over
token_of-arrives config u token name wst h a c =
    rw (get-protocol config token a, split_field token h.1, bearer_lem token h.1, h.0)
token_of-arrives config u token name gorilla h a c =
    rw (get-protocol config token a, split_field token h.1, bearer_lem token h.1, h.0)
token_of-arrives config u token name http2 h a c =
    rw (get-protocol_http2 config token a, no_bearer) (get-cookie_http2 config token c)

pub open_tunnel-arrives :
    (config : Config) (server : Startup.Config) (u : Url) (token : Text) (name : Option Text)
    (claims : JwtTunnelConfig) (t : Transport)
    → IsCompact token
    → Untouched config protocol_field
    → open_tunnel server (arrives name t (url_over config u t) (fields_over config token t)) claims
      ≡ opened t server claims
unfolding open_tunnel subprotocols fields_over is_websocket text_eq to_lower
open_tunnel-arrives config server u token name claims wst h a =
    rw (get-protocol config token a, split_field token h.1, trim-v1)
open_tunnel-arrives config server u token name claims gorilla h a =
    rw (get-protocol config token a, split_field token h.1, trim-v1)
open_tunnel-arrives config server u token name claims http2 h a = refl

has_prefix-append : (p s : Text) → has_prefix p (p ++ s) ≡ true
unfolding has_prefix
has_prefix-append [] s = refl
has_prefix-append (c ∷ p) s = ground (arith, has_prefix-append p s)

pub path-url_over :
    (config : Config) (u : Url) (t : Transport)
    → (url_over config u t).path ≡ events_path config.path_prefix
unfolding url_over warp_stream_url gorilla_url http2_url
path-url_over config u wst = refl
path-url_over config u gorilla = refl
path-url_over config u http2 = refl

pub path-not_refused :
    (prefix : Text) (server : Startup.Config) (r : Request)
    → server.path_prefix ≡ trim_byte b'/' prefix
    → r.path ≡ events_path prefix
    → path_refused server r ≡ false
unfolding path_refused events_path
path-not_refused prefix server r e p = elim (Bool-cases (is_empty (trim_byte b'/' prefix))) [
  | inl bare ↦ rw (e, bare)
  | inr named ↦
      rw (e, p, named) (rw (has_prefix-append (b'/' ∷ trim_byte b'/' prefix) (codes "/events")))
]
