-- ===== src/Server/Gateway.antt =====
-- pkg/server/server.go: parseJWTClaims and ServeHTTP, up to the call that opens the tunnel or upgrades
-- the connection.
pub mod Admission
pub mod Tests
use warp_stream.Server.Startup.{Config, is_ws}
use warp_stream.Base.{
  ℕ, Option, none, some, List, [], ◌∷◌, any_of, Bool, true, false, not, ◌&&◌, map, Text, codes,
  text_eq, to_lower, has_prefix, trim_prefix, trim_space, split_on, if◌then◌else◌, Bytes,
}
use warp_stream.Base.Monad.{Result, ok, err}
use warp_stream.Protocol.{JwtTunnelConfig, jwt_header_prefix}
use warp_stream.Server.Restrictions.{RestrictionsRules, is_empty, validate}

-- What the code reads of an http.Request; an absent header is the empty text.
pub record Request : Type 0 where
  pub path : Text
  pub sec_websocket_protocol : Text
  pub cookie : Text
  pub authorization : Text
  pub upgrade : Text
  pub peer_common_name : Option Text
  pub is_http2 : Bool

-- What the code reads of a parsed token.
pub record Token : Type 0 where
  pub is_hs256 : Bool
  pub claims : JwtTunnelConfig

pub data TokenError : Type 0 where
  malformed unexpected_method invalid : TokenError

-- The key function.
unfoldable pub key_of : Config → Token → Option Text
key_of config t = if t.is_hs256 then some config.jwt_secret else none

-- How ServeHTTP ends: an error status, a tunnel over HTTP/2, or an upgrade by one of the two
-- WebSocket implementations with the subprotocols that it may answer.
pub data Reply : Type 0 where
  status : ℕ → Reply
  http2_tunnel : JwtTunnelConfig → Reply
  gorilla_upgrade wst_upgrade : List Text → JwtTunnelConfig → Reply

unfoldable pub bearer : List Text → Text
bearer [] = []
bearer (p ∷ ps) =
    let part = trim_space p in
    let rest = bearer ps in
    if has_prefix jwt_header_prefix part then trim_prefix jwt_header_prefix part else rest

unfoldable pub token_of : Request → Text
token_of r =
    let token = bearer (split_on b',' r.sec_websocket_protocol) in
    if is_empty token then r.cookie else token

unfoldable pub common_name : Request → Text
common_name r = elim r.peer_common_name [ none ↦ [] | some name ↦ name ]

unfoldable pub subprotocols : Request → List Text
subprotocols r =
    if any_of (λ s. text_eq (trim_space s) (codes "v1")) (split_on b',' r.sec_websocket_protocol)
    then codes "v1" ∷ []
    else []

unfoldable pub is_websocket : Request → Bool
is_websocket r = text_eq (map to_lower r.upgrade) (codes "websocket")

unfoldable pub open_tunnel : Config → Request → JwtTunnelConfig → Reply
open_tunnel config r claims =
    if r.is_http2 && not (is_websocket r)
    then http2_tunnel claims
    else if is_ws config
    then gorilla_upgrade (subprotocols r) claims
    else wst_upgrade (subprotocols r) claims

unfoldable pub path_refused : Config → Request → Bool
path_refused config r =
    not (is_empty config.path_prefix) && not (has_prefix (b'/' ∷ config.path_prefix) r.path)

-- What parseUnverified does with the parser's answer.
unfoldable pub check_method : Option Token → Result TokenError JwtTunnelConfig
check_method none = err malformed
check_method (some t) = if t.is_hs256 then ok t.claims else err unexpected_method

-- Below, `parse_unverified` and `parse_with_claims` are ParseUnverified and ParseWithClaims of the JWT
-- library; the second calls the key function that it is given, and tells whether the token is valid.
module _ (parse_unverified : Text → Option Token)
    (parse_with_claims : Text → (Token → Option Text) → Option (Token × Bool)) where
  -- The closure parseUnverified.
  unfoldable pub unverified : Text → Result TokenError JwtTunnelConfig
  unverified token = check_method (parse_unverified token)

  unfoldable pub after_verification :
      Config → Text → Option (Token × Bool) → Result TokenError JwtTunnelConfig
  after_verification config token (some (t, true)) = ok t.claims
  after_verification config token (some (t, false)) =
      if config.insecure_no_jwt_validation then unverified token else err invalid
  after_verification config token none =
      if config.insecure_no_jwt_validation then unverified token else err malformed

  -- parseJWTClaims.
  unfoldable pub parse_jwt_claims : Config → Text → Result TokenError JwtTunnelConfig
  parse_jwt_claims config token =
      if is_ws config && not (is_empty config.jwt_secret)
      then after_verification config token (parse_with_claims token (key_of config))
      else unverified token

-- Below, `parse_ip` is net.ParseIP.
module _ (parse_ip : Text → Option Bytes) where
  unfoldable pub judge :
      Config → Option RestrictionsRules → Request → Result TokenError JwtTunnelConfig → Reply
  judge config rules r (err e) = status 401
  judge config rules r (ok claims) =
      if validate parse_ip rules claims r.path r.authorization (common_name r)
      then open_tunnel config r claims
      else status 403

module _ (parse_ip : Text → Option Bytes) (parse_unverified : Text → Option Token)
    (parse_with_claims : Text → (Token → Option Text) → Option (Token × Bool)) where
  -- ServeHTTP.
  unfoldable pub serve_http : Config → Option RestrictionsRules → Request → Reply
  serve_http config rules r =
      if path_refused config r
      then status 404
      else if is_empty (token_of r)
      then status 401
      else judge parse_ip config rules r
          (parse_jwt_claims parse_unverified parse_with_claims config (token_of r))
