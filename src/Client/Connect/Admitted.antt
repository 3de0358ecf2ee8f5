-- ===== src/Client/Connect/Admitted.antt =====
-- pkg/client/client.go and pkg/server/server.go: the server admits the request that the client makes.
use warp_stream.Base.{
  ℕ, ◌≡◌, refl, Bool, true, not, ◌&&◌, Option, none, some, [], Text, trim_byte, Bytes, Bool-cases,
  inl, inr,
}
use warp_stream.Base.Monad.{ok}
use warp_stream.Protocol.{LocalProtocol, JwtTunnelConfig}
use warp_stream.Server.Restrictions.{RestrictionsRules, is_empty, validate}
use warp_stream.Server.Startup
use warp_stream.Server.Startup.{is_ws}
use warp_stream.Server.Gateway.{
  Token, common_name, key_of, check_method, unverified, after_verification, parse_jwt_claims, judge,
  serve_http,
}
use warp_stream.Client.Headers.{Fields, get}
use warp_stream.Client.Connect.{
  Config, Url, url_over, fields_over, events_path, secret_of, claims_of, protocol_field,
  cookie_field, authorization_field, Transport, dials, transport_of, request_over, after_signing,
  generate_jwt, connect_to_transport,
}
use warp_stream.Client.Connect.Arrival.{
  Untouched, arrives, opened, token_of-arrives, open_tunnel-arrives, path-url_over,
  path-not_refused,
}
use warp_stream.Client.Connect.Token.{IsCompact}

abbrev pub signed : JwtTunnelConfig → Token
signed claims = record { is_hs256 = true; claims = claims }

-- What the JWT library does with a token that it made of these claims and this secret: the token has no
-- comma and no space, its claims are read back, and it is valid if the key function answers the secret.
pub record IsRead (parse_unverified : Text → Option Token)
    (parse_with_claims : Text → (Token → Option Text) → Option (Token × Bool)) (secret token : Text)
    (claims : JwtTunnelConfig) : Type 0 where
  pub compact : IsCompact token
  pub unverified : parse_unverified token ≡ some (signed claims)
  pub verified :
      (key : Token → Option Text)
      → key (signed claims) ≡ some secret
      → parse_with_claims token key ≡ some (signed claims, true)

module _ (parse_unverified : Text → Option Token)
    (parse_with_claims : Text → (Token → Option Text) → Option (Token × Bool)) where
  parse_jwt_claims-signed :
      (server : Startup.Config) (token : Text) (claims : JwtTunnelConfig)
      → IsRead parse_unverified parse_with_claims server.jwt_secret token claims
      → parse_jwt_claims parse_unverified parse_with_claims server token ≡ ok claims
  unfolding parse_jwt_claims unverified check_method after_verification key_of
  parse_jwt_claims-signed server token claims r =
      elim (Bool-cases (is_ws server && not (is_empty server.jwt_secret))) [
        | inl strict ↦ rw (strict, r.verified (key_of server) refl)
        | inr lax ↦ rw (lax, r.unverified)
      ]

-- A client and a server with one path prefix and one secret: whatever tunnel the client asks for, over
-- whichever transport its URL and its mode choose, it makes a request that the server opens a tunnel
-- for with just the claims of the client, if the rules accept these for the client's path and
-- authorization. The custom header fields name neither the subprotocols nor the cookie; the JWT library
-- makes a token, has no comma or space in it, and reads and verifies it.
pub connect_to_transport-serve_http :
    (parse_ip : Text → Option Bytes) (parse_unverified : Text → Option Token)
    (parse_with_claims : Text → (Token → Option Text) → Option (Token × Bool))
    (sign : Text → JwtTunnelConfig → Option Text) (config : Config) (server : Startup.Config)
    (rules : Option RestrictionsRules) (u : Url) (id : Text) (p : LocalProtocol) (host : Text)
    (port : ℕ) (name : Option Text) (token : Text)
    → server.path_prefix ≡ trim_byte b'/' config.path_prefix
    → server.jwt_secret ≡ secret_of config
    → Untouched config protocol_field
    → Untouched config cookie_field
    → sign (secret_of config) (claims_of id p host port) ≡ some token
    → IsRead parse_unverified parse_with_claims server.jwt_secret token (claims_of id p host port)
    → validate parse_ip rules
        (claims_of id p host port)
        (events_path config.path_prefix)
        (get authorization_field (fields_over config token (transport_of config u)))
        (elim name as (λ o. Text) [ none ↦ [] | some n ↦ n ])
      ≡ true
    → (t : Transport) × (v : Url) × (h : Fields) × (connect_to_transport sign config
          (some u)
          id
          p
          host
          port
        ≡ dials t v h)
      × (serve_http parse_ip parse_unverified parse_with_claims server rules (arrives name t v h)
          ≡ opened t server (claims_of id p host port))
unfolding connect_to_transport generate_jwt after_signing request_over serve_http judge common_name
connect_to_transport-serve_http parse_ip parse_unverified parse_with_claims sign config server rules
      u id p host port name token same_prefix same_secret a c made r accepted =
    let t = transport_of config u in
    let accepted_there : validate parse_ip rules (claims_of id p host port)
          (url_over config u t).path (get authorization_field (fields_over config token t))
          (elim name as (λ o. Text) [ none ↦ [] | some n ↦ n ])
        ≡ true =
      rw (path-url_over config u t) accepted in
    (
      t,
      url_over config u t,
      fields_over config token t,
      rw made,
      rw
          (
            path-not_refused config.path_prefix server
                (arrives name t (url_over config u t) (fields_over config token t)) same_prefix
                (path-url_over config u t),
            token_of-arrives config u token name t r.compact a c,
            r.compact.0,
            parse_jwt_claims-signed parse_unverified parse_with_claims server token
                (claims_of id p host port) r,
            judge,
            accepted_there,
          )
          (open_tunnel-arrives config server u token name (claims_of id p host port) t r.compact a),
    )
