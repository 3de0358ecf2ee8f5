-- ===== src/Server/Gateway/Tests.antt =====
-- Requests at the gateway and a default policy, with a small JWT library that knows one token.
use warp_stream.Base.{
  ◌≡◌, ◌↔◌, refl, true, false, Bool, Option, none, some, [], ◌∷◌, Exists, Bytes, Text, codes,
  text_eq, has_prefix, trim_prefix, trim_space, trim_right, skip_spaces, is_space, split_on,
  if◌then◌else◌, ap, ◌∙◌, to_lower,
}
use warp_stream.Base.Monad.{ok}
use warp_stream.Protocol.{no_protocol, JwtTunnelConfig}
use warp_stream.Server.Restrictions.{Regexp, RestrictionsRules, is_reverse, validate}
use warp_stream.Server.Startup.{Config, new_server_rules, loaded_rules}
use warp_stream.Server.Gateway.{
  Request, Token, parse_jwt_claims, after_verification, key_of, token_of, bearer, common_name,
  path_refused, judge, open_tunnel, is_websocket, serve_http,
}
use warp_stream.Server.Gateway.Admission.{Opens, serve_http-admitted, serve_http-IsSigned}
use warp_stream.Server.Startup.DefaultRules.{Names, new_server_rules-restrict_to}

abbrev claims_of_token : JwtTunnelConfig
claims_of_token = record {
  id = codes "t1";
  protocol = record no_protocol { tcp = some (record { proxy_protocol = false }) };
  remote = codes "db";
  port = 5432;
}

abbrev the_token : Token
the_token = record { is_hs256 = true; claims = claims_of_token }

-- A library in which every text parses to the one token, and "signed" alone is signed, with "key".
abbrev parse_unverified : Text → Option Token
parse_unverified s = some the_token

abbrev check_key : Text → Option Text → Option (Token × Bool)
check_key s none = none
check_key s (some key) =
    if text_eq s (codes "signed") then some (the_token, text_eq key (codes "key")) else none

abbrev parse_with_claims : Text → (Token → Option Text) → Option (Token × Bool)
parse_with_claims s key_function = check_key s (key_function the_token)

abbrev IsSigned : Text → Text → Token → Type 0
IsSigned key s t =
    (t ≡ the_token) × (text_eq s (codes "signed") ≡ true) × (text_eq key (codes "key") ≡ true)

IsSigned-answer :
    (s key : Text) (b : Bool) (t : Token)
    → text_eq s (codes "signed") ≡ b
    → Path
        (Option (Token × Bool))
        (if b then some (the_token, text_eq key (codes "key")) else none)
        (some (t, true))
    → IsSigned key s t
IsSigned-answer s key true t e h = (cc, e, cc)
IsSigned-answer s key false t e h = cc

check_key-IsSigned :
    (s : Text) (o : Option Text) (t : Token)
    → check_key s o ≡ some (t, true)
    → (key : Text) × (o ≡ some key) × IsSigned key s t
check_key-IsSigned s none t h = cc
check_key-IsSigned s (some key) t h = (key, refl, IsSigned-answer s key _ t refl h)

valid-IsSigned :
    (s : Text) (key_function : Token → Option Text) (t : Token)
    → parse_with_claims s key_function ≡ some (t, true)
    → (key : Text) × (key_function t ≡ some key) × IsSigned key s t
valid-IsSigned s key_function t h =
    let (key, e, signed) = check_key-IsSigned s (key_function the_token) t h in
    (key, ap key_function signed.0 ∙ e, signed)

abbrev strict_config : Config
strict_config = record {
  path_prefix = codes "v1";
  jwt_secret = codes "key";
  insecure_no_jwt_validation = false;
  restrict_to = codes "db:5432" ∷ [];
  restrict_http_upgrade_path_prefix = [];
  restrict_config = [];
  websocket_protocol = codes "ws";
}

abbrev upgrade_request : Request
upgrade_request = record {
  path = codes "/v1/events";
  sec_websocket_protocol = codes "v1, authorization.bearer.signed";
  cookie = [];
  authorization = [];
  upgrade = codes "websocket";
  peer_common_name = none;
  is_http2 = false;
}

abbrev parse_ip : Text → Option Bytes
parse_ip s = none

opened :
    Opens
      (serve_http parse_ip parse_unverified parse_with_claims strict_config none upgrade_request)
      claims_of_token
unfolding serve_http path_refused token_of bearer parse_jwt_claims after_verification judge
    open_tunnel is_websocket key_of validate has_prefix trim_prefix trim_space trim_right
    skip_spaces is_space split_on text_eq to_lower
opened = refl

serve_http-admitted_example :
    (path_refused strict_config upgrade_request ≡ false)
    × (parse_jwt_claims parse_unverified parse_with_claims strict_config (token_of upgrade_request)
        ≡ ok claims_of_token)
    × (validate parse_ip none claims_of_token (codes "/v1/events") [] (common_name upgrade_request)
        ≡ true)
serve_http-admitted_example =
    serve_http-admitted parse_ip parse_unverified parse_with_claims strict_config none
      upgrade_request claims_of_token opened

trusted :
    parse_jwt_claims parse_unverified parse_with_claims strict_config (codes "signed")
    ≡ ok claims_of_token
unfolding parse_jwt_claims after_verification key_of text_eq
trusted = refl

serve_http-IsSigned_example :
    (t : Token) × (t.is_hs256 ≡ true)
    × (t.claims ≡ claims_of_token)
    × IsSigned (codes "key") (token_of upgrade_request) t
    × (validate parse_ip none claims_of_token (codes "/v1/events") [] (common_name upgrade_request)
        ≡ true)
unfolding text_eq
serve_http-IsSigned_example =
    serve_http-IsSigned parse_unverified parse_with_claims IsSigned valid-IsSigned parse_ip
      strict_config none upgrade_request claims_of_token refl opened

abbrev compile : Text → Option Regexp
compile p = none

abbrev load_restrictions : Text → Option RestrictionsRules
load_restrictions path = none

new_server_rules-restrict_to_example :
    (validate parse_ip
        (new_server_rules compile load_restrictions strict_config)
        claims_of_token
        []
        []
        []
      ≡ true)
    ↔ ((is_reverse (claims_of_token.protocol) ≡ false)
        × Exists (Names claims_of_token) (codes "db:5432" ∷ []))
unfolding loaded_rules
new_server_rules-restrict_to_example =
    new_server_rules-restrict_to parse_ip compile load_restrictions strict_config claims_of_token []
      [] [] refl refl refl
