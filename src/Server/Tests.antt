-- ===== src/Server/Tests.antt =====
-- Requests of a small deployment against a small policy.
use warp_stream.Base.{
  ◌≡◌, ◌≢◌, ◌↔◌, refl, true, false, Option, none, some, [], ◌∷◌, map, Exists, Bytes, Text, codes,
  text_eq, arith, if◌then◌else◌,
}
use warp_stream.Protocol.{no_protocol, JwtTunnelConfig, UnixProtocol}
use warp_stream.Server.Restrictions.{
  AllowTunnelConfig, RestrictionConfig, RestrictionsRules, is_reverse, validate, validate_one,
  matches, matches_one, allows, allows_one, tunnel_allows, protocol_allowed, port_allowed, in_range,
  host_allowed, tunnel_cidr_allowed, get_proto_name,
}
use warp_stream.Server.Restrictions.Policy.{OneOf}
use warp_stream.Server.Restrictions.Grants.{Admits, TunnelGrant, validate_iff}
use warp_stream.Server.Dispatch.{
  tcp, unix, forward, reverse, is_forward, route, target, target_address, Answers,
}
use warp_stream.Server.Dispatch.Access.{dial-granted}
use warp_stream.Server.Dispatch.Unjudged.{reverse_only, with_unix, mixed_claims, unix_path_unjudged}

-- A resolver of one address: 10.0.0.7.
abbrev parse_ip : Text → Option Bytes
parse_ip s = if text_eq s (codes "10.0.0.7") then some (10 ∷ 0 ∷ 0 ∷ 7 ∷ []) else none

abbrev to_database : JwtTunnelConfig
to_database = record {
  id = codes "t1";
  protocol = record no_protocol { tcp = some (record { proxy_protocol = false }) };
  remote = codes "10.0.0.7";
  port = 5432;
}

abbrev tunnel_rule : AllowTunnelConfig
tunnel_rule = record {
  protocol = codes "tcp" ∷ [];
  port = record { min_port = 5000; max_port = 6000 } ∷ [];
  host = none;
  cidr = [];
}

abbrev database_rule : RestrictionConfig
database_rule = record {
  name = codes "database";
  match =
      record { any = true; path_prefix = none; authorization = none; client_common_name = none }
      ∷ [];
  allow = record { tunnel = some tunnel_rule; reverse_tunnel = none } ∷ [];
}

abbrev policy : RestrictionsRules
policy = record { restrictions = database_rule ∷ [] }

database_allowed : validate parse_ip (some policy) to_database (codes "/v1") [] [] ≡ true
unfolding validate validate_one matches matches_one allows allows_one tunnel_allows protocol_allowed
    port_allowed in_range host_allowed tunnel_cidr_allowed get_proto_name is_reverse text_eq
    warp_stream.Base.equal_fold warp_stream.Base.to_lower
database_allowed = refl

route-to_database : route to_database ≡ forward tcp (target_address to_database)
unfolding route target is_forward
route-to_database = refl

validate_iff_example :
    (validate parse_ip (some policy) to_database (codes "/v1") [] [] ≡ true)
    ↔ OneOf (Admits parse_ip to_database (codes "/v1") [] []) (database_rule ∷ [])
validate_iff_example = validate_iff parse_ip policy to_database (codes "/v1") [] []

dial-granted_example :
    (target_address to_database ≡ target_address to_database)
    × OneOf
        (λ rc.
          Exists
            (λ a.
              (t : AllowTunnelConfig) × (a.tunnel ≡ some t) × TunnelGrant parse_ip t to_database)
            rc.allow)
        (database_rule ∷ [])
dial-granted_example =
    dial-granted parse_ip policy to_database (codes "/v1") [] [] tcp (target_address to_database)
      (omega arith) refl database_allowed route-to_database

-- The goroutines of the pipe take turns.
abbrev answers : Answers
answers = record { dial_ok = true; header_ok = true; schedule = true ∷ false ∷ true ∷ false ∷ [] }

-- A request that is both a forward and a reverse tunnel.
abbrev mixed : JwtTunnelConfig
mixed = record to_database {
  protocol = record no_protocol {
    tcp = some (record { proxy_protocol = false });
    reverse_tcp = some tt;
  };
}

mixed_claims_example :
    (validate parse_ip (some policy) mixed [] [] []
      ≡ validate parse_ip
          (some (record { restrictions = map reverse_only (database_rule ∷ []) }))
          mixed
          []
          []
          [])
    × (route mixed ≢ reverse)
unfolding is_forward is_reverse
mixed_claims_example = mixed_claims parse_ip (database_rule ∷ []) mixed [] [] [] refl refl

abbrev docker_socket : UnixProtocol
docker_socket = record { path = codes "/run/docker.sock"; proxy_protocol = false }

abbrev app_socket : UnixProtocol
app_socket = record { path = codes "/run/app.sock"; proxy_protocol = false }

unix_path_unjudged_example :
    (validate parse_ip (some policy) (with_unix to_database app_socket) [] [] []
      ≡ validate parse_ip (some policy) (with_unix to_database docker_socket) [] [] [])
    × (route (with_unix to_database docker_socket) ≡ forward unix (codes "/run/docker.sock"))
unix_path_unjudged_example =
    unix_path_unjudged parse_ip (some policy) to_database app_socket docker_socket [] [] []

abbrev reverse_socket : JwtTunnelConfig
reverse_socket = record to_database {
  protocol = record no_protocol { reverse_unix = some (record { path = codes "/run/app.sock" }) };
}
