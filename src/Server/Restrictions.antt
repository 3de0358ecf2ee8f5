-- ===== src/Server/Restrictions.antt =====
-- pkg/server/restrictions.go: the policy and its evaluation. A compiled regular expression is used
-- through MatchString alone, so it is the predicate that it decides. net.ParseIP is the parameter
-- `parse_ip`; its result is a list of 4 or 16 bytes.
pub mod Policy
pub mod Fits
pub mod Grants
use warp_stream.Base.{
  ℕ, Option, none, some, is_some, List, [], ◌∷◌, any_of, Bool, true, false, not, ◌&&◌, ◌||◌, Text,
  Bytes, codes, equal_fold, leb, if◌then◌else◌,
}
use warp_stream.Base.Net.{NetCidr, contains}
use warp_stream.Protocol.{LocalProtocol, JwtTunnelConfig, ReverseUnixProtocol}

abbrev pub Regexp : Type 0
Regexp = Text → Bool

pub record MatchConfig : Type 0 where
  pub any : Bool
  pub path_prefix : Option Regexp
  pub authorization : Option Regexp
  pub client_common_name : Option Regexp

pub record PortRange : Type 0 where
  pub min_port : ℕ
  pub max_port : ℕ

pub record AllowTunnelConfig : Type 0 where
  pub protocol : List Text
  pub port : List PortRange
  pub host : Option Regexp
  pub cidr : List NetCidr

-- `port_mapping` is read from the file and used by nothing.
pub record AllowReverseTunnelConfig : Type 0 where
  pub protocol : List Text
  pub port : List PortRange
  pub port_mapping : List (ℕ × ℕ)
  pub cidr : List NetCidr
  pub unix_path : Option Regexp

pub record AllowConfig : Type 0 where
  pub tunnel : Option AllowTunnelConfig
  pub reverse_tunnel : Option AllowReverseTunnelConfig

pub record RestrictionConfig : Type 0 where
  pub name : Text
  pub match : List MatchConfig
  pub allow : List AllowConfig

pub record RestrictionsRules : Type 0 where
  pub restrictions : List RestrictionConfig

-- getProtoName: the name of the first protocol that is set, in the code's order.
unfoldable pub get_proto_name : LocalProtocol → Text
get_proto_name p =
    if is_some p.tcp
    then codes "Tcp"
    else if is_some p.udp
    then codes "Udp"
    else if is_some p.socks5
    then codes "Socks5"
    else if is_some p.http_proxy
    then codes "Http"
    else if is_some p.unix
    then codes "Unix"
    else if is_some p.reverse_tcp
    then codes "ReverseTcp"
    else if is_some p.reverse_udp
    then codes "ReverseUdp"
    else if is_some p.reverse_socks5
    then codes "ReverseSocks5"
    else if is_some p.reverse_http_proxy
    then codes "ReverseHttp"
    else if is_some p.reverse_unix
    then codes "ReverseUnix"
    else codes "Unknown"

-- `p != nil && f(p)`.
abbrev pub if_set : {A : Type 0} → Option A → (A → Bool) → Bool
if_set none f = false
if_set (some a) f = f a

-- `p != nil && p.MatchString(s)`.
abbrev pub set_and_matches : Option Regexp → Text → Bool
set_and_matches o s = if_set o (λ r. r s)

-- One round of the loop in RestrictionConfig.Matches.
unfoldable pub matches_one : Text → Text → Text → MatchConfig → Bool
matches_one path auth common_name m =
    m.any
    || (set_and_matches m.path_prefix path
        || (set_and_matches m.authorization auth
            || set_and_matches m.client_common_name common_name))

unfoldable pub matches : RestrictionConfig → Text → Text → Text → Bool
matches rc path auth common_name = any_of (matches_one path auth common_name) rc.match

-- `isReverse` of RestrictionConfig.Allows.
unfoldable pub is_reverse : LocalProtocol → Bool
is_reverse p =
    is_some p.reverse_tcp
    || (is_some p.reverse_udp
        || (is_some p.reverse_socks5 || (is_some p.reverse_http_proxy || is_some p.reverse_unix)))

abbrev pub is_empty {ℓ} : {A : Type ℓ} → List A → Bool
is_empty [] = true
is_empty (x ∷ xs) = false

-- The loops of Allows, each under `len(...) > 0`: an empty list restricts nothing.
unfoldable pub protocol_allowed : List Text → LocalProtocol → Bool
protocol_allowed names p =
    is_empty names || any_of (λ name. equal_fold name (get_proto_name p)) names

unfoldable pub in_range : ℕ → PortRange → Bool
in_range port r = leb r.min_port port && leb port r.max_port

unfoldable pub port_allowed : List PortRange → ℕ → Bool
port_allowed ranges port = is_empty ranges || any_of (in_range port) ranges

unfoldable pub host_allowed : Option Regexp → Text → Bool
host_allowed none remote = true
host_allowed (some r) remote = r remote

-- `if ip != nil { ... } else { ... }`.
abbrev pub on_ip : Option Bytes → (Bytes → Bool) → Bool → Bool
on_ip (some ip) f d = f ip
on_ip none f d = d

-- Below, `parse_ip` is net.ParseIP.
module _ (parse_ip : Text → Option Bytes) where
  -- The CIDR block of AllowTunnelConfig.Allows: what is no IP address passes only if there is a host
  -- pattern, which it has matched by then.
  unfoldable pub tunnel_cidr_allowed : AllowTunnelConfig → Text → Bool
  tunnel_cidr_allowed a remote =
      is_empty a.cidr
      || on_ip (parse_ip remote) (λ ip. any_of (λ n. contains n ip) a.cidr) (is_some a.host)

  -- The CIDR block of AllowReverseTunnelConfig.Allows: what is no IP address passes.
  unfoldable pub reverse_cidr_allowed : List NetCidr → Text → Bool
  reverse_cidr_allowed nets remote =
      is_empty nets || on_ip (parse_ip remote) (λ ip. any_of (λ n. contains n ip) nets) true

  -- AllowTunnelConfig.Allows: four tests, each of which returns false when it fails.
  unfoldable pub tunnel_allows : AllowTunnelConfig → JwtTunnelConfig → Bool
  tunnel_allows a claims =
      if not (protocol_allowed a.protocol claims.protocol)
      then false
      else if not (port_allowed a.port claims.port)
      then false
      else if not (host_allowed a.host claims.remote)
      then false
      else tunnel_cidr_allowed a claims.remote

  -- What follows the unix case in AllowReverseTunnelConfig.Allows.
  unfoldable pub reverse_port_and_cidr : AllowReverseTunnelConfig → JwtTunnelConfig → Bool
  reverse_port_and_cidr a claims =
      if not (port_allowed a.port claims.port)
      then false
      else reverse_cidr_allowed a.cidr claims.remote

  -- The unix case in AllowReverseTunnelConfig.Allows, and what follows it.
  unfoldable pub reverse_target :
      Option ReverseUnixProtocol → AllowReverseTunnelConfig → JwtTunnelConfig → Bool
  reverse_target (some u) a claims = host_allowed a.unix_path u.path
  reverse_target none a claims = reverse_port_and_cidr a claims

  -- AllowReverseTunnelConfig.Allows; a unix tunnel is decided by its path.
  unfoldable pub reverse_allows : AllowReverseTunnelConfig → JwtTunnelConfig → Bool
  reverse_allows a claims =
      if not (protocol_allowed a.protocol claims.protocol)
      then false
      else reverse_target claims.protocol.reverse_unix a claims

  -- One round of the loop in RestrictionConfig.Allows.
  unfoldable pub allows_one : JwtTunnelConfig → Bool → AllowConfig → Bool
  allows_one claims true a = if_set a.reverse_tunnel (λ r. reverse_allows r claims)
  allows_one claims false a = if_set a.tunnel (λ t. tunnel_allows t claims)

  unfoldable pub allows : RestrictionConfig → JwtTunnelConfig → Bool
  allows rc claims = any_of (allows_one claims (is_reverse claims.protocol)) rc.allow

  unfoldable pub validate_one : JwtTunnelConfig → Text → Text → Text → RestrictionConfig → Bool
  validate_one claims path auth common_name rc =
      if matches rc path auth common_name then allows rc claims else false

  -- Validate: no rules allow everything; else the first rule that matches and allows decides.
  unfoldable pub validate : Option RestrictionsRules → JwtTunnelConfig → Text → Text → Text → Bool
  validate none claims path auth common_name = true
  validate (some r) claims path auth common_name =
      is_empty r.restrictions || any_of (validate_one claims path auth common_name) r.restrictions
