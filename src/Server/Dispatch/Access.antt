-- ===== src/Server/Dispatch/Access.antt =====
-- pkg/server: what the policy decides against what the handlers then do.
use warp_stream.Base.{
  ℕ, ◌+◌, ◌≤◌, ◌≡◌, ◌↔◌, ◌≢◌, Option, none, some, List, Exists, Exists-map, true, Text, Bytes,
  arith, Bool-cases, inl, inr,
}
use warp_stream.Protocol.{LocalProtocol, JwtTunnelConfig, UnixProtocol}
use warp_stream.Server.Restrictions.{
  AllowConfig, AllowTunnelConfig, RestrictionsRules, is_reverse, validate,
}
use warp_stream.Server.Restrictions.Policy.{OneOf}
use warp_stream.Server.Restrictions.Grants.{Admits, Grants, TunnelGrant, validate_iff}
use warp_stream.Server.Dispatch.{
  Network, forward, reverse, is_forward, is_reverse_route, target, target_address, route,
}

abbrev count {ℓ} : {A : Type ℓ} → Option A → ℕ
count none = 0
count (some a) = 1

abbrev forward_count : LocalProtocol → ℕ
forward_count p = count p.tcp + count p.udp + count p.socks5 + count p.http_proxy + count p.unix

abbrev reverse_count : LocalProtocol → ℕ
reverse_count p =
    count p.reverse_tcp
    + count p.reverse_udp
    + count p.reverse_socks5
    + count p.reverse_http_proxy
    + count p.reverse_unix

-- How many protocols a request sets; a client of this program sets one.
abbrev pub protocol_count : LocalProtocol → ℕ
protocol_count p =
    forward_count p + reverse_count p + count p.stdio + count p.tproxy_tcp + count p.tproxy_udp

is_forward_count : (p : LocalProtocol) → is_forward p ≡ true → 1 ≤ forward_count p
unfolding is_forward
is_forward_count p h = ground arith

is_reverse_count : (p : LocalProtocol) → is_reverse p ≡ true → 1 ≤ reverse_count p
unfolding is_reverse
is_reverse_count p h = ground arith

is_reverse_route-is_reverse : (p : LocalProtocol) → is_reverse_route p ≡ is_reverse p
unfolding is_reverse_route is_reverse
is_reverse_route-is_reverse p = ground arith

pub target-ne-reverse :
    (o : Option UnixProtocol) (claims : JwtTunnelConfig) → target o claims ≢ reverse
unfolding target
target-ne-reverse none claims e = cc
target-ne-reverse (some u) claims e = cc

-- For a request that sets one protocol at most, the policy judges as reverse exactly the tunnels that
-- the handlers treat as reverse.
pub route-reverse_iff :
    (claims : JwtTunnelConfig)
    → protocol_count claims.protocol ≤ 1
    → (route claims ≡ reverse) ↔ (is_reverse claims.protocol ≡ true)
unfolding route
route-reverse_iff claims h = elim (Bool-cases (is_forward claims.protocol)) [
  | inl f ↦
      rw (f, route)
        (
          λ e. absurd (target-ne-reverse claims.protocol.unix claims e),
          λ e. absurd (
              omega
                (arith, is_forward_count claims.protocol f, is_reverse_count claims.protocol e)),
        )
  | inr f ↦
      rw (f, is_reverse_route-is_reverse claims.protocol, route)
        (
          λ e. elim (Bool-cases (is_reverse claims.protocol)) [
            | inl r ↦ r
            | inr r ↦ cc (rw r at e)
          ],
          λ e. rw e,
        )
]

dialled_address :
    (claims : JwtTunnelConfig) (n : Network) (address : Text)
    → claims.protocol.unix ≡ none
    → route claims ≡ forward n address
    → address ≡ target_address claims
unfolding route target
dialled_address claims n address u e = ground arith

OneOf-map :
    {A : Type 0} (P Q : A → Type 0)
    → ((x : A) → P x → Q x)
    → (xs : List A) → OneOf P xs
    → OneOf Q xs
OneOf-map P Q f xs (inl e) = inl e
OneOf-map P Q f xs (inr h) = inr (Exists-map P Q f xs h)

module _ (parse_ip : Text → Option Bytes) where
  -- An accepted request that sets one protocol at most and no unix path is dialled at the host and
  -- port that it names, and some restriction of the policy grants a forward tunnel to just these, or
  -- the policy is empty.
  pub dial-granted :
      (r : RestrictionsRules) (claims : JwtTunnelConfig) (path auth common_name : Text)
      (n : Network) (address : Text)
      → protocol_count claims.protocol ≤ 1
      → claims.protocol.unix ≡ none
      → validate parse_ip (some r) claims path auth common_name ≡ true
      → route claims ≡ forward n address
      → (address ≡ target_address claims)
        × OneOf
            (λ rc.
              Exists
                (λ a. (t : AllowTunnelConfig) × (a.tunnel ≡ some t) × TunnelGrant parse_ip t claims)
                rc.allow)
            r.restrictions
  dial-granted r claims path auth common_name n address h u ok e = (
    dialled_address claims n address u e,
    OneOf-map (Admits parse_ip claims path auth common_name) _
        (λ rc adm. Exists-map _ _ forward_grant rc.allow adm.1) r.restrictions
        ((validate_iff parse_ip r claims path auth common_name).0 ok),
  )
    where
      forward_grant :
          (a : AllowConfig)
          → Grants parse_ip claims a
          → (t : AllowTunnelConfig) × (a.tunnel ≡ some t) × TunnelGrant parse_ip t claims
      forward_grant a (inl (rev, _)) = cc (e, (route-reverse_iff claims h).1 rev)
      forward_grant a (inr (_, g)) = g
