-- ===== src/Server/Dispatch/Unjudged.antt =====
-- pkg/server: what the handlers do and the policy does not judge.
use warp_stream.Base.{
  ℕ, ◌≡◌, ◌≢◌, refl, sym, ap, Option, none, some, List, [], ◌∷◌, any_of, map, fun_ext, Bool, true,
  false, not, ◌||◌, Text, Bytes, arith, if◌then◌else◌,
}
use mathlib.Core.Path.{ap₂}
use warp_stream.Protocol.{LocalProtocol, JwtTunnelConfig, UnixProtocol, ReverseUnixProtocol}
use warp_stream.Server.Restrictions.{
  AllowConfig, AllowReverseTunnelConfig, reverse_port_and_cidr, RestrictionConfig,
  RestrictionsRules, is_reverse, get_proto_name, validate, validate_one, matches, allows,
  allows_one, tunnel_allows, reverse_allows, reverse_target, if_set, protocol_allowed, is_empty,
}
use warp_stream.Server.Bind.{bind_target, bind_of}
use warp_stream.Server.Dispatch.{unix, forward, reverse, is_forward, target, route}
use warp_stream.Server.Dispatch.Access.{target-ne-reverse}

-- A rule with its forward entries struck out.
abbrev pub reverse_part : AllowConfig → AllowConfig
reverse_part a = record a { tunnel = none }

abbrev pub reverse_only : RestrictionConfig → RestrictionConfig
reverse_only rc = record rc { allow = map reverse_part rc.allow }

any_of-map :
    {A B : Type 0} (f : A → B) (p : B → Bool) (q : A → Bool) (xs : List A)
    → ((x : A) → p (f x) ≡ q x)
    → any_of p (map f xs) ≡ any_of q xs
any_of-map f p q [] h = refl
any_of-map f p q (x ∷ xs) h = cc (h x, any_of-map f p q xs h)

is_empty-map : {A B : Type 0} (f : A → B) (xs : List A) → is_empty xs ≡ is_empty (map f xs)
is_empty-map f [] = refl
is_empty-map f (x ∷ xs) = refl

if_set_cong :
    {A : Type 0} (o : Option A) (f g : A → Bool) → ((a : A) → f a ≡ g a) → if_set o f ≡ if_set o g
if_set_cong none f g h = refl
if_set_cong (some a) f g h = h a

is_reverse-unix :
    (p : LocalProtocol) (u : ReverseUnixProtocol) → p.reverse_unix ≡ some u → is_reverse p ≡ true
unfolding is_reverse
is_reverse-unix p u e = ground arith

abbrev pub with_unix : JwtTunnelConfig → UnixProtocol → JwtTunnelConfig
with_unix claims w = record claims { protocol = record (claims.protocol) { unix = some w } }

module _ (parse_ip : Text → Option Bytes) where
  allows_one-reverse_part :
      (claims : JwtTunnelConfig) (a : AllowConfig)
      → is_reverse claims.protocol ≡ true
      → allows_one parse_ip claims (is_reverse claims.protocol) (reverse_part a)
        ≡ allows_one parse_ip claims (is_reverse claims.protocol) a
  unfolding allows_one
  allows_one-reverse_part claims a r = rw r

  validate_one-reverse_only :
      (claims : JwtTunnelConfig) (path auth common_name : Text) (rc : RestrictionConfig)
      → is_reverse claims.protocol ≡ true
      → validate_one parse_ip claims path auth common_name (reverse_only rc)
        ≡ validate_one parse_ip claims path auth common_name rc
  unfolding validate_one allows matches
  validate_one-reverse_only claims path auth common_name rc r =
      ap (λ b. if matches rc path auth common_name then b else false)
        (any_of-map reverse_part _ _ rc.allow (λ a. allows_one-reverse_part claims a r))

  -- The verdict depends on the claims through the rounds of the allow loop alone.
  validate_cong :
      (c d : JwtTunnelConfig) (rules : Option RestrictionsRules) (path auth common_name : Text)
      → ((a : AllowConfig)
          → allows_one parse_ip c (is_reverse c.protocol) a
            ≡ allows_one parse_ip d (is_reverse d.protocol) a)
      → validate parse_ip rules c path auth common_name
        ≡ validate parse_ip rules d path auth common_name
  unfolding validate validate_one allows
  validate_cong c d none path auth common_name h = refl
  validate_cong c d (some r) path auth common_name h =
      ap
        (λ (f : AllowConfig → Bool).
          is_empty r.restrictions
          || any_of (λ rc. if matches rc path auth common_name then any_of f rc.allow else false)
              r.restrictions)
        (fun_ext h)

  -- The finding behind the bound of one protocol: a request that sets a forward and a reverse protocol
  -- is judged by the reverse entries of the policy alone, as if it had no forward entry, and then
  -- served as a forward tunnel.
  pub mixed_claims :
      (rs : List RestrictionConfig) (claims : JwtTunnelConfig) (path auth common_name : Text)
      → is_forward claims.protocol ≡ true
      → is_reverse claims.protocol ≡ true
      → (validate parse_ip (some (record { restrictions = rs })) claims path auth common_name
          ≡ validate parse_ip
              (some (record { restrictions = map reverse_only rs }))
              claims
              path
              auth
              common_name)
        × (route claims ≢ reverse)
  unfolding validate route
  mixed_claims rs claims path auth common_name f r = (
    ap₂ ◌||◌ (is_empty-map reverse_only rs) (
        sym (
          any_of-map reverse_only _ _ rs
            (λ rc. validate_one-reverse_only claims path auth common_name rc r))),
    rw (f, route) (target-ne-reverse claims.protocol.unix claims),
  )

  target_unread :
      (claims : JwtTunnelConfig) (u v : UnixProtocol) (r : AllowReverseTunnelConfig)
      (o : Option ReverseUnixProtocol)
      → reverse_target parse_ip o r (with_unix claims u)
        ≡ reverse_target parse_ip o r (with_unix claims v)
  unfolding reverse_target reverse_port_and_cidr
  target_unread claims u v r none = refl
  target_unread claims u v r (some w) = refl

  unix_path_unread :
      (claims : JwtTunnelConfig) (u v : UnixProtocol) (a : AllowConfig) (b : Bool)
      → allows_one parse_ip (with_unix claims u) b a ≡ allows_one parse_ip (with_unix claims v) b a
  unfolding allows_one tunnel_allows reverse_allows protocol_allowed get_proto_name
  unix_path_unread claims u v a true =
      if_set_cong a.reverse_tunnel (λ r. reverse_allows parse_ip r (with_unix claims u)) _
        (λ r.
          ap
            (λ b.
              if not (protocol_allowed r.protocol (with_unix claims u).protocol) then false else b)
            (target_unread claims u v r claims.protocol.reverse_unix))
  unix_path_unread claims u v a false =
      if_set_cong a.tunnel (λ t. tunnel_allows parse_ip t (with_unix claims u)) _ (λ t. refl)

  -- The unix path of a forward tunnel, which is what gets dialled, is not judged: two requests that
  -- differ in it alone get one verdict.
  pub unix_path_unjudged :
      (rules : Option RestrictionsRules) (claims : JwtTunnelConfig) (u v : UnixProtocol)
      (path auth common_name : Text)
      → (validate parse_ip rules (with_unix claims u) path auth common_name
          ≡ validate parse_ip rules (with_unix claims v) path auth common_name)
        × (route (with_unix claims v) ≡ forward unix v.path)
  unfolding is_reverse route target is_forward
  unix_path_unjudged rules claims u v path auth common_name = (
    validate_cong _ _ rules path auth common_name (λ a. unix_path_unread claims u v a _),
    ground arith,
  )

  -- The bind path of a reverse unix tunnel is not judged either.
  pub bind_path_unjudged :
      (rules : Option RestrictionsRules) (claims : JwtTunnelConfig) (u : ReverseUnixProtocol)
      (c : ℕ) (cs path auth common_name : Text)
      → claims.protocol.reverse_unix ≡ some u
      → (validate parse_ip rules (record claims { remote = c ∷ cs }) path auth common_name
          ≡ validate parse_ip rules claims path auth common_name)
        × ((bind_target (record claims { remote = c ∷ cs })).bind_addr ≡ c ∷ cs)
  unfolding bind_target bind_of allows_one reverse_allows reverse_target
  bind_path_unjudged rules claims u c cs path auth common_name e =
      (validate_cong _ _ rules path auth common_name (λ a. unjudged a), rw e)
    where
      unjudged :
          (a : AllowConfig)
          → allows_one parse_ip (record claims { remote = c ∷ cs }) (is_reverse claims.protocol) a
            ≡ allows_one parse_ip claims (is_reverse claims.protocol) a
      unjudged a =
          rw (is_reverse-unix claims.protocol u e, allows_one)
            (if_set_cong a.reverse_tunnel _ _ (λ r. rw (e, reverse_allows)))
