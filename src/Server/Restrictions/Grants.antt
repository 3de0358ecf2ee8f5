-- ===== src/Server/Restrictions/Grants.antt =====
-- pkg/server/restrictions.go: Validate decides the policy, for every kind of tunnel.
use warp_stream.Base.{
  ◌≡◌, ◌↔◌, ◌⊎◌, inl, inr, refl, Option, none, some, List, [], any_of, any_of_iff, Exists,
  Exists-map, Bool, true, false, Text, Bytes, if◌then◌else◌, arith,
}
use warp_stream.Base.Net.{NetCidr, contains}
use warp_stream.Protocol.{JwtTunnelConfig, ReverseUnixProtocol}
use warp_stream.Server.Restrictions.{
  Regexp, AllowTunnelConfig, AllowReverseTunnelConfig, AllowConfig, RestrictionConfig,
  RestrictionsRules, if_set, matches, is_reverse, is_empty, reverse_target, tunnel_cidr_allowed,
  reverse_cidr_allowed, tunnel_allows, reverse_port_and_cidr, reverse_allows, allows_one, allows,
  validate_one, validate,
}
use warp_stream.Server.Restrictions.Policy.{
  Respects, OneOf, Names, Covers, Names-iff, Covers-iff, host_allowed_iff,
}
use warp_stream.Server.Restrictions.Fits.{
  Fits, ||_iff, Fits-iff, both_iff, is_empty_iff, is_some_iff, on_ip_iff,
}

module _ (parse_ip : Text → Option Bytes) where
  -- What a forward rule asks of the target's address.
  abbrev pub TunnelAddress : AllowTunnelConfig → Text → Type 0
  TunnelAddress a remote =
      (a.cidr ≡ [])
      ⊎ (((ip : Bytes) × (parse_ip remote ≡ some ip) × Exists (λ n. contains n ip ≡ true) a.cidr)
          ⊎ ((parse_ip remote ≡ none) × ((r : Regexp) × (a.host ≡ some r))))

  abbrev pub TunnelGrant : AllowTunnelConfig → JwtTunnelConfig → Type 0
  TunnelGrant a claims =
      Names claims a.protocol
      × (Covers claims.port a.port
          × (Respects a.host claims.remote × TunnelAddress a claims.remote))

  -- What a reverse rule asks of the bind address: nothing if it is no IP address.
  abbrev pub ReverseAddress : List NetCidr → Text → Type 0
  ReverseAddress nets remote =
      (nets ≡ [])
      ⊎ (((ip : Bytes) × (parse_ip remote ≡ some ip) × Exists (λ n. contains n ip ≡ true) nets)
          ⊎ ((parse_ip remote ≡ none) × Unit {0}))

  -- A unix tunnel needs the path, any other the port and the address.
  abbrev pub ReverseTarget : AllowReverseTunnelConfig → JwtTunnelConfig → Type 0
  ReverseTarget a claims =
      ((u : ReverseUnixProtocol) × (claims.protocol.reverse_unix ≡ some u)
        × Respects a.unix_path u.path)
      ⊎ ((claims.protocol.reverse_unix ≡ none)
          × (Covers claims.port a.port × ReverseAddress a.cidr claims.remote))

  abbrev pub ReverseGrant : AllowReverseTunnelConfig → JwtTunnelConfig → Type 0
  ReverseGrant a claims = Names claims a.protocol × ReverseTarget a claims

  tunnel_cidr_iff :
      (a : AllowTunnelConfig) (remote : Text)
      → (tunnel_cidr_allowed parse_ip a remote ≡ true) ↔ TunnelAddress a remote
  unfolding tunnel_cidr_allowed
  tunnel_cidr_iff a remote =
      ||_iff (is_empty a.cidr) _ (is_empty_iff a.cidr)
        (on_ip_iff (parse_ip remote) a.cidr _ (is_some_iff a.host))

  reverse_cidr_iff :
      (nets : List NetCidr) (remote : Text)
      → (reverse_cidr_allowed parse_ip nets remote ≡ true) ↔ ReverseAddress nets remote
  unfolding reverse_cidr_allowed
  reverse_cidr_iff nets remote =
      ||_iff (is_empty nets) _ (is_empty_iff nets)
        (on_ip_iff (parse_ip remote) nets true (λ h. tt, λ h. refl))

  TunnelGrant-iff :
      (a : AllowTunnelConfig) (claims : JwtTunnelConfig)
      → (tunnel_allows parse_ip a claims ≡ true) ↔ TunnelGrant a claims
  unfolding tunnel_allows
  TunnelGrant-iff a claims = both_iff _ _ (Names-iff claims a.protocol) (
      both_iff _ _ (Covers-iff claims.port a.port)
        (both_iff _ _ (host_allowed_iff a.host claims.remote) (tunnel_cidr_iff a claims.remote)))

  ReverseTarget-iff :
      (a : AllowReverseTunnelConfig) (claims : JwtTunnelConfig)
      → (reverse_target parse_ip claims.protocol.reverse_unix a claims ≡ true)
        ↔ ReverseTarget a claims
  unfolding reverse_target reverse_port_and_cidr
  ReverseTarget-iff a claims = unix_or claims.protocol.reverse_unix
    where
      unix_or :
          (o : Option ReverseUnixProtocol)
          → (reverse_target parse_ip o a claims ≡ true) ↔ (
              ((u : ReverseUnixProtocol) × (o ≡ some u) × Respects a.unix_path u.path)
              ⊎ ((o ≡ none) × (Covers claims.port a.port × ReverseAddress a.cidr claims.remote)))
      unix_or (some u) = (
        λ h. inl (u, refl, (host_allowed_iff a.unix_path u.path).0 h),
        elim [
          | inl (v, e, h) ↦
              let f : u ≡ v = ground arith in (host_allowed_iff a.unix_path u.path).1 (rw f h)
          | inr (e, h) ↦ cc
        ],
      )
      unix_or none =
          let both =
            both_iff _ _ (Covers-iff claims.port a.port) (reverse_cidr_iff a.cidr claims.remote) in
          (λ h. inr (refl, both.0 h), elim [ inl (v, e, h) ↦ cc | inr (e, h) ↦ both.1 h ])

  ReverseGrant-iff :
      (a : AllowReverseTunnelConfig) (claims : JwtTunnelConfig)
      → (reverse_allows parse_ip a claims ≡ true) ↔ ReverseGrant a claims
  unfolding reverse_allows
  ReverseGrant-iff a claims =
      both_iff _ _ (Names-iff claims a.protocol) (ReverseTarget-iff a claims)

  -- A rule's entry is for one kind of tunnel: forward or reverse.
  abbrev pub Grants : JwtTunnelConfig → AllowConfig → Type 0
  Grants claims a =
      ((is_reverse claims.protocol ≡ true)
        × ((r : AllowReverseTunnelConfig) × (a.reverse_tunnel ≡ some r) × ReverseGrant r claims))
      ⊎ ((is_reverse claims.protocol ≡ false)
          × ((t : AllowTunnelConfig) × (a.tunnel ≡ some t) × TunnelGrant t claims))

  if_set_iff :
      {A : Type 0} (o : Option A) (f : A → Bool) (P : A → Type 0)
      → ((a : A) → (f a ≡ true) ↔ P a)
      → (if_set o f ≡ true) ↔ ((a : A) × (o ≡ some a) × P a)
  if_set_iff none f P h = (λ e. cc, λ (a, e, p). cc)
  if_set_iff (some a) f P h =
      (λ e. (a, refl, (h a).0 e), λ (b, e, p). let g : a ≡ b = ground arith in (h a).1 (rw g p))

  Grants-iff :
      (claims : JwtTunnelConfig) (a : AllowConfig)
      → (allows_one parse_ip claims (is_reverse claims.protocol) a ≡ true) ↔ Grants claims a
  unfolding allows_one
  Grants-iff claims a = by_kind (is_reverse claims.protocol)
    where
      by_kind :
          (b : Bool)
          → (allows_one parse_ip claims b a ≡ true) ↔ (
              ((b ≡ true)
                × ((r : AllowReverseTunnelConfig) × (a.reverse_tunnel ≡ some r)
                    × ReverseGrant r claims))
              ⊎ ((b ≡ false)
                  × ((t : AllowTunnelConfig) × (a.tunnel ≡ some t) × TunnelGrant t claims)))
      by_kind true =
          let i = if_set_iff a.reverse_tunnel _ _ (λ r. ReverseGrant-iff r claims) in
          (λ h. inl (refl, i.0 h), elim [ inl (e, h) ↦ i.1 h | inr (e, h) ↦ cc ])
      by_kind false =
          let i = if_set_iff a.tunnel _ _ (λ t. TunnelGrant-iff t claims) in
          (λ h. inr (refl, i.0 h), elim [ inl (e, h) ↦ cc | inr (e, h) ↦ i.1 h ])

  -- A restriction admits a request that one of its match entries fits and one of its allow entries
  -- grants.
  abbrev pub Admits : JwtTunnelConfig → Text → Text → Text → RestrictionConfig → Type 0
  Admits claims path auth common_name rc =
      Exists (Fits path auth common_name) rc.match × Exists (Grants claims) rc.allow

  Exists-iff :
      {A : Type 0} (p : A → Bool) (P : A → Type 0) (xs : List A)
      → ((x : A) → (p x ≡ true) ↔ P x)
      → (any_of p xs ≡ true) ↔ Exists P xs
  Exists-iff p P xs f = (
    λ h. Exists-map _ P (λ x. (f x).0) xs ((any_of_iff p xs).0 h),
    λ h. (any_of_iff p xs).1 (Exists-map P _ (λ x. (f x).1) xs h),
  )

  if_both_iff :
      {P Q : Type 0} (a b : Bool)
      → ((a ≡ true) ↔ P)
      → ((b ≡ true) ↔ Q)
      → ((if a then b else false) ≡ true) ↔ (P × Q)
  if_both_iff true b f g = (λ h. (f.0 refl, g.0 h), λ h. g.1 h.1)
  if_both_iff false b f g = (λ h. cc, λ h. cc (f.1 h.0))

  -- With a policy that has restrictions, the server accepts a request exactly when some restriction
  -- has a match entry that fits the request and an allow entry that grants the tunnel; nothing is
  -- allowed by default. With an empty policy every request is accepted.
  pub validate_iff :
      (r : RestrictionsRules) (claims : JwtTunnelConfig) (path auth common_name : Text)
      → (validate parse_ip (some r) claims path auth common_name ≡ true)
        ↔ OneOf (Admits claims path auth common_name) r.restrictions
  unfolding validate validate_one matches allows
  validate_iff r claims path auth common_name =
      ||_iff (is_empty r.restrictions) _ (is_empty_iff r.restrictions) (
        Exists-iff _ _ r.restrictions λ rc.
          if_both_iff _ _ (Exists-iff _ _ rc.match (Fits-iff path auth common_name))
            (Exists-iff _ _ rc.allow (Grants-iff claims)))
