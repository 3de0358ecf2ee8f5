-- ===== src/Server/Startup/DefaultRules.antt =====
-- pkg/server/server.go: the rules that NewServer makes of --restrict-to and the path prefixes.
use warp_stream.Base.{
  ◌≡◌, refl, ◌↔◌, ◌⊎◌, inl, inr, Option, none, some, List, [], ◌∷◌, Bool, true, false, ◌||◌, any_of,
  Exists, Text, text_eq_iff, Bytes, ||_true, arith, parse_port,
}
use warp_stream.Base.Net.{split_host_port}
use warp_stream.Protocol.{JwtTunnelConfig}
use warp_stream.Server.Restrictions.{
  AllowConfig, RestrictionsRules, Regexp, is_empty, is_reverse, validate, validate_one, matches,
  matches_one, allows, allows_one, tunnel_allows, protocol_allowed, port_allowed, in_range,
  host_allowed, tunnel_cidr_allowed,
}
use warp_stream.Server.Startup.{
  Config, allow_target, add_target, or_default, allow_targets, default_allows, default_matches,
  default_rules, loaded_rules, new_server_rules,
}

-- A --restrict-to entry names the tunnel's host and port.
abbrev pub Names : JwtTunnelConfig → Text → Type 0
Names claims entry =
    (host : Text) × (port : Text) × (split_host_port entry ≡ some (host, port))
    × (claims.remote ≡ host)
    × (claims.port ≡ parse_port port)

or_false_iff : (b : Bool) (P : Type 0) → ((b ≡ true) ↔ P) → ((b || false) ≡ true) ↔ P
or_false_iff true P f = f
or_false_iff false P f = f

module _ (parse_ip : Text → Option Bytes) where
  allow_target_iff :
      (claims : JwtTunnelConfig) (host port : Text)
      → (allows_one parse_ip claims false (allow_target host port) ≡ true)
        ↔ ((claims.remote ≡ host) × (claims.port ≡ parse_port port))
  unfolding allows_one allow_target tunnel_allows protocol_allowed port_allowed in_range
      host_allowed tunnel_cidr_allowed
  allow_target_iff claims host port = (
    λ h. ((text_eq_iff claims.remote host).0 (ground (arith, h)), ground (arith, h)),
    λ e. let t = (text_eq_iff claims.remote host).1 e.0 in ground (arith, t, e.1),
  )

  add_target_iff :
      (claims : JwtTunnelConfig) (entry : Text) (o : Option (Text × Text)) (rest : List AllowConfig)
      (Rest : Type 0)
      → split_host_port entry ≡ o
      → ((any_of (allows_one parse_ip claims false) rest ≡ true) ↔ Rest)
      → (any_of (allows_one parse_ip claims false) (add_target o rest) ≡ true)
        ↔ (Names claims entry ⊎ Rest)
  unfolding add_target
  add_target_iff claims entry none rest Rest e f =
      (λ h. inr (f.0 h), λ s. elim s [ inl (host, port, split, _, _) ↦ cc | inr r ↦ f.1 r ])
  add_target_iff claims entry (some (host, port)) rest Rest e f =
      let g = allow_target_iff claims host port in
      (
        λ h. elim (||_true _ _ h) [
          | inl one ↦ inl (host, port, e, (g.0 one).0, (g.0 one).1)
          | inr more ↦ inr (f.0 more)
        ],
        λ s. elim s [
          | inl (host', port', split, r, p) ↦
              let same : (host' ≡ host) × (port' ≡ port) = (cc, cc) in
              let one = g.1 (cc (r, same.0), cc (p, same.1)) in rw one refl
          | inr r ↦ ground (arith, f.1 r)
        ],
      )

  allow_targets_iff :
      (claims : JwtTunnelConfig) (entries : List Text)
      → (any_of (allows_one parse_ip claims false) (allow_targets entries) ≡ true)
        ↔ Exists (Names claims) entries
  unfolding allow_targets
  allow_targets_iff claims [] = (λ h. cc, λ h. absurd h)
  allow_targets_iff claims (e ∷ es) =
      add_target_iff claims e (split_host_port e) (allow_targets es) _ refl
        (allow_targets_iff claims es)

  no_reverse :
      (claims : JwtTunnelConfig) (entries : List Text)
      → any_of (allows_one parse_ip claims true) (allow_targets entries) ≡ false
  unfolding allow_targets add_target allow_target allows_one
  no_reverse claims [] = refl
  no_reverse claims (e ∷ es) = skip (split_host_port e) (no_reverse claims es)
    where
      skip :
          (o : Option (Text × Text))
          → any_of (allows_one parse_ip claims true) (allow_targets es) ≡ false
          → any_of (allows_one parse_ip claims true) (add_target o (allow_targets es)) ≡ false
      skip none h = h
      skip (some (host, port)) h = h

  decided :
      (claims : JwtTunnelConfig) (entries : List Text) (reverse : Bool)
      → (any_of (allows_one parse_ip claims reverse) (allow_targets entries) ≡ true)
        ↔ ((reverse ≡ false) × Exists (Names claims) entries)
  decided claims entries true = (λ h. cc (h, no_reverse claims entries), λ h. cc (h.0))
  decided claims entries false = (
    λ h. (refl, (allow_targets_iff claims entries).0 h),
    λ h. (allow_targets_iff claims entries).1 h.1,
  )

  -- A server that loaded no policy file, with --restrict-to entries and no path prefixes, accepts
  -- exactly the tunnels that are not reverse and whose host and port an entry names. Entries that
  -- do not split into host and port name nothing.
  pub new_server_rules-restrict_to :
      (compile : Text → Option Regexp) (load_restrictions : Text → Option RestrictionsRules)
      (config : Config) (claims : JwtTunnelConfig) (path auth common_name : Text)
      → loaded_rules compile load_restrictions config ≡ none
      → config.restrict_http_upgrade_path_prefix ≡ []
      → is_empty config.restrict_to ≡ false
      → (validate parse_ip
            (new_server_rules compile load_restrictions config)
            claims
            path
            auth
            common_name
          ≡ true)
        ↔ ((is_reverse claims.protocol ≡ false) × Exists (Names claims) config.restrict_to)
  unfolding new_server_rules or_default default_rules default_matches default_allows validate
      validate_one matches matches_one allows
  new_server_rules-restrict_to compile load_restrictions config claims path auth common_name hl hp
        hr =
      rw (hl, hp, hr)
        (or_false_iff _ _ (decided claims config.restrict_to (is_reverse claims.protocol)))
