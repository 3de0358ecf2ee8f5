-- ===== src/Caddy/Rules.antt =====
-- pkg/caddy/caddy.go: what the rules of a provisioned module accept.
use warp_stream.Base.{
  ◌≡◌, refl, ◌↔◌, ◌⊎◌, inl, inr, Bool, true, false, ◌||◌, ||_true, Option, List, [], ◌∷◌, ◌++◌,
  any_of, any_of_iff, Exists, Text, Bytes, arith, Bool-cases,
}
use warp_stream.Protocol.{JwtTunnelConfig}
use warp_stream.Server.Restrictions.{
  RestrictionConfig, RestrictionsRules, is_empty, validate, validate_one,
}
use warp_stream.Server.Gateway.{Token, is_websocket, serve_http, path_refused}
use warp_stream.Command.Config.{ServerConfig}
use warp_stream.Command.RunServer.{startup_config}
use warp_stream.Caddy.{
  restrictions_of, provision_rules, CaddyRequest, is_h2_tunnel, other_path, to_next, to_server,
  serve_caddy,
}

any_of-append :
    {A : Type 0} (p : A → Bool) (xs ys : List A)
    → any_of p (xs ++ ys) ≡ (any_of p xs || any_of p ys)
any_of-append p [] ys = refl
any_of-append p (x ∷ xs) ys = ground (arith, any_of-append p xs ys)

is_empty-append : {A : Type 0} (xs : List A) (y : A) (ys : List A) → is_empty (xs ++ y ∷ ys) ≡ false
is_empty-append [] y ys = refl
is_empty-append (x ∷ xs) y ys = refl

-- One of the restrictions matches and allows.
abbrev pub Accepts :
    (Text → Option Bytes) → JwtTunnelConfig → Text → Text → Text → List RestrictionConfig → Type 0
Accepts parse_ip claims path auth common_name rcs =
    Exists (λ rc. validate_one parse_ip claims path auth common_name rc ≡ true) rcs

module _ (parse_ip : Text → Option Bytes) where
  -- A module with inline restrictions accepts a tunnel if a restriction of the server's own rules or an
  -- inline one does, and not otherwise: inline restrictions take nothing away from the server's own,
  -- and put an end to the acceptance of everything where the server has none.
  pub validate-provision_rules_iff :
      (rules : Option RestrictionsRules) (rc : RestrictionConfig) (inline : List RestrictionConfig)
      (claims : JwtTunnelConfig) (path auth common_name : Text)
      → (validate parse_ip (provision_rules (rc ∷ inline) rules) claims path auth common_name
          ≡ true)
        ↔ (Accepts parse_ip claims path auth common_name (restrictions_of rules)
            ⊎ Accepts parse_ip claims path auth common_name (rc ∷ inline))
  unfolding provision_rules validate
  validate-provision_rules_iff rules rc inline claims path auth common_name =
      let own = restrictions_of rules in
      let p = validate_one parse_ip claims path auth common_name in
      let i = any_of_iff p own in
      let j = any_of_iff p (rc ∷ inline) in
      rw (is_empty-append own rc inline, any_of-append p own (rc ∷ inline))
        (
          λ h. elim (||_true (any_of p own) (any_of p (rc ∷ inline)) h) [
            | inl e ↦ inl (i.0 e)
            | inr e ↦ inr (j.0 e)
          ],
          λ s. elim s [ inl a ↦ rw (i.1 a) refl | inr b ↦ ground (arith, j.1 b) ],
        )

module _ (parse_ip : Text → Option Bytes) (parse_unverified : Text → Option Token)
    (parse_with_claims : Text → (Token → Option Text) → Option (Token × Bool)) where
  -- A request that the module does not leave to the next handler is one for a WebSocket or a tunnel
  -- over HTTP/2, and the server does not refuse it for its path.
  pub serve_caddy_lem :
      (config : ServerConfig) (rules : Option RestrictionsRules) (r : CaddyRequest)
      → (serve_caddy parse_ip parse_unverified parse_with_claims config rules r ≡ to_next)
        ⊎ ((serve_caddy parse_ip parse_unverified parse_with_claims config rules r
              ≡ to_server (
                  serve_http parse_ip parse_unverified parse_with_claims
                    (startup_config config)
                    rules
                    r.request))
            × ((is_websocket r.request || is_h2_tunnel r) ≡ true)
            × (path_refused (startup_config config) r.request ≡ false))
  unfolding serve_caddy other_path path_refused
  serve_caddy_lem config rules r = elim (Bool-cases (is_websocket r.request || is_h2_tunnel r)) [
    | inl tunnel ↦ elim (Bool-cases (other_path config.path_prefix r.request.path)) [
      | inl other ↦ inl (ground (arith, tunnel, other))
      | inr ours ↦ inr (ground (arith, tunnel, ours), tunnel, ground (arith, ours))
    ]
    | inr neither ↦ inl (ground (arith, neither))
  ]
