-- ===== src/Server/Gateway/Admission.antt =====
-- pkg/server/server.go: what a request has passed when ServeHTTP opens a tunnel for it.
use warp_stream.Base.{
  ℕ, ◌≡◌, refl, sym, ap, subst, arith, ◌⊎◌, inl, inr, Option, none, some, Bool, true, false, not,
  ◌&&◌, Bool-cases, Text, Bytes, if◌then◌else◌,
}
use warp_stream.Base.Monad.{Result, ok, err}
use warp_stream.Protocol.{JwtTunnelConfig}
use warp_stream.Server.Restrictions.{RestrictionsRules, is_empty, validate}
use warp_stream.Server.Startup.{Config, is_ws}
use warp_stream.Server.Gateway.{
  Request, Token, TokenError, unverified, key_of, after_verification, parse_jwt_claims, Reply,
  check_method, unexpected_method, malformed, invalid, status, http2_tunnel, gorilla_upgrade,
  wst_upgrade, token_of, common_name, open_tunnel, judge, path_refused, serve_http, subprotocols,
  is_websocket,
}

-- The reply opens a tunnel, or upgrades to one, for these claims.
abbrev pub Opens : Reply → JwtTunnelConfig → Type 0
Opens (status n) claims = ⊥
Opens (http2_tunnel c) claims = c ≡ claims
Opens (gorilla_upgrade s c) claims = c ≡ claims
Opens (wst_upgrade s c) claims = c ≡ claims

-- A guard that replies with a status was not taken, or was passed.
past_guard :
    (b : Bool) (n : ℕ) (x : Reply) (claims : JwtTunnelConfig)
    → Opens (if b then status n else x) claims
    → (b ≡ false) × Opens x claims
past_guard true n x claims h = absurd h
past_guard false n x claims h = (refl, h)

through_guard :
    (b : Bool) (n : ℕ) (x : Reply) (claims : JwtTunnelConfig)
    → Opens (if b then x else status n) claims
    → (b ≡ true) × Opens x claims
through_guard true n x claims h = (refl, h)
through_guard false n x claims h = absurd h

Opens-open_tunnel :
    (config : Config) (r : Request) (c claims : JwtTunnelConfig)
    → Opens (open_tunnel config r c) claims
    → c ≡ claims
unfolding open_tunnel
Opens-open_tunnel config r c claims h = choose (r.is_http2 && not (is_websocket r)) (is_ws config) h
  where
    choose :
        (a b : Bool)
        → Opens
            (if a
              then http2_tunnel c
              else if b
              then gorilla_upgrade (subprotocols r) c
              else wst_upgrade (subprotocols r) c)
            claims
        → c ≡ claims
    choose true b e = e
    choose false true e = e
    choose false false e = e

Opens-judge :
    (parse_ip : Text → Option Bytes) (config : Config) (rules : Option RestrictionsRules)
    (r : Request) (p : Result TokenError JwtTunnelConfig) (claims : JwtTunnelConfig)
    → Opens (judge parse_ip config rules r p) claims
    → (p ≡ ok claims)
      × (validate parse_ip rules claims r.path r.authorization (common_name r) ≡ true)
unfolding judge
Opens-judge parse_ip config rules r (err e) claims h = absurd h
Opens-judge parse_ip config rules r (ok c) claims h =
    let g = through_guard _ 403 (open_tunnel config r c) claims h in
    let e : c ≡ claims = Opens-open_tunnel config r c claims g.1 in
    (
      ap ok e,
      subst (λ d. validate parse_ip rules d r.path r.authorization (common_name r) ≡ true) e g.0,
    )

module _ (parse_ip : Text → Option Bytes) (parse_unverified : Text → Option Token)
    (parse_with_claims : Text → (Token → Option Text) → Option (Token × Bool)) where
  -- A tunnel is opened only for claims that the request's token carries and that the server's rules
  -- accept for the request's path, authorization and certificate, and only under the path prefix.
  pub serve_http-admitted :
      (config : Config) (rules : Option RestrictionsRules) (r : Request) (claims : JwtTunnelConfig)
      → Opens (serve_http parse_ip parse_unverified parse_with_claims config rules r) claims
      → (path_refused config r ≡ false)
        × (parse_jwt_claims parse_unverified parse_with_claims config (token_of r) ≡ ok claims)
        × (validate parse_ip rules claims r.path r.authorization (common_name r) ≡ true)
  unfolding serve_http
  serve_http-admitted config rules r claims h =
      let g = past_guard (path_refused config r) 404 _ claims h in
      let k = past_guard (is_empty (token_of r)) 401 _ claims g.1 in
      let j = Opens-judge parse_ip config rules r _ claims k.1 in (g.0, j.0, j.1)

ok_branch :
    (b : Bool) (c claims : JwtTunnelConfig) (e : TokenError)
    → Path (Result TokenError JwtTunnelConfig) (if b then ok c else err e) (ok claims)
    → (b ≡ true) × (c ≡ claims)
ok_branch true c claims e h = (refl, cc)
ok_branch false c claims e h = cc

check_method-ok :
    (o : Option Token) (claims : JwtTunnelConfig)
    → check_method o ≡ ok claims
    → (t : Token) × (o ≡ some t) × (t.is_hs256 ≡ true) × (t.claims ≡ claims)
unfolding check_method
check_method-ok none claims h = cc
check_method-ok (some t) claims h =
    let b = ok_branch t.is_hs256 t.claims claims unexpected_method h in (t, refl, b.0, b.1)

some_branch :
    (b : Bool) (x y : Text)
    → Path (Option Text) (if b then some x else none) (some y)
    → (b ≡ true) × (x ≡ y)
some_branch true x y h = (refl, cc)
some_branch false x y h = cc

-- Signatures are verified, and a token whose signature fails is refused.
abbrev pub is_strict : Config → Bool
is_strict config =
    (is_ws config && not (is_empty config.jwt_secret)) && not config.insecure_no_jwt_validation

-- The claims are those of an HS256 token, which is signed with the server's secret, or was parsed by a
-- server that is not strict. `IsSigned key token t`: the token's text is that of `t`, signed with the
-- key.
abbrev pub IsTrusted :
    (Text → Option Token)
    → (Text → Text → Token → Type 0)
    → Config
    → Text
    → JwtTunnelConfig
    → Type 0
IsTrusted parse_unverified IsSigned config token claims =
    (t : Token) × (t.is_hs256 ≡ true)
    × (t.claims ≡ claims)
    × (IsSigned config.jwt_secret token t
        ⊎ ((is_strict config ≡ false) × (parse_unverified token ≡ some t)))

-- The JWT library finds a token valid only when the key function answered with a key that signed it.
module _ (parse_unverified : Text → Option Token)
    (parse_with_claims : Text → (Token → Option Text) → Option (Token × Bool))
    (IsSigned : Text → Text → Token → Type 0)
    (valid-IsSigned : (token : Text) (key_function : Token → Option Text) (t : Token)
      → parse_with_claims token key_function ≡ some (t, true)
      → (key : Text) × (key_function t ≡ some key) × IsSigned key token t) where
  unverified-IsTrusted :
      (config : Config) (token : Text) (claims : JwtTunnelConfig)
      → is_strict config ≡ false
      → unverified parse_unverified parse_with_claims token ≡ ok claims
      → IsTrusted parse_unverified IsSigned config token claims
  unfolding unverified
  unverified-IsTrusted config token claims lax h =
      let (t, e, hs, c) = check_method-ok (parse_unverified token) claims h in
      (t, hs, c, inr (lax, e))

  insecure_branch :
      (config : Config) (token : Text) (claims : JwtTunnelConfig) (e : TokenError) (insecure : Bool)
      → config.insecure_no_jwt_validation ≡ insecure
      → Path
          (Result TokenError JwtTunnelConfig)
          (if insecure then unverified parse_unverified parse_with_claims token else err e)
          (ok claims)
      → IsTrusted parse_unverified IsSigned config token claims
  insecure_branch config token claims e true i h =
      unverified-IsTrusted config token claims (ground (arith, i)) h
  insecure_branch config token claims e false i h = cc

  after_verification-IsTrusted :
      (config : Config) (token : Text) (claims : JwtTunnelConfig) (o : Option (Token × Bool))
      → parse_with_claims token (key_of config) ≡ o
      → after_verification parse_unverified parse_with_claims config token o ≡ ok claims
      → IsTrusted parse_unverified IsSigned config token claims
  unfolding after_verification key_of
  after_verification-IsTrusted config token claims (some (t, true)) e h =
      let (key, k, signed) = valid-IsSigned token (key_of config) t e in
      let (hs, same) = some_branch t.is_hs256 config.jwt_secret key k in
      (t, hs, cc, inl (subst (λ k. IsSigned k token t) (sym same) signed))
  after_verification-IsTrusted config token claims (some (t, false)) e h =
      insecure_branch config token claims invalid config.insecure_no_jwt_validation refl h
  after_verification-IsTrusted config token claims none e h =
      insecure_branch config token claims malformed config.insecure_no_jwt_validation refl h

  -- In every mode, accepted claims are those of an HS256 token. It is signed with the server's secret,
  -- unless the server is not in `ws` mode, has no secret or skips validation; then it was parsed.
  pub parse_jwt_claims-IsTrusted :
      (config : Config) (token : Text) (claims : JwtTunnelConfig)
      → parse_jwt_claims parse_unverified parse_with_claims config token ≡ ok claims
      → IsTrusted parse_unverified IsSigned config token claims
  unfolding parse_jwt_claims
  parse_jwt_claims-IsTrusted config token claims h =
      elim (Bool-cases (is_ws config && not (is_empty config.jwt_secret))) [
        | inl b ↦ after_verification-IsTrusted config token claims _ refl (rw b at h)
        | inr b ↦ unverified-IsTrusted config token claims (rw b refl) (rw b at h)
      ]

  -- A strict server opens a tunnel only for the claims of an HS256 token that the request carries and
  -- that is signed with the server's secret, and only if its rules accept them.
  pub serve_http-IsSigned :
      (parse_ip : Text → Option Bytes) (config : Config) (rules : Option RestrictionsRules)
      (r : Request) (claims : JwtTunnelConfig)
      → is_strict config ≡ true
      → Opens (serve_http parse_ip parse_unverified parse_with_claims config rules r) claims
      → (t : Token) × (t.is_hs256 ≡ true)
        × (t.claims ≡ claims)
        × IsSigned config.jwt_secret (token_of r) t
        × (validate parse_ip rules claims r.path r.authorization (common_name r) ≡ true)
  serve_http-IsSigned parse_ip config rules r claims strict h =
      let (p, j, v) =
        serve_http-admitted parse_ip parse_unverified parse_with_claims config rules r claims h in
      let (t, hs, c, signed) = parse_jwt_claims-IsTrusted config (token_of r) claims j in
      elim signed [ inl s ↦ (t, hs, c, s, v) | inr (lax, _) ↦ cc ]
