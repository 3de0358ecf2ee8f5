-- ===== src/Caddy/Unsigned.antt =====
-- pkg/caddy/caddy.go: a module that a Caddyfile configures has no secret for its tokens.
use warp_stream.Base.{
  arith, ℕ, ◌≡◌, refl, sym, ap, ◌∙◌, Bool, true, Option, none, some, List, [], ◌∷◌, Text,
}
use warp_stream.Base.Monad.{Result, ok, err}
use warp_stream.Server.Restrictions.{is_empty}
use warp_stream.Server.Gateway.{Token, unverified, check_method, parse_jwt_claims}
use warp_stream.Command.Config.{ServerConfig, no_server_config}
use warp_stream.Command.RunServer.{startup_config}
use warp_stream.Caddy.{
  with_default_mode, Directive, mode, prefix, restrict_config, ping_interval, idle_timeout,
  mask_frame, restrict_to, unrecognized, directive_of, bare_directive, with_interval, directive,
  CaddyfileError, read_line, then_lines, unmarshal_caddyfile,
}

-- A reader that keeps the secret.
abbrev Keeps : (ServerConfig → Result CaddyfileError ServerConfig) → Type 0
Keeps f = (a b : ServerConfig) → f a ≡ ok b → b.jwt_secret ≡ a.jwt_secret

same_secret :
    {a b : ServerConfig}
    → Path (Result CaddyfileError ServerConfig) (ok a) (ok b)
    → b.jwt_secret ≡ a.jwt_secret
same_secret {a} {b} e = sym (ap (λ (c : ServerConfig). c.jwt_secret) same)
  where
    same : a ≡ b
    same = cc e

bare-Keeps : (k : Directive) (name : Text) → Keeps (bare_directive k name)
unfolding bare_directive
bare-Keeps mask_frame name a b e = same_secret e
bare-Keeps restrict_to name a b e = same_secret e
bare-Keeps unrecognized name a b e = cc e
bare-Keeps mode name a b e = cc e
bare-Keeps prefix name a b e = cc e
bare-Keeps restrict_config name a b e = cc e
bare-Keeps ping_interval name a b e = cc e
bare-Keeps idle_timeout name a b e = cc e

directive-Keeps :
    (interval : Option ℕ) (v : Text) (args : List Text)
    (f g : ServerConfig → Result CaddyfileError ServerConfig) (k : Directive) (name : Text)
    → Keeps f
    → Keeps g
    → Keeps (directive interval v args f g k name)
unfolding directive with_interval
directive-Keeps interval v args f g mode name h i a b e =
    h (record a { websocket_protocol = v }) b e
directive-Keeps interval v args f g prefix name h i a b e = h _ b e
directive-Keeps interval v args f g restrict_config name h i a b e =
    h (record a { restrict_config = v }) b e
directive-Keeps none v args f g ping_interval name h i a b e = cc e
directive-Keeps (some d) v args f g ping_interval name h i a b e =
    h (record a { websocket_ping_frequency = d }) b e
directive-Keeps none v args f g idle_timeout name h i a b e = cc e
directive-Keeps (some d) v args f g idle_timeout name h i a b e =
    h (record a { remote_to_local_server_idle_timeout = d }) b e
directive-Keeps interval v args f g mask_frame name h i a b e =
    i (record a { websocket_mask_frame = true }) b e
directive-Keeps interval v args f g restrict_to name h i a b e = same_secret e
directive-Keeps interval v args f g unrecognized name h i a b e = cc e

module _ (parse_duration : Text → Option ℕ) where
  read_line-Keeps : (line : List Text) → Keeps (read_line parse_duration line)
  unfolding read_line
  read_line-Keeps [] a b e = same_secret e
  read_line-Keeps (name ∷ []) a b e = bare-Keeps (directive_of name) name a b e
  read_line-Keeps (name ∷ v ∷ rest) a b e =
      directive-Keeps (parse_duration v) v (v ∷ rest) (read_line parse_duration rest)
        (read_line parse_duration (v ∷ rest)) (directive_of name) name (read_line-Keeps rest)
        (read_line-Keeps (v ∷ rest)) a b e

  then_lines-Keeps :
      (f : ServerConfig → Result CaddyfileError ServerConfig) (a b : ServerConfig)
      (r : Result CaddyfileError ServerConfig)
      → Keeps f
      → ((c : ServerConfig) → r ≡ ok c → c.jwt_secret ≡ a.jwt_secret)
      → then_lines parse_duration f r ≡ ok b
      → b.jwt_secret ≡ a.jwt_secret
  unfolding then_lines
  then_lines-Keeps f a b (err x) h i e = cc e
  then_lines-Keeps f a b (ok c) h i e = h c b e ∙ i c refl

  unmarshal_caddyfile-Keeps :
      (lines : List (List Text)) → Keeps (unmarshal_caddyfile parse_duration lines)
  unfolding unmarshal_caddyfile
  unmarshal_caddyfile-Keeps [] a b e = same_secret e
  unmarshal_caddyfile-Keeps (line ∷ lines) a b e =
      then_lines-Keeps (unmarshal_caddyfile parse_duration lines) a b
        (read_line parse_duration line a) (unmarshal_caddyfile-Keeps lines) (read_line-Keeps line a)
        e

  -- Whatever block of a Caddyfile configured the module, in either mode: it takes the claims of every
  -- token of the right signing method that it can read, whoever signed it.
  pub unmarshal_caddyfile-unsigned :
      (parse_unverified : Text → Option Token)
      (parse_with_claims : Text → (Token → Option Text) → Option (Token × Bool))
      (lines : List (List Text)) (config : ServerConfig) (token : Text)
      → unmarshal_caddyfile parse_duration lines no_server_config ≡ ok config
      → parse_jwt_claims parse_unverified parse_with_claims
          (startup_config (with_default_mode config))
          token
        ≡ check_method (parse_unverified token)
  unfolding parse_jwt_claims unverified with_default_mode
  unmarshal_caddyfile-unsigned parse_unverified parse_with_claims lines config token e =
      let secret = unmarshal_caddyfile-Keeps lines no_server_config config e in
      let absent : is_empty config.jwt_secret ≡ true = rw secret refl in ground (arith, absent)
