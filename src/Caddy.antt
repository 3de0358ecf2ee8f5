-- ===== src/Caddy.antt =====
-- pkg/caddy/caddy.go: the server as a module of the Caddy web server.
pub mod Rules
pub mod Unsigned
pub mod Tests
use warp_stream.Base.{
  ℕ, Bool, true, false, not, ◌&&◌, Option, none, some, List, [], ◌∷◌, ◌++◌, if◌then◌else◌, Text,
  codes, text_eq, trim_prefix, has_prefix, Bytes,
}
use warp_stream.Base.Monad.{Result, ok, err}
use warp_stream.Server.Restrictions.{RestrictionConfig, RestrictionsRules, is_empty}
use warp_stream.Server.Gateway.{Request, Token, Reply, is_websocket, serve_http}
use warp_stream.Command.Config.{ServerConfig}
use warp_stream.Command.RunServer.{startup_config}

-- Provision: the mode, and the inline restrictions behind the rules that NewServer made.
unfoldable pub with_default_mode : ServerConfig → ServerConfig
with_default_mode config = record config {
  websocket_protocol =
      if is_empty config.websocket_protocol then codes "rust" else config.websocket_protocol;
}

unfoldable pub restrictions_of : Option RestrictionsRules → List RestrictionConfig
restrictions_of none = []
restrictions_of (some rules) = rules.restrictions

unfoldable pub provision_rules :
    List RestrictionConfig → Option RestrictionsRules → Option RestrictionsRules
provision_rules inline rules =
    if is_empty inline
    then rules
    else some (record { restrictions = restrictions_of rules ++ inline })

-- What ServeHTTP reads of a request besides what the server does.
pub record CaddyRequest : Type 0 where
  pub request : Request
  pub method : Text
  pub content_type : Text

unfoldable pub is_h2_tunnel : CaddyRequest → Bool
is_h2_tunnel r =
    r.request.is_http2
    && (text_eq r.method (codes "POST") && text_eq r.content_type (codes "application/json"))

unfoldable pub other_path : Text → Text → Bool
other_path prefix path =
    if is_empty prefix then false else not (has_prefix (codes "/" ++ prefix) path)

-- ServeHTTP hands a request to the next handler or to the server.
pub data Handled : Type 0 where
  to_next : Handled
  to_server : Reply → Handled

module _ (parse_ip : Text → Option Bytes) (parse_unverified : Text → Option Token)
    (parse_with_claims : Text → (Token → Option Text) → Option (Token × Bool)) where
  unfoldable pub serve_caddy : ServerConfig → Option RestrictionsRules → CaddyRequest → Handled
  serve_caddy config rules r =
      if not (is_websocket r.request) && not (is_h2_tunnel r)
      then to_next
      else if other_path config.path_prefix r.request.path
      then to_next
      else to_server (
          serve_http parse_ip parse_unverified parse_with_claims (startup_config config) rules
            r.request)

-- UnmarshalCaddyfile on the lines of the module's block, each the list of its tokens: a directive that
-- takes an argument takes the next token of its line, and what follows is read as a directive again.
pub data Directive : Type 0 where
  mode prefix restrict_config ping_interval idle_timeout mask_frame restrict_to unrecognized :
      Directive

unfoldable pub directive_of : Text → Directive
directive_of name =
    if text_eq name (codes "mode")
    then mode
    else if text_eq name (codes "prefix")
    then prefix
    else if text_eq name (codes "restrict_config")
    then restrict_config
    else if text_eq name (codes "ping_interval")
    then ping_interval
    else if text_eq name (codes "idle_timeout")
    then idle_timeout
    else if text_eq name (codes "mask_frame")
    then mask_frame
    else if text_eq name (codes "restrict_to")
    then restrict_to
    else unrecognized

pub data CaddyfileError : Type 0 where
  missing_argument : CaddyfileError
  bad_interval unrecognized_directive : Text → CaddyfileError

-- A directive at the end of its line.
unfoldable pub bare_directive : Directive → Text → ServerConfig → Result CaddyfileError ServerConfig
bare_directive mask_frame name config = ok (record config { websocket_mask_frame = true })
bare_directive restrict_to name config = ok config
bare_directive unrecognized name config = err (unrecognized_directive name)
bare_directive mode name config = err missing_argument
bare_directive prefix name config = err missing_argument
bare_directive restrict_config name config = err missing_argument
bare_directive ping_interval name config = err missing_argument
bare_directive idle_timeout name config = err missing_argument

unfoldable pub with_interval :
    Text → Option ℕ → (ℕ → Result CaddyfileError ServerConfig) → Result CaddyfileError ServerConfig
with_interval v none continue = err (bad_interval v)
with_interval v (some d) continue = continue d

-- One with tokens behind it: `behind_argument` reads those behind the first of them, `behind_name` all.
unfoldable pub directive :
    Option ℕ
    → Text
    → List Text
    → (ServerConfig → Result CaddyfileError ServerConfig)
    → (ServerConfig → Result CaddyfileError ServerConfig)
    → Directive
    → Text
    → ServerConfig
    → Result CaddyfileError ServerConfig
directive interval v args behind_argument behind_name mode name config =
    behind_argument (record config { websocket_protocol = v })
directive interval v args behind_argument behind_name prefix name config =
    behind_argument (record config { path_prefix = trim_prefix (codes "/") v })
directive interval v args behind_argument behind_name restrict_config name config =
    behind_argument (record config { restrict_config = v })
directive interval v args behind_argument behind_name ping_interval name config =
    with_interval v interval (λ d. behind_argument (record config { websocket_ping_frequency = d }))
directive interval v args behind_argument behind_name idle_timeout name config =
    with_interval v interval
      (λ d. behind_argument (record config { remote_to_local_server_idle_timeout = d }))
directive interval v args behind_argument behind_name mask_frame name config =
    behind_name (record config { websocket_mask_frame = true })
directive interval v args behind_argument behind_name restrict_to name config =
    ok (record config { restrict_to = config.restrict_to ++ args })
directive interval v args behind_argument behind_name unrecognized name config =
    err (unrecognized_directive name)

-- `parse_duration` is caddy.ParseDuration.
module _ (parse_duration : Text → Option ℕ) where
  unfoldable pub read_line : List Text → ServerConfig → Result CaddyfileError ServerConfig
  read_line [] config = ok config
  read_line (name ∷ []) config = bare_directive (directive_of name) name config
  read_line (name ∷ v ∷ rest) config =
      let behind_argument = read_line rest in
      let behind_name = read_line (v ∷ rest) in
      directive (parse_duration v) v (v ∷ rest) behind_argument behind_name (directive_of name) name
        config

  unfoldable pub then_lines :
      (ServerConfig → Result CaddyfileError ServerConfig)
      → Result CaddyfileError ServerConfig
      → Result CaddyfileError ServerConfig
  then_lines continue (err e) = err e
  then_lines continue (ok config) = continue config

  unfoldable pub unmarshal_caddyfile :
      List (List Text) → ServerConfig → Result CaddyfileError ServerConfig
  unmarshal_caddyfile [] config = ok config
  unmarshal_caddyfile (line ∷ lines) config =
      then_lines (unmarshal_caddyfile lines) (read_line line config)
