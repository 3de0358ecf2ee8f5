-- ===== src/Caddy/Tests.antt =====
-- pkg/caddy/caddy.go on small inputs.
use warp_stream.Base.{
  ℕ, ◌≡◌, refl, Bool, true, Option, none, some, List, [], ◌∷◌, Text, codes, text_eq, trim_prefix,
  has_prefix,
}
use warp_stream.Base.Monad.{ok, err}
use warp_stream.Protocol.{no_protocol, JwtTunnelConfig}
use warp_stream.Command.Config.{ServerConfig, no_server_config}
use warp_stream.Caddy.{
  with_default_mode, directive_of, bare_directive, directive, read_line, then_lines,
  unmarshal_caddyfile, missing_argument, unrecognized_directive,
}
use warp_stream.Server.Gateway.{Token, check_method, parse_jwt_claims}
use warp_stream.Command.RunServer.{startup_config}
use warp_stream.Caddy.Unsigned.{unmarshal_caddyfile-unsigned}

abbrev database : JwtTunnelConfig
database = record { id = []; protocol = no_protocol; remote = codes "db"; port = 5432 }

abbrev no_duration : Text → Option ℕ
no_duration s = none

-- What follows an argument on its line is read as a directive.
one_line :
    unmarshal_caddyfile no_duration
      ((codes "prefix" ∷ codes "/v1" ∷ codes "mask_frame" ∷ []) ∷ [])
      no_server_config
    ≡ ok (record no_server_config { path_prefix = codes "v1"; websocket_mask_frame = true })
unfolding unmarshal_caddyfile then_lines read_line directive bare_directive directive_of text_eq
    trim_prefix has_prefix
one_line = refl

mode_missing :
    unmarshal_caddyfile no_duration ((codes "mode" ∷ []) ∷ []) no_server_config
    ≡ err missing_argument
unfolding unmarshal_caddyfile then_lines read_line directive bare_directive directive_of text_eq
mode_missing = refl

-- There is no directive for the secret that the tokens are signed with.
jwt_secret_unrecognized :
    unmarshal_caddyfile no_duration ((codes "jwt_secret" ∷ codes "s" ∷ []) ∷ []) no_server_config
    ≡ err (unrecognized_directive (codes "jwt_secret"))
unfolding unmarshal_caddyfile then_lines read_line directive directive_of text_eq
jwt_secret_unrecognized = refl

abbrev ws_block : List (List Text)
ws_block = (codes "mode" ∷ codes "ws" ∷ []) ∷ []

abbrev ws_module : ServerConfig
ws_module = record no_server_config { websocket_protocol = codes "ws" }

ws_block-ws_module : unmarshal_caddyfile no_duration ws_block no_server_config ≡ ok ws_module
unfolding unmarshal_caddyfile then_lines read_line directive directive_of text_eq
ws_block-ws_module = refl

-- The library reads every token, and found no valid signature.
abbrev read_token : Text → Option Token
read_token token = some (record { is_hs256 = true; claims = database })

abbrev no_signature : Text → (Token → Option Text) → Option (Token × Bool)
no_signature token key = none

unmarshal_caddyfile-unsigned_example :
    parse_jwt_claims read_token no_signature
      (startup_config (with_default_mode ws_module))
      (codes "forged")
    ≡ check_method (read_token (codes "forged"))
unmarshal_caddyfile-unsigned_example =
    unmarshal_caddyfile-unsigned no_duration read_token no_signature ws_block ws_module
      (codes "forged") ws_block-ws_module
