-- ===== src/Command/RunClient.antt =====
-- cmd/warpstream/main.go: the client command, startClient, and the program without a command; the
-- configuration is that of pkg/client/client.go.
use warp_stream.Base.{Option, none, some, List, [], ◌∷◌, if◌then◌else◌, Text, codes, cut, text_eq}
use warp_stream.Client.Headers.{Fields, add_line}
use warp_stream.Server.Restrictions.{is_empty}
use warp_stream.Command.Context.{
  Context, flag_or_file, or_else, text_flag, texts_flag, duration_flag, bool_flag, uint_flag,
  last_argument,
}
use warp_stream.Command.Config.{ClientConfig, no_client_config, ServerConfig, FullConfig}

-- applyClientFlagOverrides.
unfoldable pub apply_client_flag_overrides : Context → ClientConfig → Text → Fields → ClientConfig
apply_client_flag_overrides c config server_url headers = record {
  server_url = or_else server_url config.server_url;
  path_prefix = text_flag c (codes "http-upgrade-path-prefix") config.path_prefix;
  jwt_secret = text_flag c (codes "jwt-secret") config.jwt_secret;
  headers = flag_or_file c (codes "header") (is_empty config.headers) headers config.headers;
  mask_frame = bool_flag c (codes "websocket-mask-frame") config.mask_frame;
  ping_frequency = duration_flag c (codes "websocket-ping-frequency") config.ping_frequency;
  tls_verify_cert = bool_flag c (codes "tls-verify-certificate") config.tls_verify_cert;
  tls_client_cert = text_flag c (codes "tls-certificate") config.tls_client_cert;
  tls_client_key = text_flag c (codes "tls-private-key") config.tls_client_key;
  tls_sni_override = text_flag c (codes "tls-sni-override") config.tls_sni_override;
  tls_sni_disable = bool_flag c (codes "tls-sni-disable") config.tls_sni_disable;
  tls_ech_enable = bool_flag c (codes "tls-ech-enable") config.tls_ech_enable;
  socket_so_mark = uint_flag c (codes "socket-so-mark") config.socket_so_mark;
  connection_min_idle = uint_flag c (codes "connection-min-idle") config.connection_min_idle;
  connection_retry_max_backoff =
      duration_flag c (codes "connection-retry-max-backoff") config.connection_retry_max_backoff;
  reverse_tunnel_connection_retry_max_backoff =
      duration_flag c (codes "reverse-tunnel-connection-retry-max-backoff")
        config.reverse_tunnel_connection_retry_max_backoff;
  http_proxy = text_flag c (codes "http-proxy") config.http_proxy;
  http_proxy_login = text_flag c (codes "http-proxy-login") config.http_proxy_login;
  http_proxy_password = text_flag c (codes "http-proxy-password") config.http_proxy_password;
  http_upgrade_credentials =
      text_flag c (codes "http-upgrade-credentials") config.http_upgrade_credentials;
  http_headers_file = text_flag c (codes "http-headers-file") config.http_headers_file;
  dns_resolver = texts_flag c (codes "dns-resolver") config.dns_resolver;
  dns_resolver_prefer_ipv4 =
      bool_flag c (codes "dns-resolver-prefer-ipv4") config.dns_resolver_prefer_ipv4;
  local_to_remote = texts_flag c (codes "local-to-remote") config.local_to_remote;
  remote_to_local = texts_flag c (codes "remote-to-local") config.remote_to_local;
  websocket_protocol = text_flag c (codes "mode") config.websocket_protocol;
}

-- The loop over --header.
unfoldable pub header_flags : List Text → Fields → Fields
header_flags [] m = m
header_flags (h ∷ hs) m = header_flags hs (add_line (cut (b':' ∷ []) h) m)

unfoldable pub client_of : Option FullConfig → ClientConfig
client_of none = no_client_config
client_of (some cfg) = elim cfg.client [ none ↦ no_client_config | some section ↦ section ]

unfoldable pub client_section : (Text → Option FullConfig) → Text → ClientConfig
client_section load path = if is_empty path then no_client_config else client_of (load path)

-- runClient: the configuration with which it calls startClient; none without a server's URL.
unfoldable pub with_server_url : ClientConfig → Option ClientConfig
with_server_url config = if is_empty config.server_url then none else some config

unfoldable pub run_client : (Text → Option FullConfig) → Context → Option ClientConfig
run_client load c = with_server_url (
    apply_client_flag_overrides c (client_section load (c.string (codes "config")))
      (last_argument c.args) (header_flags (c.string_slice (codes "header")) []))

-- The program without a command.
pub data Launch : Type 0 where
  shows_help unreadable mismatch : Launch
  starts_client : ClientConfig → Launch
  starts_server : ServerConfig → Launch

unfoldable pub start_server_section : FullConfig → Option ServerConfig → Launch
start_server_section cfg none = mismatch
start_server_section cfg (some section) =
    if text_eq cfg.mode (codes "server") then starts_server section else mismatch

unfoldable pub start_section : FullConfig → Option ClientConfig → Launch
start_section cfg none = start_server_section cfg cfg.server
start_section cfg (some section) =
    if text_eq cfg.mode (codes "client")
    then starts_client section
    else start_server_section cfg cfg.server

unfoldable pub start_file : Option FullConfig → Launch
start_file none = unreadable
start_file (some cfg) = start_section cfg cfg.client

unfoldable pub run_app : (Text → Option FullConfig) → Context → Launch
run_app load c =
    let path = c.string (codes "config") in
    if is_empty path then shows_help else start_file (load path)
