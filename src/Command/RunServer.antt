-- ===== src/Command/RunServer.antt =====
-- cmd/warpstream/main.go: the server command, and the configuration that a file gives it
-- (pkg/server/server.go).
use warp_stream.Base.{Option, none, some, if◌then◌else◌, Text, codes}
use warp_stream.Server.Restrictions.{is_empty}
use warp_stream.Server.Startup.{Config}
use warp_stream.Command.Config.{ServerConfig, no_server_config, FullConfig}
use warp_stream.Command.Context.{
  Context, or_else, text_flag, texts_flag, duration_flag, bool_flag, uint_flag, last_argument,
}

-- What NewServer and ServeHTTP read of it.
abbrev pub startup_config : ServerConfig → Config
startup_config config = record {
  path_prefix = config.path_prefix;
  jwt_secret = config.jwt_secret;
  insecure_no_jwt_validation = config.insecure_no_jwt_validation;
  restrict_to = config.restrict_to;
  restrict_http_upgrade_path_prefix = config.restrict_http_upgrade_path_prefix;
  restrict_config = config.restrict_config;
  websocket_protocol = config.websocket_protocol;
}

-- applyServerFlagOverrides.
unfoldable pub apply_server_flag_overrides : Context → ServerConfig → Text → ServerConfig
apply_server_flag_overrides c config listen_addr = record {
  listen_addr = or_else listen_addr config.listen_addr;
  path_prefix = text_flag c (codes "http-upgrade-path-prefix") config.path_prefix;
  jwt_secret = text_flag c (codes "jwt-secret") config.jwt_secret;
  insecure_no_jwt_validation =
      bool_flag c (codes "insecure-no-jwt-validation") config.insecure_no_jwt_validation;
  socket_so_mark = uint_flag c (codes "socket-so-mark") config.socket_so_mark;
  websocket_ping_frequency =
      duration_flag c (codes "websocket-ping-frequency") config.websocket_ping_frequency;
  websocket_mask_frame = bool_flag c (codes "websocket-mask-frame") config.websocket_mask_frame;
  dns_resolver = texts_flag c (codes "dns-resolver") config.dns_resolver;
  dns_resolver_prefer_ipv4 =
      bool_flag c (codes "dns-resolver-prefer-ipv4") config.dns_resolver_prefer_ipv4;
  restrict_to = texts_flag c (codes "restrict-to") config.restrict_to;
  restrict_http_upgrade_path_prefix =
      texts_flag c (codes "restrict-http-upgrade-path-prefix")
        config.restrict_http_upgrade_path_prefix;
  restrict_config = text_flag c (codes "restrict-config") config.restrict_config;
  tls = bool_flag c (codes "tls") config.tls;
  tls_certificate = text_flag c (codes "tls-certificate") config.tls_certificate;
  tls_private_key = text_flag c (codes "tls-private-key") config.tls_private_key;
  tls_client_ca_certs = text_flag c (codes "tls-client-ca-certs") config.tls_client_ca_certs;
  http_proxy = text_flag c (codes "http-proxy") config.http_proxy;
  http_proxy_login = text_flag c (codes "http-proxy-login") config.http_proxy_login;
  http_proxy_password = text_flag c (codes "http-proxy-password") config.http_proxy_password;
  remote_to_local_server_idle_timeout =
      duration_flag c (codes "remote-to-local-server-idle-timeout")
        config.remote_to_local_server_idle_timeout;
  websocket_protocol = text_flag c (codes "mode") config.websocket_protocol;
}

abbrev pub default_listen_addr : Text
default_listen_addr = codes "ws://0.0.0.0:8080"

-- The server section of the file that --config names; `load` is loadConfigFile, and an error of it is
-- ignored.
unfoldable pub server_of : Option FullConfig → ServerConfig
server_of none = no_server_config
server_of (some cfg) = elim cfg.server [ none ↦ no_server_config | some section ↦ section ]

unfoldable pub server_section : (Text → Option FullConfig) → Text → ServerConfig
server_section load path = if is_empty path then no_server_config else server_of (load path)

-- runServer: the configuration with which it calls startServer.
unfoldable pub run_server : (Text → Option FullConfig) → Context → ServerConfig
run_server load c =
    let config =
      apply_server_flag_overrides c (server_section load (c.string (codes "config")))
        (last_argument c.args) in
    record config { listen_addr = or_else config.listen_addr default_listen_addr }
