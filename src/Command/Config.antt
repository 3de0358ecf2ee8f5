-- ===== src/Command/Config.antt =====
-- The configurations of the two commands (pkg/client/client.go, pkg/server/server.go) and of a
-- configuration file (cmd/warpstream/main.go).
use warp_stream.Base.{ℕ, Bool, false, Option, List, [], Text}
use warp_stream.Client.Headers.{Fields}
use warp_stream.Command.Context.{or_else}

-- Config of the client.
pub record ClientConfig : Type 0 where
  pub server_url : Text
  pub path_prefix : Text
  pub jwt_secret : Text
  pub headers : Fields
  pub mask_frame : Bool
  pub ping_frequency : ℕ
  pub tls_verify_cert : Bool
  pub tls_client_cert : Text
  pub tls_client_key : Text
  pub tls_sni_override : Text
  pub tls_sni_disable : Bool
  pub tls_ech_enable : Bool
  pub socket_so_mark : ℕ
  pub connection_min_idle : ℕ
  pub connection_retry_max_backoff : ℕ
  pub reverse_tunnel_connection_retry_max_backoff : ℕ
  pub http_proxy : Text
  pub http_proxy_login : Text
  pub http_proxy_password : Text
  pub http_upgrade_credentials : Text
  pub http_headers_file : Text
  pub dns_resolver : List Text
  pub dns_resolver_prefer_ipv4 : Bool
  pub local_to_remote : List Text
  pub remote_to_local : List Text
  pub websocket_protocol : Text

-- The zero value.
abbrev pub no_client_config : ClientConfig
no_client_config = record {
  server_url = [];
  path_prefix = [];
  jwt_secret = [];
  headers = [];
  mask_frame = false;
  ping_frequency = 0;
  tls_verify_cert = false;
  tls_client_cert = [];
  tls_client_key = [];
  tls_sni_override = [];
  tls_sni_disable = false;
  tls_ech_enable = false;
  socket_so_mark = 0;
  connection_min_idle = 0;
  connection_retry_max_backoff = 0;
  reverse_tunnel_connection_retry_max_backoff = 0;
  http_proxy = [];
  http_proxy_login = [];
  http_proxy_password = [];
  http_upgrade_credentials = [];
  http_headers_file = [];
  dns_resolver = [];
  dns_resolver_prefer_ipv4 = false;
  local_to_remote = [];
  remote_to_local = [];
  websocket_protocol = [];
}

-- Config of the server.
pub record ServerConfig : Type 0 where
  pub listen_addr : Text
  pub path_prefix : Text
  pub jwt_secret : Text
  pub insecure_no_jwt_validation : Bool
  pub socket_so_mark : ℕ
  pub websocket_ping_frequency : ℕ
  pub websocket_mask_frame : Bool
  pub dns_resolver : List Text
  pub dns_resolver_prefer_ipv4 : Bool
  pub restrict_to : List Text
  pub restrict_http_upgrade_path_prefix : List Text
  pub restrict_config : Text
  pub tls : Bool
  pub tls_certificate : Text
  pub tls_private_key : Text
  pub tls_client_ca_certs : Text
  pub http_proxy : Text
  pub http_proxy_login : Text
  pub http_proxy_password : Text
  pub remote_to_local_server_idle_timeout : ℕ
  pub websocket_protocol : Text

-- The zero value.
abbrev pub no_server_config : ServerConfig
no_server_config = record {
  listen_addr = [];
  path_prefix = [];
  jwt_secret = [];
  insecure_no_jwt_validation = false;
  socket_so_mark = 0;
  websocket_ping_frequency = 0;
  websocket_mask_frame = false;
  dns_resolver = [];
  dns_resolver_prefer_ipv4 = false;
  restrict_to = [];
  restrict_http_upgrade_path_prefix = [];
  restrict_config = [];
  tls = false;
  tls_certificate = [];
  tls_private_key = [];
  tls_client_ca_certs = [];
  http_proxy = [];
  http_proxy_login = [];
  http_proxy_password = [];
  remote_to_local_server_idle_timeout = 0;
  websocket_protocol = [];
}

-- UnmarshalYAML, behind the reading; `legacy` is the field restrict_http_upgrade_path_prefix.
unfoldable pub with_legacy_prefix : Text → ServerConfig → ServerConfig
with_legacy_prefix legacy config = record config { path_prefix = or_else config.path_prefix legacy }

-- FullConfig.
pub record FullConfig : Type 0 where
  pub mode : Text
  pub client : Option ClientConfig
  pub server : Option ServerConfig
