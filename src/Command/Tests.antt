-- ===== src/Command/Tests.antt =====
-- cmd/warpstream/main.go on small inputs.
use warp_stream.Base.{
  ℕ, ◌≡◌, refl, true, false, Option, none, some, [], ◌∷◌, ◌++◌, Text, codes, Bytes, text_eq,
  if◌then◌else◌,
}
use warp_stream.Protocol.{no_protocol, JwtTunnelConfig}
use warp_stream.Server.Restrictions.{Regexp, RestrictionsRules, validate}
use warp_stream.Server.Startup.{new_server_rules}
use warp_stream.Command.Context.{Context, flag_or_file, or_else}
use warp_stream.Command.Config.{ClientConfig, no_client_config, FullConfig}
use warp_stream.Command.RunServer.{startup_config, run_server}
use warp_stream.Command.RunClient.{
  apply_client_flag_overrides, client_of, client_section, starts_client, start_section, start_file,
  run_app,
}
use warp_stream.Command.StartClient.{start_client}
use warp_stream.Command.Policy.{run_server-accepts_all}
use warp_stream.Command.Started.{IsRun, jobs_of, start_client-IsRun}

-- Only --config is given; the other flags have their defaults.
abbrev only_config : Context
only_config = record {
  is_set = λ name. text_eq name (codes "config");
  string = λ name.
      if text_eq name (codes "config")
      then codes "c.yaml"
      else if text_eq name (codes "http-upgrade-path-prefix")
      then codes "v1"
      else [];
  bool = λ name. false;
  duration = λ name. 0;
  uint = λ name. 0;
  string_slice = λ name. [];
  args = codes "wss://tunnel" ∷ [];
}

abbrev no_file : Text → Option FullConfig
no_file path = none

abbrev database : JwtTunnelConfig
database = record { id = []; protocol = no_protocol; remote = codes "db"; port = 5432 }

abbrev no_ip : Text → Option Bytes
no_ip s = none

abbrev no_regexp : Text → Option Regexp
no_regexp s = none

abbrev no_policy : Text → Option RestrictionsRules
no_policy s = none

run_server-accepts_all_example :
    validate no_ip
      (new_server_rules no_regexp no_policy (startup_config (run_server no_file only_config)))
      database
      []
      []
      []
    ≡ true
unfolding text_eq
run_server-accepts_all_example =
    run_server-accepts_all no_ip no_regexp no_policy no_file only_config database [] [] [] refl refl
      refl refl

-- A client section without a path prefix: the command takes the flag's default, and the program without
-- a command keeps the empty prefix.
abbrev client_file : Text → Option FullConfig
client_file path = some (record {
  mode = codes "client";
  client = some (record no_client_config { server_url = codes "wss://tunnel" });
  server = none;
})

bare_prefix :
    run_app client_file only_config
    ≡ starts_client (record no_client_config { server_url = codes "wss://tunnel" })
unfolding run_app start_file start_section text_eq
bare_prefix = refl

abbrev from_file : ClientConfig
from_file =
    apply_client_flag_overrides only_config (client_section client_file (codes "c.yaml")) [] []

command_prefix : from_file.path_prefix ≡ codes "v1"
unfolding apply_client_flag_overrides client_section client_of flag_or_file or_else text_eq
command_prefix = refl

-- The second argument has no scheme: the tunnel of the first was started before.
abbrev one_bad : ClientConfig
one_bad = record no_client_config {
  local_to_remote = codes "tcp://5000:db:5432" ∷ codes "nothing" ∷ [];
  remote_to_local = codes "tcp://6000:web:80" ∷ [];
}

abbrev no_duration : Text → Option ℕ
no_duration s = none

start_client-IsRun_example :
    IsRun no_duration
      (jobs_of false one_bad.local_to_remote ++ jobs_of true one_bad.remote_to_local)
      (start_client no_duration one_bad)
start_client-IsRun_example = start_client-IsRun no_duration one_bad
