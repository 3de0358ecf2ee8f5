-- ===== src/Server/Startup.antt =====
-- pkg/server/server.go: the configuration and the rules that NewServer makes of it.
pub mod DefaultRules
use warp_stream.Base.{
  Option, none, some, List, [], ◌∷◌, ◌++◌, Bool, true, false, ◌&&◌, Text, codes, text_eq,
  trim_prefix, parse_port, if◌then◌else◌,
}
use warp_stream.Base.Net.{split_host_port}
use warp_stream.Server.Restrictions.{Regexp, MatchConfig, AllowConfig, RestrictionsRules, is_empty}

-- The fields of Config that this code reads.
pub record Config : Type 0 where
  pub path_prefix : Text
  pub jwt_secret : Text
  pub insecure_no_jwt_validation : Bool
  pub restrict_to : List Text
  pub restrict_http_upgrade_path_prefix : List Text
  pub restrict_config : Text
  pub websocket_protocol : Text

abbrev pub is_ws : Config → Bool
is_ws config = text_eq config.websocket_protocol (codes "ws")

abbrev pub match_any : MatchConfig
match_any = record {
  any = true;
  path_prefix = none;
  authorization = none;
  client_common_name = none;
}

-- The entry for one host and port; the pattern is the quoted host between `^` and `$`.
unfoldable pub allow_target : Text → Text → AllowConfig
allow_target host port = record {
  tunnel = some (record {
    protocol = [];
    port = record { min_port = parse_port port; max_port = parse_port port } ∷ [];
    host = some (λ s. text_eq s host);
    cidr = [];
  });
  reverse_tunnel = none;
}

-- The loop over RestrictTo; an entry that does not split is skipped.
unfoldable pub add_target : Option (Text × Text) → List AllowConfig → List AllowConfig
add_target none rest = rest
add_target (some (host, port)) rest = allow_target host port ∷ rest

unfoldable pub allow_targets : List Text → List AllowConfig
allow_targets [] = []
allow_targets (r ∷ rs) = add_target (split_host_port r) (allow_targets rs)

abbrev pub allow_all : AllowConfig
allow_all = record {
  tunnel = some (record { protocol = []; port = []; host = none; cidr = [] });
  reverse_tunnel =
      some (record { protocol = []; port = []; port_mapping = []; cidr = []; unix_path = none });
}

unfoldable pub default_allows : List Text → List AllowConfig
default_allows targets = if is_empty targets then allow_all ∷ [] else allow_targets targets

-- Below, `compile` is regexp.Compile and `load_restrictions` reads and parses a policy file.
module _ (compile : Text → Option Regexp) where
  -- The loop over RestrictHttpUpgradePathPrefix.
  unfoldable pub prefix_matches : List Text → List MatchConfig
  prefix_matches [] = []
  prefix_matches (p ∷ ps) =
      let rest = prefix_matches ps in
      elim (compile (codes "^/" ++ trim_prefix (codes "/") p)) [
        | none ↦ rest
        | some re ↦
            record {
              any = false;
              path_prefix = some re;
              authorization = none;
              client_common_name = none;
            }
            ∷ rest
      ]

  unfoldable pub default_matches : List Text → List MatchConfig
  default_matches prefixes = if is_empty prefixes then match_any ∷ [] else prefix_matches prefixes

  unfoldable pub default_rules : Config → RestrictionsRules
  default_rules config = record {
    restrictions =
        record {
          name = codes "Default Restrictions";
          match = default_matches config.restrict_http_upgrade_path_prefix;
          allow = default_allows config.restrict_to;
        }
        ∷ [];
  }

module _ (compile : Text → Option Regexp)
    (load_restrictions : Text → Option RestrictionsRules) where
  unfoldable pub loaded_rules : Config → Option RestrictionsRules
  loaded_rules config =
      if is_empty config.restrict_config then none else load_restrictions config.restrict_config

  -- The rules that NewServer keeps.
  unfoldable pub or_default : Config → Option RestrictionsRules → Option RestrictionsRules
  or_default config (some rules) = some rules
  or_default config none =
      if is_empty config.restrict_to && is_empty config.restrict_http_upgrade_path_prefix
      then none
      else some (default_rules compile config)

  unfoldable pub new_server_rules : Config → Option RestrictionsRules
  new_server_rules config = or_default config (loaded_rules config)
