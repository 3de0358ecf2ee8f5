-- ===== src/Command/Policy.antt =====
-- cmd/warpstream/main.go: runServer with a configuration file that cannot be read.
use warp_stream.Base.{◌≡◌, refl, true, Bool-cases, inl, inr, Option, none, [], Text, codes, Bytes}
use warp_stream.Protocol.{JwtTunnelConfig}
use warp_stream.Server.Restrictions.{Regexp, RestrictionsRules, is_empty, validate}
use warp_stream.Server.Startup.{loaded_rules, or_default, new_server_rules}
use warp_stream.Command.Context.{Context, flag_or_file}
use warp_stream.Command.Config.{no_server_config, FullConfig}
use warp_stream.Command.RunServer.{
  startup_config, apply_server_flag_overrides, server_of, server_section, run_server,
}

-- A zero value gives way to the flag, given or not.
flag_or_file-missing {ℓ} :
    {A : Type ℓ} (c : Context) (name : Text) (flag file : A)
    → flag_or_file c name true flag file ≡ flag
unfolding flag_or_file
flag_or_file-missing c name flag file = elim (Bool-cases (c.is_set name)) [
  | inl given ↦ rw given refl
  | inr absent ↦ rw absent refl
]

-- No file, and one that cannot be read, are the same.
server_section-unreadable :
    (load : Text → Option FullConfig) (path : Text)
    → load path ≡ none
    → server_section load path ≡ no_server_config
unfolding server_section server_of
server_section-unreadable load path e = elim (Bool-cases (is_empty path)) [
  | inl absent ↦ rw absent refl
  | inr named ↦ rw (named, e) refl
]

-- A server is started with a configuration file that cannot be read, or with none, and without the
-- flags --restrict-to, --restrict-http-upgrade-path-prefix and --restrict-config: it starts, and its
-- rules accept every tunnel.
pub run_server-accepts_all :
    (parse_ip : Text → Option Bytes) (compile : Text → Option Regexp)
    (load_restrictions : Text → Option RestrictionsRules) (load : Text → Option FullConfig)
    (c : Context) (claims : JwtTunnelConfig) (path auth common_name : Text)
    → load (c.string (codes "config")) ≡ none
    → c.string_slice (codes "restrict-to") ≡ []
    → c.string_slice (codes "restrict-http-upgrade-path-prefix") ≡ []
    → c.string (codes "restrict-config") ≡ []
    → validate parse_ip
        (new_server_rules compile load_restrictions (startup_config (run_server load c)))
        claims
        path
        auth
        common_name
      ≡ true
unfolding run_server apply_server_flag_overrides new_server_rules or_default loaded_rules validate
run_server-accepts_all parse_ip compile load_restrictions load c claims path auth common_name unread
      targets prefixes policy =
    rw
      (
        server_section-unreadable load (c.string (codes "config")) unread,
        flag_or_file-missing c (codes "restrict-to") (c.string_slice (codes "restrict-to")) [],
        flag_or_file-missing c (codes "restrict-http-upgrade-path-prefix")
            (c.string_slice (codes "restrict-http-upgrade-path-prefix")) [],
        flag_or_file-missing c (codes "restrict-config") (c.string (codes "restrict-config")) [],
        targets,
        prefixes,
        policy,
      )
      refl
