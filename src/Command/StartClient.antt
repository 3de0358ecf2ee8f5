-- ===== src/Command/StartClient.antt =====
-- cmd/warpstream/main.go: startClient.
use warp_stream.Base.{
  ℕ, Bool, true, false, Option, none, some, List, [], ◌∷◌, ◌++◌, if◌then◌else◌, Text,
}
use warp_stream.Base.Monad.{Result, ok, err}
use warp_stream.Protocol.{LocalToRemote}
use warp_stream.Client.Arguments.{ArgumentError, parse_tunnel_arg}
use warp_stream.Server.Restrictions.{is_empty}
use warp_stream.Command.Config.{ClientConfig}

-- A tunnel that a goroutine was started for.
pub data Started : Type 0 where
  forward reverse_tunnel : LocalToRemote → Started

-- How startClient goes on: it returns an error, which ends the program, or waits for ever.
pub data Ending : Type 0 where
  bad_argument : ArgumentError → Ending
  no_tunnels waits : Ending

unfoldable pub end_with : List Started → List Started × Ending
end_with started = (started, if is_empty started then no_tunnels else waits)

-- The two loops; what was started stays started when a later argument is wrong.
abbrev pub started_by : Bool → LocalToRemote → Started
started_by false ltr = forward ltr
started_by true rtr = reverse_tunnel rtr

unfoldable pub after_argument :
    Bool
    → Result ArgumentError LocalToRemote
    → List Started × Option ArgumentError
    → List Started × Option ArgumentError
after_argument reverse (err e) rest = ([], some e)
after_argument reverse (ok tunnel) (started, failure) =
    (started_by reverse tunnel ∷ started, failure)

unfoldable pub ending_of :
    List Started × Option ArgumentError
    → List Started × Option ArgumentError
    → List Started × Ending
ending_of (locals, some e) rest = (locals, bad_argument e)
ending_of (locals, none) (remotes, some e) = (locals ++ remotes, bad_argument e)
ending_of (locals, none) (remotes, none) = end_with (locals ++ remotes)

module _ (parse_duration : Text → Option ℕ) where
  unfoldable pub start_arguments : Bool → List Text → List Started × Option ArgumentError
  start_arguments reverse [] = ([], none)
  start_arguments reverse (a ∷ rest) =
      after_argument reverse (parse_tunnel_arg parse_duration a reverse)
        (start_arguments reverse rest)

  -- startClient: the tunnels that it starts, and how it goes on.
  unfoldable pub start_client : ClientConfig → List Started × Ending
  start_client config =
      ending_of (start_arguments false config.local_to_remote)
        (start_arguments true config.remote_to_local)
