-- ===== src/Command/Started.antt =====
-- cmd/warpstream/main.go: which tunnels startClient starts.
use warp_stream.Base.{
  ℕ, ◌≡◌, refl, sym, ap, subst, ◌∙◌, Bool, true, false, Option, none, some, List, [], ◌∷◌, ◌++◌,
  map, append-nil, append_assoc, if◌then◌else◌, Text,
}
use warp_stream.Base.Monad.{Result, ok, err}
use warp_stream.Protocol.{LocalToRemote}
use warp_stream.Client.Arguments.{ArgumentError, parse_tunnel_arg}
use warp_stream.Server.Restrictions.{is_empty}
use warp_stream.Command.Config.{ClientConfig}
use warp_stream.Command.StartClient.{
  Started, started_by, Ending, bad_argument, no_tunnels, waits, end_with, after_argument, ending_of,
  start_arguments, start_client,
}

-- An argument with its direction.
abbrev pub Job : Type 0
Job = Bool × Text

abbrev pub jobs_of : Bool → List Text → List Job
jobs_of reverse args = map (λ a. (reverse, a)) args

module _ (parse_duration : Text → Option ℕ) where
  abbrev pub IsTunnelOf : Job → Started → Type 0
  IsTunnelOf (reverse, a) s =
      (tunnel : LocalToRemote) × (parse_tunnel_arg parse_duration a reverse ≡ ok tunnel)
      × (s ≡ started_by reverse tunnel)

  -- Each argument is right, and its tunnel is in the list.
  abbrev pub AllStarted : List Job → List Started → Type 0
  AllStarted [] [] = Unit
  AllStarted [] (s ∷ ss) = ⊥
  AllStarted (j ∷ js) [] = ⊥
  AllStarted (j ∷ js) (s ∷ ss) = IsTunnelOf j s × AllStarted js ss

  -- What is left when the loops stop: nothing, or a wrong argument first.
  abbrev pub StopsAt : List Job → Option ArgumentError → Type 0
  StopsAt [] none = Unit
  StopsAt [] (some e) = ⊥
  StopsAt (j ∷ js) none = ⊥
  StopsAt ((reverse, a) ∷ js) (some e) = parse_tunnel_arg parse_duration a reverse ≡ err e

  abbrev pub Splits : List Job → List Started → Option ArgumentError → Type 0
  Splits jobs started failure =
      (before : List Job) × (rest : List Job) × (jobs ≡ before ++ rest)
      × AllStarted before started
      × StopsAt rest failure

  after_argument-Splits :
      (reverse : Bool) (a : Text) (js : List Job) (r : Result ArgumentError LocalToRemote)
      (more : List Started × Option ArgumentError)
      → parse_tunnel_arg parse_duration a reverse ≡ r
      → Splits js more.0 more.1
      → Splits
          ((reverse, a) ∷ js)
          (after_argument reverse r more).0
          (after_argument reverse r more).1
  unfolding after_argument
  after_argument-Splits reverse a js (err x) more e h = ([], (reverse, a) ∷ js, refl, tt, e)
  after_argument-Splits reverse a js (ok tunnel) (started, failure) e h =
      let (before, rest, split, parsed, stops) = h in
      (
        (reverse, a) ∷ before,
        rest,
        ap (λ ks. (reverse, a) ∷ ks) split,
        ((tunnel, e, refl), parsed),
        stops,
      )

  start_arguments-Splits :
      (reverse : Bool) (args : List Text)
      → Splits
          (jobs_of reverse args)
          (start_arguments parse_duration reverse args).0
          (start_arguments parse_duration reverse args).1
  unfolding start_arguments
  start_arguments-Splits reverse [] = ([], [], refl, tt, tt)
  start_arguments-Splits reverse (a ∷ args) =
      after_argument-Splits reverse a (jobs_of reverse args)
        (parse_tunnel_arg parse_duration a reverse) (start_arguments parse_duration reverse args)
        refl (start_arguments-Splits reverse args)

  AllStarted-append :
      (js ks : List Job) (ss ts : List Started)
      → AllStarted js ss
      → AllStarted ks ts
      → AllStarted (js ++ ks) (ss ++ ts)
  AllStarted-append [] ks [] ts h k = k
  AllStarted-append [] ks (s ∷ ss) ts h k = absurd h
  AllStarted-append (j ∷ js) ks [] ts h k = absurd h
  AllStarted-append (j ∷ js) ks (s ∷ ss) ts h k = (h.0, AllStarted-append js ks ss ts h.1 k)

  -- How it goes on, by what stopped the loops.
  abbrev pub EndsAs : List Started → Option ArgumentError → Ending → Type 0
  EndsAs started (some e) ending = ending ≡ bad_argument e
  EndsAs started none ending = ending ≡ (if is_empty started then no_tunnels else waits)

  abbrev pub IsRun : List Job → List Started × Ending → Type 0
  IsRun jobs (started, ending) =
      (failure : Option ArgumentError) × Splits jobs started failure × EndsAs started failure ending

  StopsAt-append :
      (rest ks : List Job) (x : ArgumentError)
      → StopsAt rest (some x)
      → StopsAt (rest ++ ks) (some x)
  StopsAt-append [] ks x h = absurd h
  StopsAt-append (j ∷ rest) ks x h = h

  -- Loops that no argument stopped.
  all_started : (js : List Job) (ss : List Started) → Splits js ss none → AllStarted js ss
  all_started js ss (before, [], split, parsed, _) =
      subst (λ ks. AllStarted ks ss) (sym (split ∙ append-nil before)) parsed
  all_started js ss (before, j ∷ rest, split, parsed, stops) = absurd stops

  ending_of-IsRun :
      (js ks : List Job) (l r : List Started × Option ArgumentError)
      → Splits js l.0 l.1
      → Splits ks r.0 r.1
      → IsRun (js ++ ks) (ending_of l r)
  unfolding ending_of end_with
  ending_of-IsRun js ks (ls, some x) r h k =
      let (before, rest, split, parsed, stops) = h in
      (
        some x,
        (
          before,
          rest ++ ks,
          ap (λ zs. zs ++ ks) split ∙ append_assoc before rest ks,
          parsed,
          StopsAt-append rest ks x stops,
        ),
        refl,
      )
  ending_of-IsRun js ks (ls, none) (rs, some x) h k =
      let (before, rest, split, parsed, stops) = k in
      (
        some x,
        (
          js ++ before,
          rest,
          ap (λ zs. js ++ zs) split ∙ sym (append_assoc js before rest),
          AllStarted-append js before ls rs (all_started js ls h) parsed,
          stops,
        ),
        refl,
      )
  ending_of-IsRun js ks (ls, none) (rs, none) h k = (
    none,
    (
      js ++ ks,
      [],
      sym (append-nil (js ++ ks)),
      AllStarted-append js ks ls rs (all_started js ls h) (all_started ks rs k),
      tt,
    ),
    refl,
  )

  -- startClient starts the tunnels of the -L arguments and then of the -R arguments, in their order, up
  -- to the first that is wrong, if any. Then it returns that argument's error, which ends the program
  -- together with the tunnels started before; with no wrong argument it waits, or returns an error if
  -- there was no tunnel.
  pub start_client-IsRun :
      (config : ClientConfig)
      → IsRun
          (jobs_of false config.local_to_remote ++ jobs_of true config.remote_to_local)
          (start_client parse_duration config)
  unfolding start_client
  start_client-IsRun config =
      ending_of-IsRun (jobs_of false config.local_to_remote) (jobs_of true config.remote_to_local)
        (start_arguments parse_duration false config.local_to_remote)
        (start_arguments parse_duration true config.remote_to_local)
        (start_arguments-Splits false config.local_to_remote)
        (start_arguments-Splits true config.remote_to_local)
