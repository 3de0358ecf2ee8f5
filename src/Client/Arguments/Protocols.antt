-- ===== src/Client/Arguments/Protocols.antt =====
-- pkg/client/config.go: which protocol an argument asks for.
use warp_stream.Base.{
  ℕ, ◌≡◌, refl, subst, Bool, true, false, not, ◌&&◌, Bool-cases, inl, inr, Option, none, some, [],
  ◌∷◌, Text, codes, text_eq, cut, if◌then◌else◌, arith,
}
use warp_stream.Base.Monad.{Result, ok}
use warp_stream.Protocol.{LocalProtocol, LocalToRemote, no_protocol}
use warp_stream.Server.Restrictions.{is_reverse}
use warp_stream.Server.Dispatch.{is_forward}
use warp_stream.Server.Dispatch.Access.{protocol_count}
use warp_stream.Client.Query.{get_proxy_protocol, Options, key_and_value}
use warp_stream.Client.Arguments.{
  ArgumentError, Ends, stdio_argument, unix_argument, protocol_of, with_protocol, network_argument,
  parse_with, parse_split, parse_tunnel_arg, info_and_options,
}

-- One protocol is set; it is none of the reverse ones in an argument of -L, and none of the forward
-- ones in an argument of -R.
abbrev pub IsDirected : Bool → LocalProtocol → Type 0
IsDirected reverse p =
    (protocol_count p ≡ 1)
    × ((is_reverse p && not reverse) ≡ false)
    × ((is_forward p && reverse) ≡ false)

-- A branch of the switch is taken, or the branches behind it are looked at.
branch :
    (b reverse : Bool) (x p : LocalProtocol) (later : Option LocalProtocol)
    → IsDirected reverse x
    → (later ≡ some p → IsDirected reverse p)
    → Path (Option LocalProtocol) (if b then some x else later) (some p)
    → IsDirected reverse p
branch true reverse x p later here rest h = subst (IsDirected reverse) (unwrap h) here
  where
    unwrap : Path (Option LocalProtocol) (some x) (some p) → x ≡ p
    unwrap e = cc
branch false reverse x p later here rest h = rest h

module _ (parse_duration : Text → Option ℕ) where
  protocol_of-IsDirected :
      (scheme : Text) (reverse : Bool) (options : Options) (p : LocalProtocol)
      → protocol_of parse_duration scheme reverse options ≡ some p
      → IsDirected reverse p
  unfolding protocol_of is_reverse is_forward
  protocol_of-IsDirected scheme true options p =
      branch (text_eq scheme (codes "tcp")) true _ p _ (omega arith, refl, refl)
        (branch (text_eq scheme (codes "udp")) true _ p _ (omega arith, refl, refl)
          (branch (text_eq scheme (codes "socks5")) true _ p _ (omega arith, refl, refl)
            (branch (text_eq scheme (codes "http")) true _ p _ (omega arith, refl, refl)
              (branch (text_eq scheme (codes "tproxy+tcp")) true _ p _ (omega arith, refl, refl)
                (branch (text_eq scheme (codes "tproxy+udp")) true _ p _ (omega arith, refl, refl)
                  (λ e. cc))))))
  protocol_of-IsDirected scheme false options p =
      branch (text_eq scheme (codes "tcp")) false _ p _ (omega arith, refl, refl)
        (branch (text_eq scheme (codes "udp")) false _ p _ (omega arith, refl, refl)
          (branch (text_eq scheme (codes "socks5")) false _ p _ (omega arith, refl, refl)
            (branch (text_eq scheme (codes "http")) false _ p _ (omega arith, refl, refl)
              (branch (text_eq scheme (codes "tproxy+tcp")) false _ p _ (omega arith, refl, refl)
                (branch (text_eq scheme (codes "tproxy+udp")) false _ p _ (omega arith, refl, refl)
                  (λ e. cc))))))

  with_protocol-IsDirected :
      (scheme : Text) (reverse : Bool) (e : Ends) (o : Option LocalProtocol) (ltr : LocalToRemote)
      → ((p : LocalProtocol) → o ≡ some p → IsDirected reverse p)
      → with_protocol parse_duration scheme e o ≡ ok ltr
      → IsDirected reverse ltr.protocol
  with_protocol-IsDirected scheme reverse e none ltr f h = cc
  with_protocol-IsDirected scheme reverse e (some p) ltr f h =
      let same : p ≡ ltr.protocol = cc in subst (IsDirected reverse) same (f p refl)

  network_argument-IsDirected :
      (scheme : Text) (reverse : Bool) (options : Options) (o : Option Ends) (ltr : LocalToRemote)
      → network_argument parse_duration scheme reverse options o ≡ ok ltr
      → IsDirected reverse ltr.protocol
  unfolding network_argument
  network_argument-IsDirected scheme reverse options none ltr h = cc
  network_argument-IsDirected scheme reverse options (some e) ltr h =
      with_protocol-IsDirected scheme reverse e _ ltr
        (protocol_of-IsDirected scheme reverse options) h

ok_same :
    (x ltr : LocalToRemote) → Path (Result ArgumentError LocalToRemote) (ok x) (ok ltr) → x ≡ ltr
ok_same x ltr h = cc

abbrev stdio_protocol : Bool → LocalProtocol
stdio_protocol proxy = record no_protocol { stdio = some (record { proxy_protocol = proxy }) }

stdio-IsDirected : (reverse proxy : Bool) → IsDirected reverse (stdio_protocol proxy)
unfolding is_reverse is_forward
stdio-IsDirected reverse proxy = (omega arith, refl, refl)

stdio_argument-IsDirected :
    (reverse : Bool) (options : Options) (o : Option (Text × Text)) (ltr : LocalToRemote)
    → stdio_argument options o ≡ ok ltr
    → IsDirected reverse ltr.protocol
unfolding stdio_argument
stdio_argument-IsDirected reverse options none ltr h = cc
stdio_argument-IsDirected reverse options (some t) ltr h =
    subst (λ (l : LocalToRemote). IsDirected reverse l.protocol) (ok_same _ ltr h)
      (stdio-IsDirected reverse (get_proxy_protocol options))

unix_argument-IsDirected :
    (reverse : Bool) (options : Options) (t : Text × Text)
    → IsDirected reverse (unix_argument options reverse t).protocol
unfolding unix_argument is_reverse is_forward
unix_argument-IsDirected true options t = (omega arith, refl, refl)
unix_argument-IsDirected false options t = (omega arith, refl, refl)

module _ (parse_duration : Text → Option ℕ) where
  parse_with-IsDirected :
      (scheme : Text) (reverse : Bool) (t : Text × Options) (ltr : LocalToRemote)
      → parse_with parse_duration scheme reverse t ≡ ok ltr
      → IsDirected reverse ltr.protocol
  unfolding parse_with
  parse_with-IsDirected scheme reverse (info, options) ltr h =
      elim (Bool-cases (text_eq scheme (codes "stdio"))) [
        | inl a ↦ stdio_argument-IsDirected reverse options _ ltr (rw a at h)
        | inr a ↦ elim (Bool-cases (text_eq scheme (codes "unix"))) [
          | inl b ↦
              subst (λ (l : LocalToRemote). IsDirected reverse l.protocol)
                (ok_same _ ltr (rw (a, b) at h))
                (unix_argument-IsDirected reverse options
                  (key_and_value info (cut (b':' ∷ []) info)))
          | inr b ↦
              network_argument-IsDirected parse_duration scheme reverse options _ ltr
                (rw (a, b) at h)
        ]
      ]

  parse_split-IsDirected :
      (reverse : Bool) (o : Option (Text × Text)) (ltr : LocalToRemote)
      → parse_split parse_duration reverse o ≡ ok ltr
      → IsDirected reverse ltr.protocol
  unfolding parse_split
  parse_split-IsDirected reverse none ltr h = cc
  parse_split-IsDirected reverse (some (scheme, rest)) ltr h =
      parse_with-IsDirected scheme reverse (info_and_options rest (cut (b'?' ∷ []) rest)) ltr h

  -- Every tunnel argument that parses asks for exactly one protocol; it is no reverse one for -L, and
  -- no forward one for -R. (stdio and tproxy are neither, and mean the same for both.)
  pub parse_tunnel_arg-IsDirected :
      (arg : Text) (reverse : Bool) (ltr : LocalToRemote)
      → parse_tunnel_arg parse_duration arg reverse ≡ ok ltr
      → IsDirected reverse ltr.protocol
  unfolding parse_tunnel_arg
  parse_tunnel_arg-IsDirected arg reverse ltr h =
      parse_split-IsDirected reverse (cut (codes "://") arg) ltr h
