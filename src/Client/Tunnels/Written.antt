-- ===== src/Client/Tunnels/Written.antt =====
-- pkg/client/config.go: tunnel arguments as a user writes them, and how ParseTunnelArg takes them apart.
use warp_stream.Base.{
  ℕ, ◌≡◌, refl, sym, ap, ◌∙◌, Bool, true, false, not, ◌&&◌, ◌||◌, Option, none, some, List, [], ◌∷◌,
  ◌++◌, append_assoc, append-nil, All, any_of, ◌==◌, ==_self, Text, codes, text_eq, cut, has_prefix,
  if◌then◌else◌, arith,
}
use warp_stream.Base.Net.{split_host_port}
use warp_stream.Client.Query.{Options, parse_query}
use warp_stream.Client.Arguments.{split_colons, info_and_options}

-- The schemes with a listener on a host and port.
pub data Scheme : Type 0 where
  tcp udp socks5 http tproxy_tcp tproxy_udp : Scheme

abbrev pub scheme_text : Scheme → Text
scheme_text tcp = codes "tcp"
scheme_text udp = codes "udp"
scheme_text socks5 = codes "socks5"
scheme_text http = codes "http"
scheme_text tproxy_tcp = codes "tproxy+tcp"
scheme_text tproxy_udp = codes "tproxy+udp"

-- `network`: a bind host or none, a port, and a remote host and port or none. `unix`: the client's path
-- and the server's. `stdio`: a host and port.
pub data Written : Type 0 where
  network : Scheme → Option Text → Text → Option (Text × Text) → Written
  unix : Text → Text → Written
  stdio : Text → Text → Written

abbrev pub with_remote : Text → Option (Text × Text) → List Text
with_remote port none = port ∷ []
with_remote port (some (host, remote_port)) = port ∷ host ∷ remote_port ∷ []

abbrev pub parts_of : Option Text → Text → Option (Text × Text) → List Text
parts_of none port remote = with_remote port remote
parts_of (some bind) port remote = bind ∷ with_remote port remote

-- With a colon between the parts.
abbrev pub joined : List Text → Text
joined [] = []
joined (p ∷ []) = p
joined (p ∷ q ∷ ps) = p ++ b':' ∷ joined (q ∷ ps)

abbrev pub info_text : Written → Text
info_text (network s bind port remote) = joined (parts_of bind port remote)
info_text (unix path remote_path) = path ++ b':' ∷ remote_path
info_text (stdio host port) = host ++ b':' ∷ port

abbrev pub kind_text : Written → Text
kind_text (network s bind port remote) = scheme_text s
kind_text (unix path remote_path) = codes "unix"
kind_text (stdio host port) = codes "stdio"

abbrev pub query_text : Option Text → Text
query_text none = []
query_text (some q) = b'?' ∷ q

-- The argument with its options.
abbrev pub argument_text : Written → Option Text → Text
argument_text w q = kind_text w ++ (codes "://" ++ (info_text w ++ query_text q))

-- No colon outside of brackets, and all brackets closed.
abbrev pub inside_after : Bool → ℕ → Bool
inside_after inside c = if c == b'[' then true else if c == b']' then false else inside

abbrev pub is_part : Bool → Text → Bool
is_part inside [] = not inside
is_part inside (c ∷ s) =
    let rest = is_part (inside_after inside c) s in
    not (c == b':' && not (inside_after inside c)) && rest

abbrev pub lacks : ℕ → Text → Bool
lacks c s = not (any_of (λ x. c == x) s)

-- A part of a network argument: a colon stands only in brackets.
abbrev pub IsPart : Text → Type 0
IsPart s = is_part false s ≡ true

-- What the parts must be to be found again.
abbrev pub WellWritten : Written → Type 0
WellWritten (network s bind port remote) = All IsPart (parts_of bind port remote)
WellWritten (unix path remote_path) = lacks b':' path ≡ true
WellWritten (stdio host port) = split_host_port (host ++ b':' ∷ port) ≡ some (host, port)

both : (b r : Bool) → (not b && r) ≡ true → (b ≡ false) × (r ≡ true)
both b r h = (ground (arith, h), ground (arith, h))

split_colons-part :
    (inside : Bool) (curr a s : Text)
    → is_part inside a ≡ true
    → split_colons inside curr (a ++ b':' ∷ s) ≡ (curr ++ a) ∷ split_colons false [] s
unfolding split_colons
split_colons-part true curr [] s h = cc h
split_colons-part false curr [] s h = ap (λ x. x ∷ split_colons false [] s) (sym (append-nil curr))
split_colons-part inside curr (c ∷ a) s h =
    let k = both (c == b':' && not (inside_after inside c)) (is_part (inside_after inside c) a) h in
    rw (k.0, split_colons)
      (split_colons-part (inside_after inside c) (curr ++ c ∷ []) a s k.1
        ∙ ap (λ x. x ∷ split_colons false [] s) (append_assoc curr (c ∷ []) a))

split_colons-last :
    (inside : Bool) (curr a : Text)
    → is_part inside a ≡ true
    → split_colons inside curr a ≡ (curr ++ a) ∷ []
unfolding split_colons
split_colons-last inside curr [] h = ap (λ x. x ∷ []) (sym (append-nil curr))
split_colons-last inside curr (c ∷ a) h =
    let k = both (c == b':' && not (inside_after inside c)) (is_part (inside_after inside c) a) h in
    rw (k.0, split_colons)
      (split_colons-last (inside_after inside c) (curr ++ c ∷ []) a k.1
        ∙ ap (λ x. x ∷ []) (append_assoc curr (c ∷ []) a))

-- The parts are found again.
pub split_colons-joined :
    (p : Text) (ps : List Text)
    → All IsPart (p ∷ ps)
    → split_colons false [] (joined (p ∷ ps)) ≡ p ∷ ps
split_colons-joined p [] h = split_colons-last false [] p h.0
split_colons-joined p (q ∷ ps) h =
    split_colons-part false [] p (joined (q ∷ ps)) h.0
    ∙ ap (λ xs. p ∷ xs) (split_colons-joined q ps h.1)

neither : (b r : Bool) → not (b || r) ≡ true → (b ≡ false) × (not r ≡ true)
neither b r h = (ground (arith, h), ground (arith, h))

-- A byte that does not occur cuts nothing, and its first occurrence cuts.
pub cut-absent : (c : ℕ) (s : Text) → lacks c s ≡ true → cut (c ∷ []) s ≡ none
unfolding cut has_prefix
cut-absent c [] h = refl
cut-absent c (x ∷ s) h =
    let k = neither (c == x) (any_of (λ y. c == y) s) h in rw (k.0, cut-absent c s k.1) refl

pub cut-first : (c : ℕ) (s t : Text) → lacks c s ≡ true → cut (c ∷ []) (s ++ c ∷ t) ≡ some (s, t)
unfolding cut has_prefix
cut-first c [] t h = rw (==_self c) refl
cut-first c (x ∷ s) t h =
    let k = neither (c == x) (any_of (λ y. c == y) s) h in rw (k.0, cut-first c s t k.1) refl

abbrev pub options_of : Option Text → Options
options_of none = []
options_of (some q) = parse_query q

pub info_and_options-text :
    (info : Text) (q : Option Text)
    → lacks b'?' info ≡ true
    → info_and_options (info ++ query_text q) (cut (b'?' ∷ []) (info ++ query_text q))
      ≡ (info, options_of q)
info_and_options-text info none h = rw (append-nil info, cut-absent b'?' info h) refl
info_and_options-text info (some q) h = rw (cut-first b'?' info q h) refl

pub split_colons-parts :
    (bind : Option Text) (port : Text) (remote : Option (Text × Text))
    → All IsPart (parts_of bind port remote)
    → split_colons false [] (joined (parts_of bind port remote)) ≡ parts_of bind port remote
split_colons-parts none port none h = split_colons-joined port [] h
split_colons-parts none port (some (host, remote_port)) h =
    split_colons-joined port (host ∷ remote_port ∷ []) h
split_colons-parts (some bind) port none h = split_colons-joined bind (port ∷ []) h
split_colons-parts (some bind) port (some (host, remote_port)) h =
    split_colons-joined bind (port ∷ host ∷ remote_port ∷ []) h

pub other_scheme :
    (s : Scheme)
    → (text_eq (scheme_text s) (codes "stdio") ≡ false)
      × (text_eq (scheme_text s) (codes "unix") ≡ false)
unfolding text_eq
other_scheme tcp = (refl, refl)
other_scheme udp = (refl, refl)
other_scheme socks5 = (refl, refl)
other_scheme http = (refl, refl)
other_scheme tproxy_tcp = (refl, refl)
other_scheme tproxy_udp = (refl, refl)

pub cut-scheme :
    (w : Written) (rest : Text)
    → cut (codes "://") (kind_text w ++ (codes "://" ++ rest)) ≡ some (kind_text w, rest)
unfolding cut has_prefix
cut-scheme (network tcp bind port remote) rest = refl
cut-scheme (network udp bind port remote) rest = refl
cut-scheme (network socks5 bind port remote) rest = refl
cut-scheme (network http bind port remote) rest = refl
cut-scheme (network tproxy_tcp bind port remote) rest = refl
cut-scheme (network tproxy_udp bind port remote) rest = refl
cut-scheme (unix path remote_path) rest = refl
cut-scheme (stdio host port) rest = refl
