-- ===== src/Base/Net.antt =====
-- The parts of Go's net package that the code uses: addresses as 4 or 16 bytes, CIDR blocks, and
-- host:port texts.
use warp_stream.Base.Tests.{◌==◌, if◌then◌else◌, ltb, leb}
use warp_stream.Base.Lists.{length, take, drop, any_of}
use warp_stream.Base.Words.{Bytes}
use warp_stream.Base.Strings.{Text, text_eq, codes, has_prefix, index_byte, last_index_byte}
use Prim.Native.Nat.{ℕ, zero, suc, ◌+◌, ◌-◌, ◌*◌, ◌/◌, ◌%◌, bit_and}
use mathlib.Core.Bool.{Bool, true, not, ◌&&◌, ◌||◌}
use mathlib.Core.Option.{Option, none, some}
use mathlib.Core.List.{List, [], ◌∷◌, ◌++◌}

-- IP.To4: a 16-byte address that maps an IPv4 one, or a 4-byte one.
unfoldable pub to4 : Bytes → Option Bytes
to4 (a ∷ b ∷ c ∷ d ∷ []) = some (a ∷ b ∷ c ∷ d ∷ [])
to4 (z0 ∷ z1 ∷ z2 ∷ z3 ∷ z4 ∷ z5 ∷ z6 ∷ z7 ∷ z8 ∷ z9 ∷ f0 ∷ f1 ∷ a ∷ b ∷ c ∷ d ∷ []) =
    if text_eq (z0 ∷ z1 ∷ z2 ∷ z3 ∷ z4 ∷ z5 ∷ z6 ∷ z7 ∷ z8 ∷ z9 ∷ f0 ∷ f1 ∷ [])
      (0 ∷ 0 ∷ 0 ∷ 0 ∷ 0 ∷ 0 ∷ 0 ∷ 0 ∷ 0 ∷ 0 ∷ 255 ∷ 255 ∷ [])
    then some (a ∷ b ∷ c ∷ d ∷ [])
    else none
to4 _ = none

-- IP.To16: an IPv4 address is mapped behind ten zeros and two bytes 255.
abbrev pub v4_in_v6_prefix : Bytes
v4_in_v6_prefix = 0 ∷ 0 ∷ 0 ∷ 0 ∷ 0 ∷ 0 ∷ 0 ∷ 0 ∷ 0 ∷ 0 ∷ 255 ∷ 255 ∷ []

unfoldable pub to16 : Bytes → Option Bytes
to16 ip =
    if length ip == 4
    then some (v4_in_v6_prefix ++ ip)
    else if length ip == 16
    then some ip
    else none

-- net.IPNet: an address and a mask.
pub record NetCidr : Type 0 where
  pub ip : Bytes
  pub mask : Bytes

-- networkNumberAndMask: a mask of the other family's length is cut or refused.
unfoldable pub number_and_mask : Bytes → Bytes → Option (Bytes × Bytes)
number_and_mask ip mask =
    if length mask == 4
    then (if length ip == 4 then some (ip, mask) else none)
    else if length mask == 16
    then (if length ip == 4 then some (ip, drop 12 mask) else some (ip, mask))
    else none

unfoldable pub network_number_and_mask : NetCidr → Option (Bytes × Bytes)
network_number_and_mask n = elim (to4 n.ip) [
  | some ip ↦ number_and_mask ip n.mask
  | none ↦ if length n.ip == 16 then number_and_mask n.ip n.mask else none
]

-- The comparison loop of IPNet.Contains.
unfoldable pub equal_under_mask : Bytes → Bytes → Bytes → Bool
equal_under_mask (a ∷ as') (m ∷ ms) (b ∷ bs) =
    bit_and a m == bit_and b m && equal_under_mask as' ms bs
equal_under_mask _ _ _ = true

-- IPNet.Contains.
unfoldable pub contains : NetCidr → Bytes → Bool
contains n ip =
    let ip' : Bytes = elim (to4 ip) [ some x ↦ x | none ↦ ip ] in
    elim (network_number_and_mask n) [
      | some (nn, m) ↦ length ip' == length nn && equal_under_mask nn m ip'
      | none ↦ length ip' == 0
    ]

-- `%d` of a uint16, and of any number below 10 ^ 20.
unfoldable pub decimal_digits : ℕ → ℕ → Text
decimal_digits zero n = []
decimal_digits (suc k) n =
    let rest = decimal_digits k (n / 10) in
    if ltb n 10 then (b'0' + n) ∷ [] else rest ++ (b'0' + n % 10) ∷ []

unfoldable pub decimal : ℕ → Text
decimal n = decimal_digits 20 n

-- net.JoinHostPort: a host with a colon or a percent sign is bracketed.
unfoldable pub join_host_port : Text → Text → Text
join_host_port host port =
    if any_of (λ c. c == b':' || c == b'%') host
    then b'[' ∷ (host ++ b']' ∷ (b':' ∷ port))
    else host ++ b':' ∷ port

-- IP.String: dotted decimal where To4 answers, else the IPv6 text with its longest run of two or
-- more zero groups left out.
unfoldable pub dotted : Bytes → Text
dotted [] = []
dotted (b ∷ []) = decimal b
dotted (b ∷ bs) = decimal b ++ b'.' ∷ dotted bs

abbrev hex_digit : ℕ → ℕ
hex_digit d = if ltb d 10 then b'0' + d else b'a' + d - 10

-- Four hexadecimal digits at most, without leading zeros.
unfoldable pub hex_digits : ℕ → ℕ → Text
hex_digits zero n = []
hex_digits (suc k) n =
    let rest = hex_digits k (n / 16) in
    if ltb n 16 then hex_digit n ∷ [] else rest ++ hex_digit (n % 16) ∷ []

unfoldable pub groups : Bytes → List ℕ
groups (a ∷ b ∷ bs) = (a * 256 + b) ∷ groups bs
groups _ = []

unfoldable pub join_groups : List ℕ → Text
join_groups [] = []
join_groups (g ∷ []) = hex_digits 4 g
join_groups (g ∷ gs) = hex_digits 4 g ++ b':' ∷ join_groups gs

unfoldable pub zero_run : List ℕ → ℕ
zero_run [] = 0
zero_run (g ∷ gs) = let rest = zero_run gs in if g == 0 then suc rest else 0

-- The first longest run, as its start and length; length 0 when none has two groups.
unfoldable pub longest_run : ℕ → ℕ × ℕ → List ℕ → ℕ × ℕ
longest_run i best [] = best
longest_run i best (g ∷ gs) =
    let n = zero_run (g ∷ gs) in
    longest_run (suc i) (if leb 2 n && ltb best.1 n then (i, n) else best) gs

unfoldable pub compressed : List ℕ → ℕ × ℕ → Text
compressed gs (start, n) =
    if n == 0
    then join_groups gs
    else join_groups (take start gs) ++ b':' ∷ b':' ∷ join_groups (drop (start + n) gs)

unfoldable pub hex_bytes : Bytes → Text
hex_bytes [] = []
hex_bytes (b ∷ bs) = hex_digit (b / 16) ∷ hex_digit (b % 16) ∷ hex_bytes bs

unfoldable pub ip_string : Bytes → Text
ip_string ip = elim (to4 ip) [
  | some v4 ↦ dotted v4
  | none ↦
      if length ip == 16
      then compressed (groups ip) (longest_run 0 (0, 0) (groups ip))
      else if length ip == 0
      then codes "<nil>"
      else b'?' ∷ hex_bytes ip
]

-- net.SplitHostPort, without the text of its errors.
unfoldable pub has_byte : ℕ → Text → Bool
has_byte b s = any_of (λ c. c == b) s

-- A bracketed host: the bracket must close right before the last colon, at index `i`.
unfoldable pub split_bracketed : Text → ℕ → Option ℕ → Option (Text × Text)
split_bracketed s i none = none
split_bracketed s i (some end) =
    if suc end == i && not (has_byte b'[' (drop 1 s) || has_byte b']' (drop (suc end) s))
    then some (drop 1 (take end s), drop (suc i) s)
    else none

unfoldable pub split_plain : Text → ℕ → Option (Text × Text)
split_plain s i =
    if has_byte b':' (take i s) || (has_byte b'[' s || has_byte b']' s)
    then none
    else some (take i s, drop (suc i) s)

unfoldable pub split_host_port : Text → Option (Text × Text)
split_host_port s = elim (last_index_byte b':' s) [
  | none ↦ none
  | some i ↦
      if has_prefix (b'[' ∷ []) s then split_bracketed s i (index_byte b']' s) else split_plain s i
]
