-- ===== src/Base/Base64.antt =====
-- encoding/base64's StdEncoding: DecodeString, and EncodeToString as what a peer does.
pub mod RoundTrip
use Prim.Native.Nat.{ℕ, ◌+◌, ◌-◌, ◌*◌, ◌/◌, ◌%◌}
use mathlib.Core.Bool.{Bool, true, false, ◌&&◌, ◌||◌}
use mathlib.Core.Option.{Option, none, some}
use mathlib.Core.List.{[], ◌∷◌}
use warp_stream.Base.Tests.{ltb, leb, ◌==◌, if◌then◌else◌}
use warp_stream.Base.Words.{Bytes}

-- The character that stands for six bits.
unfoldable pub digit : ℕ → ℕ
digit n =
    if ltb n 26
    then b'A' + n
    else if ltb n 52
    then b'a' + (n - 26)
    else if ltb n 62
    then b'0' + (n - 52)
    else if n == 62
    then b'+'
    else b'/'

unfoldable pub value : ℕ → Option ℕ
value c =
    if leb b'A' c && leb c b'Z'
    then some (c - b'A')
    else if leb b'a' c && leb c b'z'
    then some (c - b'a' + 26)
    else if leb b'0' c && leb c b'9'
    then some (c - b'0' + 52)
    else if c == b'+'
    then some 62
    else if c == b'/'
    then some 63
    else none

unfoldable pub encode : Bytes → Bytes
encode [] = []
encode (a ∷ []) = digit (a / 4) ∷ digit (a % 4 * 16) ∷ b'=' ∷ b'=' ∷ []
encode (a ∷ b ∷ []) = digit (a / 4) ∷ digit (a % 4 * 16 + b / 16) ∷ digit (b % 16 * 4) ∷ b'=' ∷ []
encode (a ∷ b ∷ c ∷ s) =
    digit (a / 4)
    ∷ digit (a % 4 * 16 + b / 16)
    ∷ digit (b % 16 * 4 + c / 64)
    ∷ digit (c % 64)
    ∷ encode s

-- Line breaks are skipped wherever they stand.
unfoldable pub skip_breaks : Bytes → Bytes
skip_breaks [] = []
skip_breaks (c ∷ s) = let rest = skip_breaks s in if c == 10 || c == 13 then rest else c ∷ rest

-- What four characters stand for; the padding may only stand at the end.
unfoldable pub one_byte : Option ℕ → Option ℕ → Option Bytes
one_byte (some p) (some q) = some ((p * 4 + q / 16) ∷ [])
one_byte none q = none
one_byte (some p) none = none

unfoldable pub two_bytes : Option ℕ → Option ℕ → Option ℕ → Option Bytes
two_bytes (some p) (some q) (some r) = some ((p * 4 + q / 16) ∷ (q % 16 * 16 + r / 4) ∷ [])
two_bytes none q r = none
two_bytes (some p) none r = none
two_bytes (some p) (some q) none = none

unfoldable pub three_bytes : Option ℕ → Option ℕ → Option ℕ → Option ℕ → Option Bytes → Option Bytes
three_bytes (some p) (some q) (some r) (some t) (some rest) =
    some ((p * 4 + q / 16) ∷ (q % 16 * 16 + r / 4) ∷ (r % 4 * 64 + t) ∷ rest)
three_bytes none q r t rest = none
three_bytes (some p) none r t rest = none
three_bytes (some p) (some q) none t rest = none
three_bytes (some p) (some q) (some r) none rest = none
three_bytes (some p) (some q) (some r) (some t) none = none

abbrev is_end : Bytes → Bool
is_end [] = true
is_end (c ∷ s) = false

-- The bits of the last character that the padding leaves over are not looked at.
unfoldable pub quantum : ℕ → ℕ → ℕ → ℕ → Bytes → Option Bytes → Option Bytes
quantum a b c d s rest =
    if (c == b'=' && d == b'=') && is_end s
    then one_byte (value a) (value b)
    else if d == b'=' && is_end s
    then two_bytes (value a) (value b) (value c)
    else three_bytes (value a) (value b) (value c) (value d) rest

unfoldable pub decode_quanta : Bytes → Option Bytes
decode_quanta [] = some []
decode_quanta (a ∷ []) = none
decode_quanta (a ∷ b ∷ []) = none
decode_quanta (a ∷ b ∷ c ∷ []) = none
decode_quanta (a ∷ b ∷ c ∷ d ∷ s) = quantum a b c d s (decode_quanta s)

unfoldable pub decode : Bytes → Option Bytes
decode s = decode_quanta (skip_breaks s)
