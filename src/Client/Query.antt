-- ===== src/Client/Query.antt =====
-- pkg/client/config.go: the options of a tunnel argument.
use warp_stream.Base.{
  ℕ, ◌+◌, ◌-◌, ◌*◌, Bool, true, false, ◌&&◌, ◌||◌, Option, none, some, is_some, List, [], ◌∷◌, ◌==◌,
  leb, if◌then◌else◌, Text, codes, text_eq, cut, split_on, any_of,
}
use warp_stream.Protocol.{Credentials}
use warp_stream.Server.Restrictions.{is_empty}

-- url.QueryUnescape: `+` is a space, `%` takes two hexadecimal digits.
abbrev pub hex_value : ℕ → Option ℕ
hex_value c =
    if leb b'0' c && leb c b'9'
    then some (c - b'0')
    else if leb b'a' c && leb c b'f'
    then some (c - b'a' + 10)
    else if leb b'A' c && leb c b'F'
    then some (c - b'A' + 10)
    else none

abbrev pub byte_before : Option ℕ → Option ℕ → Option Text → Option Text
byte_before (some h) (some l) (some s) = some ((h * 16 + l) ∷ s)
byte_before _ _ _ = none

abbrev pub char_before : ℕ → Option Text → Option Text
char_before c none = none
char_before c (some s) = some (c ∷ s)

abbrev pub plus_as_space : ℕ → ℕ
plus_as_space c = if c == b'+' then b' ' else c

unfoldable pub unescape : Text → Option Text
unescape [] = some []
unescape (c ∷ []) = if c == b'%' then none else some (plus_as_space c ∷ [])
unescape (c ∷ h ∷ []) =
    if c == b'%' then none else char_before (plus_as_space c) (unescape (h ∷ []))
unescape (c ∷ h ∷ l ∷ s) = elim (c == b'%') [
  | true ↦ byte_before (hex_value h) (hex_value l) (unescape s)
  | false ↦ char_before (plus_as_space c) (unescape (h ∷ l ∷ s))
]

abbrev pub Options : Type 0
Options = List (Text × Text)

abbrev pub pair_before : Option Text → Option Text → Options → Options
pair_before (some key) (some value) rest = (key, value) ∷ rest
pair_before _ _ rest = rest

abbrev pub key_and_value : Text → Option (Text × Text) → Text × Text
key_and_value part none = (part, [])
key_and_value part (some kv) = kv

-- url.ParseQuery with its error dropped: parts that are empty, have a semicolon or do not unescape are
-- left out; a part without `=` is a key with an empty value.
unfoldable pub parse_parts : List Text → Options
parse_parts [] = []
parse_parts (part ∷ parts) =
    let kv = key_and_value part (cut (b'=' ∷ []) part) in
    let rest = parse_parts parts in
    if is_empty part || any_of (λ c. c == b';') part
    then rest
    else pair_before (unescape kv.0) (unescape kv.1) rest

unfoldable pub parse_query : Text → Options
parse_query query = parse_parts (split_on b'&' query)

-- `options[key]`: the first value of the key.
unfoldable pub option_value : Text → Options → Option Text
option_value key [] = none
option_value key ((k, v) ∷ rest) =
    let later = option_value key rest in if text_eq k key then some v else later

abbrev pub or_empty : Option Text → Text
or_empty none = []
or_empty (some s) = s

-- getCredentials and getProxyProtocol.
unfoldable pub get_credentials : Options → Option Credentials
get_credentials options =
    let login = or_empty (option_value (codes "login") options) in
    let pass = or_empty (option_value (codes "password") options) in
    if is_empty login || is_empty pass
    then none
    else some (record { username = login; password = pass })

unfoldable pub get_proxy_protocol : Options → Bool
get_proxy_protocol options = is_some (option_value (codes "proxy_protocol") options)
