-- ===== src/Base/Strings.antt =====
-- Go strings as their bytes, with ASCII literals written as native text.
use Prim.Native.Char.{code}
use Prim.Native.Nat.{ℕ, suc, ◌+◌, ◌-◌, ◌*◌, ◌^◌}
use Prim.Native.String.{String}
use mathlib.Core.Path.{◌≡◌, refl}
use mathlib.Core.Logic.{◌↔◌}
use mathlib.Core.Bool.{Bool, true, false, ◌&&◌, ◌||◌}
use mathlib.Core.Option.{Option, none, some}
use mathlib.Core.List.{List, [], ◌∷◌, map}
use native.Mathlib.Omega.{arith}
use warp_stream.Base.Tests.{leb, ltb, ◌==◌, if◌then◌else◌}
use warp_stream.Base.Lists.{length, drop}

abbrev pub Text : Type 0
Text = List ℕ

abbrev pub codes : String → Text
codes String.[] = []
codes (String.◌∷◌ c s) = code c ∷ codes s

-- `s == t` on strings.
unfoldable pub text_eq : Text → Text → Bool
text_eq [] [] = true
text_eq [] (y ∷ ys) = false
text_eq (x ∷ xs) [] = false
text_eq (x ∷ xs) (y ∷ ys) = x == y && text_eq xs ys

pub text_eq_sound : (s t : Text) → text_eq s t ≡ true → s ≡ t
unfolding text_eq
text_eq_sound [] [] h = refl
text_eq_sound [] (y ∷ ys) h = cc
text_eq_sound (x ∷ xs) [] h = cc
text_eq_sound (x ∷ xs) (y ∷ ys) h = ground (arith, text_eq_sound xs ys)

pub text_eq_refl : (s : Text) → text_eq s s ≡ true
unfolding text_eq
text_eq_refl [] = refl
text_eq_refl (x ∷ xs) = ground (arith, text_eq_refl xs)

pub text_eq_iff : (s t : Text) → (text_eq s t ≡ true) ↔ (s ≡ t)
text_eq_iff s t = (text_eq_sound s t, λ e. rw e (text_eq_refl t))

-- strings.EqualFold on ASCII text: letters are compared without their case.
unfoldable pub to_lower : ℕ → ℕ
to_lower c = if leb b'A' c && leb c b'Z' then c + 32 else c

unfoldable pub equal_fold : Text → Text → Bool
equal_fold s t = text_eq (map to_lower s) (map to_lower t)

-- strings.HasPrefix and strings.TrimPrefix.
unfoldable pub has_prefix : Text → Text → Bool
has_prefix [] s = true
has_prefix (p ∷ ps) [] = false
has_prefix (p ∷ ps) (c ∷ s) = p == c && has_prefix ps s

unfoldable pub trim_prefix : Text → Text → Text
trim_prefix p s = if has_prefix p s then drop (length p) s else s

-- strings.Split at a one-byte separator: never empty.
unfoldable pub split_on : ℕ → Text → List Text
split_on sep [] = [] ∷ []
split_on sep (c ∷ s) = elim (split_on sep s) [
  | [] ↦ [] ∷ []
  | part ∷ parts ↦ if c == sep then [] ∷ part ∷ parts else (c ∷ part) ∷ parts
]

-- strings.TrimSpace on ASCII text.
unfoldable pub is_space : ℕ → Bool
is_space c = c == b' ' || leb 9 c && leb c 13

unfoldable pub skip_spaces : Text → Text
skip_spaces [] = []
skip_spaces (c ∷ s) = let rest = skip_spaces s in if is_space c then rest else c ∷ s

unfoldable pub trim_right : Text → Text
trim_right [] = []
trim_right (c ∷ s) = elim (trim_right s) [
  | [] ↦ if is_space c then [] else c ∷ []
  | d ∷ t ↦ c ∷ d ∷ t
]

unfoldable pub trim_space : Text → Text
trim_space s = trim_right (skip_spaces s)

abbrev map_suc : Option ℕ → Option ℕ
map_suc none = none
map_suc (some i) = some (suc i)

-- strings.IndexByte and strings.LastIndexByte.
unfoldable pub index_byte : ℕ → Text → Option ℕ
index_byte b [] = none
index_byte b (c ∷ s) = let rest = index_byte b s in if c == b then some 0 else map_suc rest

unfoldable pub last_index_byte : ℕ → Text → Option ℕ
last_index_byte b [] = none
last_index_byte b (c ∷ s) = elim (last_index_byte b s) [
  | some i ↦ some (suc i)
  | none ↦ if c == b then some 0 else none
]

-- strconv.ParseUint to base 10 and 16 bits with its error dropped: 0 for a syntax error, the largest
-- value once the number is out of range.
unfoldable pub parse_digits : ℕ → Text → ℕ
parse_digits acc [] = acc
parse_digits acc (c ∷ s) =
    let next = acc * 10 + (c - b'0') in
    let rest = parse_digits next s in
    if leb b'0' c && leb c b'9' then (if ltb 65535 next then 65535 else rest) else 0

unfoldable pub parse_port : Text → ℕ
parse_port s = parse_digits 0 s

-- strconv.ParseUint to base 10 and 16 bits, without the text of its errors.
unfoldable pub checked_digits : ℕ → Text → Option ℕ
checked_digits acc [] = some acc
checked_digits acc (c ∷ s) =
    let next = acc * 10 + (c - b'0') in
    let rest = checked_digits next s in
    if (leb b'0' c && leb c b'9') && leb next 65535 then rest else none

unfoldable pub parse_uint16 : Text → Option ℕ
parse_uint16 [] = none
parse_uint16 (c ∷ s) = checked_digits 0 (c ∷ s)

-- strconv.ParseUint to base 10 and 64 bits, without the text of its errors.
unfoldable pub uint64_digits : ℕ → Text → Option ℕ
uint64_digits acc [] = some acc
uint64_digits acc (c ∷ s) =
    let next = acc * 10 + (c - b'0') in
    let rest = uint64_digits next s in
    if (leb b'0' c && leb c b'9') && ltb next (2 ^ 64) then rest else none

unfoldable pub parse_uint64 : Text → Option ℕ
parse_uint64 [] = none
parse_uint64 (c ∷ s) = uint64_digits 0 (c ∷ s)

-- strings.SplitN with 2 parts at a non-empty separator: none when it does not occur.
abbrev pub push : ℕ → Option (Text × Text) → Option (Text × Text)
push c none = none
push c (some (a, b)) = some (c ∷ a, b)

abbrev pub cut_at : Text → Text → Bool → Option (Text × Text) → Option (Text × Text)
cut_at sep s true later = some ([], drop (length sep) s)
cut_at sep s false later = later

unfoldable pub cut : Text → Text → Option (Text × Text)
cut sep [] = none
cut sep (c ∷ s) = cut_at sep (c ∷ s) (has_prefix sep (c ∷ s)) (push c (cut sep s))

-- strings.Trim with the brackets as cut set.
unfoldable pub is_bracket : ℕ → Bool
is_bracket c = c == b'[' || c == b']'

unfoldable pub skip_brackets : Text → Text
skip_brackets [] = []
skip_brackets (c ∷ s) = let rest = skip_brackets s in if is_bracket c then rest else c ∷ s

unfoldable pub drop_last_brackets : Text → Text
drop_last_brackets [] = []
drop_last_brackets (c ∷ s) = elim (drop_last_brackets s) [
  | [] ↦ if is_bracket c then [] else c ∷ []
  | d ∷ t ↦ c ∷ d ∷ t
]

unfoldable pub trim_brackets : Text → Text
trim_brackets s = drop_last_brackets (skip_brackets s)

-- strings.Trim with one byte as cut set.
unfoldable pub skip_byte : ℕ → Text → Text
skip_byte b [] = []
skip_byte b (c ∷ s) = let rest = skip_byte b s in if c == b then rest else c ∷ s

unfoldable pub drop_last_byte : ℕ → Text → Text
drop_last_byte b [] = []
drop_last_byte b (c ∷ s) = elim (drop_last_byte b s) [
  | [] ↦ if c == b then [] else c ∷ []
  | d ∷ t ↦ c ∷ d ∷ t
]

unfoldable pub trim_byte : ℕ → Text → Text
trim_byte b s = drop_last_byte b (skip_byte b s)
