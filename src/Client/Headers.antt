-- ===== src/Client/Headers.antt =====
-- pkg/client/client.go: the header fields of a tunnel request. Header.Set replaces the fields of the
-- same name, which is compared without case (names are header tokens). A Go map is the list of its
-- entries in the order in which a loop meets them.
pub mod Laws
use warp_stream.Base.{
  Option, none, some, List, [], ◌∷◌, ◌==◌, if◌then◌else◌, Text, cut, split_on, trim_space,
  equal_fold, text_eq,
}

abbrev pub Fields : Type 0
Fields = List (Text × Text)

-- Header.Set.
unfoldable pub remove : Text → Fields → Fields
remove k [] = []
remove k ((j, v) ∷ h) = let rest = remove k h in if equal_fold j k then rest else (j, v) ∷ rest

unfoldable pub set : Text → Text → Fields → Fields
set k v h = (k, v) ∷ remove k h

-- Header.Get; the empty text if there is no such field.
unfoldable pub get : Text → Fields → Text
get k [] = []
get k ((j, v) ∷ h) = let rest = get k h in if equal_fold j k then v else rest

-- The loop that adds the custom fields.
unfoldable pub set_all : Fields → Fields → Fields
set_all [] h = h
set_all ((k, v) ∷ entries) h = set_all entries (set k v h)

-- An assignment to a Go map.
unfoldable pub assign : Text → Text → Fields → Fields
assign k v [] = (k, v) ∷ []
assign k v ((j, w) ∷ m) = if text_eq j k then (k, v) ∷ m else (j, w) ∷ assign k v m

-- A carriage return at the end of a line is dropped.
unfoldable pub drop_cr : Text → Text
drop_cr [] = []
drop_cr (c ∷ []) = if c == 13 then [] else c ∷ []
drop_cr (c ∷ d ∷ s) = c ∷ drop_cr (d ∷ s)

-- The lines that a bufio.Scanner finds, all shorter than its buffer: an empty last part is no line.
unfoldable pub lines_of : List Text → List Text
lines_of [] = []
lines_of ([] ∷ []) = []
lines_of ((c ∷ line) ∷ []) = drop_cr (c ∷ line) ∷ []
lines_of (line ∷ next ∷ lines) = drop_cr line ∷ lines_of (next ∷ lines)

unfoldable pub add_line : Option (Text × Text) → Fields → Fields
add_line none m = m
add_line (some (k, v)) m = assign (trim_space k) (trim_space v) m

unfoldable pub parse_lines : List Text → Fields → Fields
parse_lines [] m = m
parse_lines (line ∷ lines) m = parse_lines lines (add_line (cut (b':' ∷ []) line) m)

-- loadHttpHeaders, with what the file holds; none if there is no file or it cannot be opened.
unfoldable pub load_http_headers : Option Text → Fields
load_http_headers none = []
load_http_headers (some contents) = parse_lines (lines_of (split_on 10 contents)) []
