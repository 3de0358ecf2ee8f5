-- ===== src/Command/Context.antt =====
-- cmd/warpstream/main.go: what the commands read, and how a flag overrides a configuration file.
use warp_stream.Base.{ℕ, ◌%◌, ◌^◌, ◌==◌, Bool, false, ◌||◌, List, [], ◌∷◌, if◌then◌else◌, Text}
use warp_stream.Server.Restrictions.{is_empty}

-- The answers of a cli.Context: was the flag given, by the command line or the environment; its value
-- of each kind, which is the flag's default unless it was given; the arguments behind the flags. A
-- duration is in nanoseconds.
pub record Context : Type 0 where
  pub is_set : Text → Bool
  pub string : Text → Text
  pub bool : Text → Bool
  pub duration : Text → ℕ
  pub uint : Text → ℕ
  pub string_slice : Text → List Text
  pub args : List Text

-- flagExplicitlySet, and the file's value where the flag does not override it. `missing` tells whether
-- the file's value is the type's zero.
unfoldable pub flag_or_file {ℓ} : {A : Type ℓ} → Context → Text → Bool → A → A → A
flag_or_file c name missing flag file = if c.is_set name || missing then flag else file

unfoldable pub or_else : Text → Text → Text
or_else argument file = if is_empty argument then file else argument

abbrev pub text_flag : Context → Text → Text → Text
text_flag c name file = flag_or_file c name (is_empty file) (c.string name) file

abbrev pub texts_flag : Context → Text → List Text → List Text
texts_flag c name file = flag_or_file c name (is_empty file) (c.string_slice name) file

abbrev pub duration_flag : Context → Text → ℕ → ℕ
duration_flag c name file = flag_or_file c name (file == 0) (c.duration name) file

-- These two override the file only if they were given.
abbrev pub bool_flag : Context → Text → Bool → Bool
bool_flag c name file = flag_or_file c name false (c.bool name) file

abbrev pub uint_flag : Context → Text → ℕ → ℕ
uint_flag c name file = flag_or_file c name false (c.uint name % 2 ^ 32) file

-- The last argument, or the empty text.
unfoldable pub last_argument : List Text → Text
last_argument [] = []
last_argument (a ∷ []) = a
last_argument (a ∷ b ∷ rest) = last_argument (b ∷ rest)
