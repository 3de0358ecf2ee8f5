-- ===== src/Base/Trim.antt =====
-- strings.TrimSpace on texts without space, and behind a text that it leaves alone.
use Prim.Native.Nat.{ℕ}
use mathlib.Core.Path.{◌≡◌, refl}
use mathlib.Core.Bool.{false}
use mathlib.Core.List.{[], ◌∷◌}
use warp_stream.Base.Lists.{All}
use warp_stream.Base.Strings.{Text, is_space, skip_spaces, trim_right, trim_space}

abbrev pub HasNoSpace : Text → Type 0
HasNoSpace = All (λ c. is_space c ≡ false)

pub trim_right-HasNoSpace : (s : Text) → HasNoSpace s → trim_right s ≡ s
unfolding trim_right
trim_right-HasNoSpace [] h = refl
trim_right-HasNoSpace (c ∷ []) h = rw h.0
trim_right-HasNoSpace (c ∷ d ∷ s) h = rw (trim_right-HasNoSpace (d ∷ s) h.1)

pub trim_space-HasNoSpace : (s : Text) → HasNoSpace s → trim_space s ≡ s
unfolding trim_space skip_spaces
trim_space-HasNoSpace [] h = trim_right-HasNoSpace [] tt
trim_space-HasNoSpace (c ∷ s) h = rw h.0 (trim_right-HasNoSpace (c ∷ s) h)

-- A text that does not end in a space keeps what stands before it.
pub trim_right-cons : (c d : ℕ) (s t : Text) → trim_right s ≡ d ∷ t → trim_right (c ∷ s) ≡ c ∷ d ∷ t
unfolding trim_right
trim_right-cons c d s t e = rw e
