-- ===== src/Base/Monad.antt =====
-- Go's (value, error) results, and steps on a state that also fail with the state they reached.
use mathlib.Core.Path.{◌≡◌, refl}

pub data Result (E A : Type 0) : Type 0 where
  ok : A → Result E A
  err : E → Result E A

-- A call that changes a state of type `S`; what it did before it failed stays done.
abbrev pub Step : Type 0 → Type 0 → Type 0 → Type 0
Step S E A = S → Result E A × S

abbrev pub and_then :
    {S E A B : Type 0} → Result E A × S → (A → S → Result E B × S) → Result E B × S
and_then (ok a, s) f = f a s
and_then (err e, s) f = (err e, s)

infixl 5 ◌>>=◌ ◌>>◌
abbrev pub ◌>>=◌ :
    {S E A B : Type 0} → (S → Result E A × S) → (A → S → Result E B × S) → S → Result E B × S
◌>>=◌ m f s = and_then (m s) f

abbrev pub ◌>>◌ :
    {S E A B : Type 0} → (S → Result E A × S) → (S → Result E B × S) → S → Result E B × S
◌>>◌ m k s = and_then (m s) (λ _. k)

abbrev pub return : {S E A : Type 0} → A → S → Result E A × S
return a s = (ok a, s)

abbrev pub fail : {S E A : Type 0} → E → S → Result E A × S
fail e s = (err e, s)

-- A step that succeeded did so through its first part.
pub and_then-eq-ok :
    {S E A B : Type 0} (r : Result E A × S) (f : A → S → Result E B × S) {t : S} {b : B}
    → and_then r f ≡ (ok b, t)
    → (a : A) × (u : S) × (r ≡ (ok a, u)) × (f a u ≡ (ok b, t))
and_then-eq-ok (ok a, u) f h = (a, u, refl, h)
and_then-eq-ok (err x, u) f h = cc
