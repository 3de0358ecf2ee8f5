-- ===== src/Base/Lists.antt =====
-- Lists measured and cut by native numbers, under the library's names.
use Prim.Native.Nat.{ℕ, zero, suc, ◌+◌, ◌-◌, min}
use mathlib.Core.Path.{◌≡◌, refl, ap, subst}
use mathlib.Core.List.{List, [], ◌∷◌, ◌++◌}
use mathlib.Core.Bool.{Bool, true, false, ◌||◌}
use mathlib.Core.Logic.{◌⊎◌, ◌↔◌, inl, inr}
use native.Mathlib.Omega.{arith}
use warp_stream.Base.Tests.{||_true}

module _ {ℓ} {A : Type ℓ} where
  abbrev pub length : List A → ℕ
  length [] = 0
  length (x ∷ xs) = suc (length xs)

  pub length-append : (xs ys : List A) → length (xs ++ ys) ≡ length xs + length ys
  length-append [] ys = omega arith
  length-append (x ∷ xs) ys = omega (arith, length-append xs ys)

  abbrev pub take : ℕ → List A → List A
  take zero xs = []
  take (suc n) [] = []
  take (suc n) (x ∷ xs) = x ∷ take n xs

  abbrev pub drop : ℕ → List A → List A
  drop zero xs = xs
  drop (suc n) [] = []
  drop (suc n) (x ∷ xs) = drop n xs

  pub length-take : (n : ℕ) (xs : List A) → length (take n xs) ≡ min n (length xs)
  length-take zero xs = omega arith
  length-take (suc n) [] = omega arith
  length-take (suc n) (x ∷ xs) = omega (arith, length-take n xs)

  pub length-drop : (n : ℕ) (xs : List A) → length (drop n xs) ≡ length xs - n
  length-drop zero xs = omega arith
  length-drop (suc n) [] = omega arith
  length-drop (suc n) (x ∷ xs) = omega (arith, length-drop n xs)

  -- What was put in front comes off again.
  pub take-append : (xs ys : List A) → take (length xs) (xs ++ ys) ≡ xs
  take-append [] ys = refl
  take-append (x ∷ xs) ys = ap (◌∷◌ x) (take-append xs ys)

  pub drop-append : (xs ys : List A) → drop (length xs) (xs ++ ys) ≡ ys
  drop-append [] ys = refl
  drop-append (x ∷ xs) ys = drop-append xs ys

  pub take_exact : (xs ys : List A) (n : ℕ) → length xs ≡ n → take n (xs ++ ys) ≡ xs
  take_exact xs ys n h = subst (λ k. take k (xs ++ ys) ≡ xs) h (take-append xs ys)

  pub drop_exact : (xs ys : List A) (n : ℕ) → length xs ≡ n → drop n (xs ++ ys) ≡ ys
  drop_exact xs ys n h = subst (λ k. drop k (xs ++ ys) ≡ ys) h (drop-append xs ys)

  abbrev pub replicate : ℕ → A → List A
  replicate zero a = []
  replicate (suc n) a = a ∷ replicate n a

  pub length-replicate : (n : ℕ) (a : A) → length (replicate n a) ≡ n
  length-replicate zero a = refl
  length-replicate (suc n) a = ap suc (length-replicate n a)

  -- A loop that sets a flag and breaks at the first element that passes.
  abbrev pub any_of : (A → Bool) → List A → Bool
  any_of p [] = false
  any_of p (x ∷ xs) = p x || any_of p xs

module _ {ℓ κ} {A : Type ℓ} where
  abbrev pub All : (A → Type κ) → List A → Type κ
  All P [] = Unit {κ}
  All P (x ∷ xs) = P x × All P xs

  pub All-append : (P : A → Type κ) (xs ys : List A) → All P xs → All P ys → All P (xs ++ ys)
  All-append P [] ys h k = k
  All-append P (x ∷ xs) ys h k = (h.0, All-append P xs ys h.1 k)

-- Some element satisfies `P`, and its place is kept.
abbrev pub Exists : {A : Type 0} → (A → Type 0) → List A → Type 0
Exists P [] = ⊥
Exists P (x ∷ xs) = P x ⊎ Exists P xs

pub any_of→Exists :
    {A : Type 0} (p : A → Bool) (xs : List A) → any_of p xs ≡ true → Exists (λ x. p x ≡ true) xs
any_of→Exists p [] h = cc
any_of→Exists p (x ∷ xs) h = elim (||_true (p x) (any_of p xs) h) [
  | inl e ↦ inl e
  | inr e ↦ inr (any_of→Exists p xs e)
]

pub Exists→any_of :
    {A : Type 0} (p : A → Bool) (xs : List A) → Exists (λ x. p x ≡ true) xs → any_of p xs ≡ true
Exists→any_of p [] h = absurd h
Exists→any_of p (x ∷ xs) (inl e) = rw e
Exists→any_of p (x ∷ xs) (inr h) = ground (arith, Exists→any_of p xs h)

pub any_of_iff :
    {A : Type 0} (p : A → Bool) (xs : List A) → (any_of p xs ≡ true) ↔ Exists (λ x. p x ≡ true) xs
any_of_iff p xs = (any_of→Exists p xs, Exists→any_of p xs)

pub Exists-map :
    {A : Type 0} (P Q : A → Type 0)
    → ((x : A) → P x → Q x)
    → (xs : List A) → Exists P xs
    → Exists Q xs
Exists-map P Q f [] h = h
Exists-map P Q f (x ∷ xs) (inl e) = inl (f x e)
Exists-map P Q f (x ∷ xs) (inr h) = inr (Exists-map P Q f xs h)
