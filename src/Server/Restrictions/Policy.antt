-- ===== src/Server/Restrictions/Policy.antt =====
-- pkg/server/restrictions.go: what a policy file grants, said without loops and early returns.
use warp_stream.Base.{
  ℕ, ◌≤◌, ◌≡◌, ◌↔◌, ◌⊎◌, inl, inr, refl, Option, none, some, List, [], ◌∷◌, any_of, any_of_iff,
  Exists, Exists-map, Bool, true, ◌||◌, Text, Bytes, equal_fold, arith,
}
use warp_stream.Base.Net.{NetCidr, contains}
use warp_stream.Protocol.{JwtTunnelConfig}
use warp_stream.Server.Restrictions.{
  Regexp, PortRange, get_proto_name, set_and_matches, is_empty, protocol_allowed, in_range,
  port_allowed, host_allowed,
}

-- A pattern that is set and matches.
abbrev pub Sets : Option Regexp → Text → Type 0
Sets o s = (r : Regexp) × (o ≡ some r) × (r s ≡ true)

-- A pattern that is set must match.
abbrev pub Respects : Option Regexp → Text → Type 0
Respects o s = (o ≡ none) ⊎ Sets o s

-- An empty list restricts nothing.
abbrev pub OneOf : {A : Type 0} → (A → Type 0) → List A → Type 0
OneOf P xs = (xs ≡ []) ⊎ Exists P xs

abbrev pub Names : JwtTunnelConfig → List Text → Type 0
Names claims = OneOf (λ name. equal_fold name (get_proto_name claims.protocol) ≡ true)

abbrev pub Covers : ℕ → List PortRange → Type 0
Covers port = OneOf (λ r. (r.min_port ≤ port) × (port ≤ r.max_port))

abbrev pub Holds : Bytes → List NetCidr → Type 0
Holds ip = OneOf (λ n. contains n ip ≡ true)

empty_or_any :
    {A : Type 0} (p : A → Bool) (P : A → Type 0) (xs : List A)
    → ((x : A) → (p x ≡ true) ↔ P x)
    → ((is_empty xs || any_of p xs) ≡ true) ↔ OneOf P xs
empty_or_any p P [] f = (λ _. inl refl, λ _. refl)
empty_or_any p P (x ∷ xs) f = (
  λ h. inr (Exists-map _ P (λ y. (f y).0) (x ∷ xs) ((any_of_iff p (x ∷ xs)).0 h)),
  elim [
    | inl e ↦ cc
    | inr h ↦ (any_of_iff p (x ∷ xs)).1 (Exists-map P _ (λ y. (f y).1) (x ∷ xs) h)
  ],
)

pub Names-iff :
    (claims : JwtTunnelConfig) (names : List Text)
    → (protocol_allowed names claims.protocol ≡ true) ↔ Names claims names
unfolding protocol_allowed
Names-iff claims names = empty_or_any _ _ names (λ x. (λ h. h, λ h. h))

pub Covers-iff :
    (port : ℕ) (ranges : List PortRange) → (port_allowed ranges port ≡ true) ↔ Covers port ranges
unfolding port_allowed in_range
Covers-iff port ranges =
    empty_or_any (in_range port) _ ranges
      λ r. (λ h. (ground (arith, h), ground (arith, h)), λ h. ground (arith, h))

pub host_allowed_iff : (o : Option Regexp) (s : Text) → (host_allowed o s ≡ true) ↔ Respects o s
unfolding host_allowed
host_allowed_iff none s = (λ h. inl refl, λ h. refl)
host_allowed_iff (some r) s = (λ h. inr (r, refl, h), elim [ inl e ↦ cc | inr (q, e, h) ↦ cc ])

pub set_and_matches_iff : (o : Option Regexp) (s : Text) → (set_and_matches o s ≡ true) ↔ Sets o s
set_and_matches_iff none s = (λ h. cc, λ (q, e, h). cc)
set_and_matches_iff (some r) s = (λ h. (r, refl, h), λ (q, e, h). cc)
