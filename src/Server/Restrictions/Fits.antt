-- ===== src/Server/Restrictions/Fits.antt =====
-- pkg/server/restrictions.go: which requests a rule is for, and the tests that its decision is made of.
use warp_stream.Base.{
  ◌≡◌, ◌↔◌, ◌⊎◌, inl, inr, refl, Option, none, some, is_some, List, [], ◌∷◌, any_of, any_of_iff,
  Exists, Bool, true, false, not, ◌||◌, Text, Bytes, if◌then◌else◌, arith,
}
use warp_stream.Base.Net.{NetCidr, contains}
use warp_stream.Server.Restrictions.{MatchConfig, set_and_matches, matches_one, is_empty, on_ip}
use warp_stream.Server.Restrictions.Policy.{Sets, set_and_matches_iff}

-- A rule is for a request that one of its match entries fits.
abbrev pub Fits : Text → Text → Text → MatchConfig → Type 0
Fits path auth common_name m =
    (m.any ≡ true)
    ⊎ (Sets m.path_prefix path
        ⊎ (Sets m.authorization auth ⊎ Sets m.client_common_name common_name))

pub ||_iff :
    {P Q : Type 0} (a b : Bool) → ((a ≡ true) ↔ P) → ((b ≡ true) ↔ Q) → ((a || b) ≡ true) ↔ (P ⊎ Q)
||_iff true b f g = (λ h. inl (f.0 refl), λ h. refl)
||_iff false b f g = (λ h. inr (g.0 h), elim [ inl p ↦ cc (f.1 p) | inr q ↦ g.1 q ])

pub Fits-iff :
    (path auth common_name : Text) (m : MatchConfig)
    → (matches_one path auth common_name m ≡ true) ↔ Fits path auth common_name m
unfolding matches_one
Fits-iff path auth common_name m =
    ||_iff m.any _ (λ h. h, λ h. h)
      (||_iff (set_and_matches m.path_prefix path) _ (set_and_matches_iff m.path_prefix path) (
        ||_iff (set_and_matches m.authorization auth) _ (set_and_matches_iff m.authorization auth)
          (set_and_matches_iff m.client_common_name common_name)))

pub both_iff :
    {P Q : Type 0} (a b : Bool)
    → ((a ≡ true) ↔ P)
    → ((b ≡ true) ↔ Q)
    → ((if not a then false else b) ≡ true) ↔ (P × Q)
both_iff true b f g = (λ h. (f.0 refl, g.0 h), λ h. g.1 h.1)
both_iff false b f g = (λ h. cc, λ h. cc (f.1 h.0))

pub is_empty_iff : {A : Type 0} (xs : List A) → (is_empty xs ≡ true) ↔ (xs ≡ [])
is_empty_iff [] = (λ h. refl, λ h. refl)
is_empty_iff (x ∷ xs) = (λ h. cc, λ h. cc)

pub is_some_iff : {A : Type 0} (o : Option A) → (is_some o ≡ true) ↔ ((a : A) × (o ≡ some a))
is_some_iff none = (λ h. cc, λ (a, e). cc)
is_some_iff (some a) = (λ h. (a, refl), λ h. refl)

abbrev pub InOne : Bytes → List NetCidr → Type 0
InOne ip nets = Exists (λ n. contains n ip ≡ true) nets

-- The test of the address, where it is one; `d` where it is none.
pub on_ip_iff :
    {Q : Type 0} (o : Option Bytes) (nets : List NetCidr) (d : Bool)
    → ((d ≡ true) ↔ Q)
    → (on_ip o (λ ip. any_of (λ n. contains n ip) nets) d ≡ true)
      ↔ (((ip : Bytes) × (o ≡ some ip) × InOne ip nets) ⊎ ((o ≡ none) × Q))
on_ip_iff (some ip) nets d f = (
  λ h. inl (ip, refl, (any_of_iff _ nets).0 h),
  elim [
    | inl (jp, e, h) ↦ let g : ip ≡ jp = ground arith in (any_of_iff _ nets).1 (rw g h)
    | inr (e, q) ↦ cc
  ],
)
on_ip_iff none nets d f =
    (λ h. inr (refl, f.0 h), elim [ inl (jp, e, h) ↦ cc | inr (e, q) ↦ f.1 q ])
