-- ===== src/Client/Connect/Token.antt =====
-- pkg/client/client.go and pkg/server/server.go: the token in the header field of the subprotocols.
use warp_stream.Base.{
  ◌≡◌, refl, false, [], ◌∷◌, ◌++◌, All-append, ◌==◌, Text, codes, has_prefix, trim_prefix,
  trim_space, trim_right, skip_spaces, is_space, split_on, All,
}
use warp_stream.Base.Trim.{HasNoSpace, trim_right-HasNoSpace}
use warp_stream.Protocol.{jwt_header_prefix}
use warp_stream.Server.Restrictions.{is_empty}
use warp_stream.Server.Gateway.{bearer}

-- A token as the JWT library makes it: not empty, with no comma and no space.
abbrev pub IsCompact : Text → Type 0
IsCompact token =
    (is_empty token ≡ false) × All (λ c. ((c == b',') ≡ false) × (is_space c ≡ false)) token

abbrev pub Plain : Text → Type 0
Plain = All (λ c. ((c == b',') ≡ false) × (is_space c ≡ false))

split_on-plain : (s : Text) → All (λ c. (c == b',') ≡ false) s → split_on b',' s ≡ s ∷ []
unfolding split_on
split_on-plain [] h = refl
split_on-plain (c ∷ s) h = rw (split_on-plain s h.1, h.0)

no_comma : (s : Text) → Plain s → All (λ c. (c == b',') ≡ false) s
no_comma [] h = tt
no_comma (c ∷ s) h = (h.0.0, no_comma s h.1)

no_space : (s : Text) → Plain s → HasNoSpace s
no_space [] h = tt
no_space (c ∷ s) h = (h.0.1, no_space s h.1)

Plain-prefix : (token : Text) → Plain token → Plain (jwt_header_prefix ++ token)
unfolding is_space
Plain-prefix token h =
    All-append (λ c. ((c == b',') ≡ false) × (is_space c ≡ false)) jwt_header_prefix token (search)
      h

pub trim-v1 : trim_space (codes "v1") ≡ codes "v1"
unfolding trim_space skip_spaces trim_right is_space
trim-v1 = refl

trim-prefixed :
    (token : Text)
    → Plain token
    → trim_space (b' ' ∷ (jwt_header_prefix ++ token)) ≡ jwt_header_prefix ++ token
unfolding trim_space skip_spaces is_space
trim-prefixed token h =
    trim_right-HasNoSpace (jwt_header_prefix ++ token)
      (no_space (jwt_header_prefix ++ token) (Plain-prefix token h))

pub split_field :
    (token : Text)
    → Plain token
    → split_on b',' (codes "v1, " ++ (jwt_header_prefix ++ token))
      ≡ codes "v1" ∷ (b' ' ∷ (jwt_header_prefix ++ token)) ∷ []
unfolding split_on
split_field token h = rw (
    split_on-plain (jwt_header_prefix ++ token)
      (no_comma (jwt_header_prefix ++ token) (Plain-prefix token h)))

-- The server finds the token in the header field that the client writes, and offers `v1`.
pub bearer_lem :
    (token : Text)
    → Plain token
    → bearer (codes "v1" ∷ (b' ' ∷ (jwt_header_prefix ++ token)) ∷ []) ≡ token
unfolding bearer has_prefix trim_prefix
bearer_lem token h = rw (trim-v1, trim-prefixed token h)
