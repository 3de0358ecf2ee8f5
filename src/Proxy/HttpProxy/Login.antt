-- ===== src/Proxy/HttpProxy/Login.antt =====
-- pkg/client/client.go: who may use a client's HTTP proxy.
use warp_stream.Base.{
  ℕ, ◌/◌, ◌%◌, ◌+◌, ◌*◌, ◌^◌, ◌<◌, ◌≡◌, refl, ◌∙◌, ap, subst, true, false, some, [], ◌∷◌, ◌++◌,
  length, All, if◌then◌else◌, Text, codes, text_eq, text_eq_iff, has_prefix, cut, equal_fold,
  to_lower, is_space, trim_space, skip_spaces, IsByte, Bytes, arith, Bool-cases, inl, inr,
}
use warp_stream.Base.Trim.{
  HasNoSpace, trim_right-HasNoSpace, trim_space-HasNoSpace, trim_right-cons,
}
use warp_stream.Base.Base64.{digit, encode, decode}
use warp_stream.Base.Base64.RoundTrip.{decode-encode}
use warp_stream.Base.Net.{split_host_port}
use warp_stream.Protocol.{Credentials}
use warp_stream.Proxy.Socks5.{constant_time_equal_bytes}
use warp_stream.Proxy.Socks5.ConstantTime.{constant_time_equal_bytes_iff}
use warp_stream.Proxy.HttpProxy.{
  Request, is_connect, expected_login, check_payload, check_parts, authenticate_http_proxy,
  answered, closes, Answers, tunnel_to, serve_request, after_request, handle_http_proxy,
}

digit_not_space : (n : ℕ) → n < 64 → is_space (digit n) ≡ false
unfolding digit is_space
digit_not_space n h = ground arith

pad_not_space : is_space b'=' ≡ false
unfolding is_space
pad_not_space = refl

encode-HasNoSpace : (s : Bytes) → All IsByte s → HasNoSpace (encode s)
unfolding encode
encode-HasNoSpace [] h = tt
encode-HasNoSpace (a ∷ []) h = (
  digit_not_space (a / 4) (omega arith),
  (digit_not_space (a % 4 * 16) (omega arith), (pad_not_space, (pad_not_space, tt))),
)
encode-HasNoSpace (a ∷ b ∷ []) h = (
  digit_not_space (a / 4) (omega arith),
  (
    digit_not_space (a % 4 * 16 + b / 16) (omega arith),
    (digit_not_space (b % 16 * 4) (omega arith), (pad_not_space, tt)),
  ),
)
encode-HasNoSpace (a ∷ b ∷ c ∷ s) h = (
  digit_not_space (a / 4) (omega arith),
  (
    digit_not_space (a % 4 * 16 + b / 16) (omega arith),
    (
      digit_not_space (b % 16 * 4 + c / 64) (omega arith),
      (digit_not_space (c % 64) (omega arith), encode-HasNoSpace s h.1.1.1),
    ),
  ),
)

-- The header that a browser or curl sends for a login.
abbrev pub basic : Text → Text
basic s = codes "Basic " ++ s

trim-basic : (d : ℕ) (s : Text) → HasNoSpace (d ∷ s) → trim_space (basic (d ∷ s)) ≡ basic (d ∷ s)
unfolding trim_space skip_spaces is_space
trim-basic d s h = trim_right-cons _ _ _ _ (
    trim_right-cons _ _ _ _ (
      trim_right-cons _ _ _ _ (
        trim_right-cons _ _ _ _
          (trim_right-cons _ _ _ _ (trim_right-cons _ _ _ _ (trim_right-HasNoSpace (d ∷ s) h))))))

cut-basic : (s : Text) → cut (codes " ") (basic s) ≡ some (codes "Basic", s)
unfolding cut has_prefix
cut-basic s = refl

basic_matches : equal_fold (codes "Basic") (codes "Basic") ≡ true
unfolding equal_fold text_eq to_lower
basic_matches = refl

authenticate-basic :
    (c : Credentials) (x : Bytes) (d : ℕ) (s : Text)
    → encode x ≡ d ∷ s
    → All IsByte x
    → authenticate_http_proxy (basic (encode x)) (some c)
      ≡ constant_time_equal_bytes x (expected_login c)
unfolding authenticate_http_proxy check_parts check_payload
authenticate-basic c x d s e h =
    let plain : HasNoSpace (d ∷ s) = subst HasNoSpace e (encode-HasNoSpace x h) in
    let decoded : decode (d ∷ s) ≡ some x =
      subst (λ (t : Bytes). decode t ≡ some x) e (decode-encode x h) in
    rw (
      e,
      trim-basic d s plain,
      cut-basic (d ∷ s),
      basic_matches,
      trim_space-HasNoSpace (d ∷ s) plain,
      decoded,
    )

encode-cons : (a : ℕ) (x : Bytes) → (d : ℕ) × (s : Text) × (encode (a ∷ x) ≡ d ∷ s)
unfolding encode
encode-cons a [] = (_, _, refl)
encode-cons a (b ∷ []) = (_, _, refl)
encode-cons a (b ∷ c ∷ x) = (_, _, refl)

login-cons : (u p : Text) → (a : ℕ) × (x : Bytes) × (u ++ b':' ∷ p ≡ a ∷ x)
login-cons [] p = (b':', p, refl)
login-cons (a ∷ u) p = (a, u ++ b':' ∷ p, refl)

-- The comparison of a login that a peer encodes in the header with the configured one.
authenticate-login :
    (c : Credentials) (username password : Text)
    → All IsByte (username ++ b':' ∷ password)
    → authenticate_http_proxy (basic (encode (username ++ b':' ∷ password))) (some c)
      ≡ constant_time_equal_bytes (username ++ b':' ∷ password) (expected_login c)
authenticate-login c username password h =
    let (a, x, e) = login-cons username password in
    let (d, s, f) = encode-cons a x in
    authenticate-basic c (username ++ b':' ∷ password) d s (ap encode e ∙ f) h

constant_time-text_eq :
    (a b : Text)
    → length a < 2 ^ 31
    → length b < 2 ^ 31
    → constant_time_equal_bytes a b ≡ text_eq a b
constant_time-text_eq a b ha hb = elim (Bool-cases (text_eq a b)) [
  | inl same ↦ rw same ((constant_time_equal_bytes_iff a b ha hb).1 ((text_eq_iff a b).0 same))
  | inr other ↦ elim (Bool-cases (constant_time_equal_bytes a b)) [
    | inl same ↦ cc ((text_eq_iff a b).1 ((constant_time_equal_bytes_iff a b ha hb).0 same))
    | inr differ ↦ rw (other, differ)
  ]
]

-- A client's HTTP proxy with credentials, and a CONNECT request whose header has a login by the Basic
-- scheme: the proxy answers 200 and opens the tunnel to the request's host and port (or drops a request
-- without them) if the login is the configured one, and else answers 407 and does nothing more. Both
-- logins, `username:password`, are shorter than 2 ^ 31 bytes.
pub handle_http_proxy-login :
    (c : Credentials) (env : Answers) (r : Request) (buffered coming username password : Text)
    → is_connect r ≡ true
    → r.proxy_authorization ≡ basic (encode (username ++ b':' ∷ password))
    → All IsByte (username ++ b':' ∷ password)
    → length (username ++ b':' ∷ password) < 2 ^ 31
    → length (c.username ++ b':' ∷ c.password) < 2 ^ 31
    → handle_http_proxy
        (some c)
        env
        (record { request = some r; buffered = buffered; coming = coming })
      ≡ (if text_eq (username ++ b':' ∷ password) (c.username ++ b':' ∷ c.password)
          then tunnel_to env coming (split_host_port r.host)
          else answered 407 ∷ [])
        ++ closes ∷ []
unfolding handle_http_proxy after_request serve_request expected_login
handle_http_proxy-login c env r buffered coming username password connect header bytes short
      short' =
    rw
      (
        connect,
        header,
        authenticate-login c username password bytes,
        constant_time-text_eq (username ++ b':' ∷ password) (c.username ++ b':' ∷ c.password) short
            short',
      )
      (elim (Bool-cases (text_eq (username ++ b':' ∷ password) (c.username ++ b':' ∷ c.password))) [
        | inl same ↦ rw same
        | inr differ ↦ rw differ
      ])
