-- ===== src/Proxy/Socks5/Auth.antt =====
-- Whole SOCKS5 handshakes, from the messages that a peer sends.
use warp_stream.Base.{
  ℕ, suc, ◌≤◌, ◌<◌, ◌^◌, ◌≡◌, subst, [], ◌∷◌, ◌++◌, append_assoc, length, length-append,
  take-append, drop-append, le→leb, Bytes, be16, be16-value, Text, arith,
}
use warp_stream.Base.Monad.{ok}
use warp_stream.Base.Net.{ip_string}
use warp_stream.Proxy.Socks5.{
  Socket, read_exact, read_host, read_request, success_reply, write_reply, write_with, guard,
}

abbrev pub socket : Bytes → Bytes → ℕ → Socket
socket i o w = record { input = i; output = o; writes = w }

pub read_exact-append :
    (xs s o : Bytes) (w : ℕ) → read_exact (length xs) (socket (xs ++ s) o w) ≡ (ok xs, socket s o w)
unfolding read_exact
read_exact-append xs s o w = rw (
  le→leb (length xs) (length (xs ++ s)) (omega (arith, length-append xs s)),
  take-append xs s,
  drop-append xs s,
)

-- What a peer may ask for.
pub data Address : Type 0 where
  ipv4 : ℕ → ℕ → ℕ → ℕ → Address
  domain : Text → Address
  ipv6 : Bytes → Address

abbrev pub IsAddress : Address → Type 0
IsAddress (ipv4 a b c d) = Unit {0}
IsAddress (domain t) = length t ≤ 255
IsAddress (ipv6 bs) = length bs ≡ 16

abbrev pub host_text : Address → Text
host_text (ipv4 a b c d) = ip_string (a ∷ b ∷ c ∷ d ∷ [])
host_text (domain t) = t
host_text (ipv6 bs) = ip_string bs

abbrev pub address_type : Address → ℕ
address_type (ipv4 a b c d) = 1
address_type (domain t) = 3
address_type (ipv6 bs) = 4

abbrev pub address_bytes : Address → Bytes
address_bytes (ipv4 a b c d) = a ∷ b ∷ c ∷ d ∷ []
address_bytes (domain t) = length t ∷ t
address_bytes (ipv6 bs) = bs

-- The three messages of a peer.
abbrev pub greeting : Bytes → Bytes
greeting methods = 5 ∷ length methods ∷ methods

abbrev pub login : Text → Text → Bytes
login username password = 1 ∷ length username ∷ (username ++ length password ∷ password)

abbrev pub request : Address → ℕ → Bytes
request a port = 5 ∷ 1 ∷ 0 ∷ address_type a ∷ (address_bytes a ++ be16 port)

read_sixteen :
    (bs s o : Bytes) (w : ℕ)
    → length bs ≡ 16
    → read_exact 16 (socket (bs ++ s) o w) ≡ (ok bs, socket s o w)
read_sixteen bs s o w h =
    subst (λ k. read_exact k (socket (bs ++ s) o w) ≡ (ok bs, socket s o w)) h
      (read_exact-append bs s o w)

read_host-address :
    (a : Address) (s o : Bytes) (w : ℕ)
    → IsAddress a
    → read_host (address_type a) (socket (address_bytes a ++ s) o w)
      ≡ (ok (host_text a), socket s o w)
unfolding read_host
read_host-address (ipv4 a b c d) s o w h = rw (read_exact-append (a ∷ b ∷ c ∷ d ∷ []) s o w)
read_host-address (domain t) s o w h =
    rw (read_exact-append (length t ∷ []) (t ++ s) o w, read_exact-append t s o w)
read_host-address (ipv6 bs) s o w h = rw (read_sixteen bs s o w h)

pub read_request-request :
    (a : Address) (port : ℕ) (s o : Bytes) (w : ℕ)
    → IsAddress a
    → port < 2 ^ 16
    → read_request (socket (request a port ++ s) o (suc w))
      ≡ (ok (host_text a, port), socket s (o ++ success_reply) w)
unfolding read_request guard write_reply write_with
read_request-request a port s o w h hp = rw (
  read_exact-append (5 ∷ 1 ∷ 0 ∷ address_type a ∷ []) ((address_bytes a ++ be16 port) ++ s) o
      (suc w),
  append_assoc (address_bytes a) (be16 port) s,
  read_host-address a (be16 port ++ s) o (suc w) h,
  read_exact-append (be16 port) s o (suc w),
  be16-value port hp,
)
