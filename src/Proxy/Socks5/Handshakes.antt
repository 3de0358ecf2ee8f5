-- ===== src/Proxy/Socks5/Handshakes.antt =====
-- The two SOCKS5 handlers on whole handshakes: what they return, what they answer, what they leave.
use warp_stream.Base.{
  ℕ, suc, ◌<◌, ◌^◌, ◌≡◌, refl, true, false, Option, none, some, [], ◌∷◌, ◌++◌, append_assoc, length,
  ◌==◌, Bool-cases, inl, inr, Bytes,
}
use warp_stream.Base.Monad.{ok, err}
use warp_stream.Protocol.{Credentials}
use warp_stream.Proxy.Socks5.{
  read_methods, success_reply, write_reply, write_with, guard, contains_socks5_method,
  selected_method, select_method, auth_status, authenticate, constant_time_equal_bytes,
  handle_socks5, handle_socks5_handshake, no_acceptable_method, invalid_credentials,
}
use warp_stream.Proxy.Socks5.ConstantTime.{constant_time_equal_bytes_iff}
use warp_stream.Proxy.Socks5.Auth.{
  socket, read_exact-append, Address, IsAddress, host_text, greeting, login, request,
  read_request-request,
}

read_methods-greeting :
    (ms s o : Bytes) (w : ℕ) → read_methods (socket (greeting ms ++ s) o w) ≡ (ok ms, socket s o w)
unfolding read_methods guard
read_methods-greeting ms s o w =
    rw (read_exact-append (5 ∷ length ms ∷ []) (ms ++ s) o w, read_exact-append ms s o w)

-- The server's handler, on a greeting with any methods and a request for an IPv4 address, a domain
-- of at most 255 bytes or an IPv6 address: it returns that host and port, has answered with "no
-- authentication" and success, and has read those two messages and no more.
pub handle_socks5_handshake-request :
    (ms : Bytes) (a : Address) (port : ℕ) (s o : Bytes) (w : ℕ)
    → IsAddress a
    → port < 2 ^ 16
    → handle_socks5_handshake (socket (greeting ms ++ (request a port ++ s)) o (suc (suc w)))
      ≡ (ok (host_text a, port), socket s ((o ++ 5 ∷ 0 ∷ []) ++ success_reply) w)
unfolding handle_socks5_handshake write_reply write_with
handle_socks5_handshake-request ms a port s o w h hp = rw (
  read_methods-greeting ms (request a port ++ s) o (suc (suc w)),
  read_request-request a port s (o ++ 5 ∷ 0 ∷ []) w h hp,
)

-- With no credentials the client's handler does the same, if the greeting offers "no authentication".
pub handle_socks5-request :
    (ms : Bytes) (a : Address) (port : ℕ) (s o : Bytes) (w : ℕ)
    → contains_socks5_method ms 0 ≡ true
    → IsAddress a
    → port < 2 ^ 16
    → handle_socks5 none (socket (greeting ms ++ (request a port ++ s)) o (suc (suc w)))
      ≡ (ok (host_text a, port), socket s ((o ++ 5 ∷ 0 ∷ []) ++ success_reply) w)
unfolding handle_socks5 select_method selected_method authenticate write_reply write_with
handle_socks5-request ms a port s o w m h hp = rw (
  read_methods-greeting ms (request a port ++ s) o (suc (suc w)),
  m,
  read_request-request a port s (o ++ 5 ∷ 0 ∷ []) w h hp,
)

-- A greeting without the method that the handler needs is answered with 255 and refused, and nothing
-- behind it is read.
pub handle_socks5-no_method :
    (credentials : Option Credentials) (ms s o : Bytes) (w : ℕ)
    → contains_socks5_method ms (selected_method credentials) ≡ false
    → handle_socks5 credentials (socket (greeting ms ++ s) o (suc w))
      ≡ (err no_acceptable_method, socket s (o ++ 5 ∷ 255 ∷ []) w)
unfolding handle_socks5 select_method write_reply write_with
handle_socks5-no_method credentials ms s o w m = rw (read_methods-greeting ms s o (suc w), m)

authenticate-login :
    (c : Credentials) (u p s o : Bytes) (w : ℕ)
    → authenticate (some c) (socket (login u p ++ s) o (suc w))
      ≡ guard
          (auth_status c u p == 0)
          invalid_credentials
          (socket s (o ++ 1 ∷ auth_status c u p ∷ []) w)
unfolding authenticate guard write_reply write_with
authenticate-login c u p s o w = rw (
  append_assoc u (length p ∷ p) s,
  read_exact-append (1 ∷ length u ∷ []) (u ++ (length p ∷ (p ++ s))) o (suc w),
  read_exact-append u (length p ∷ (p ++ s)) o (suc w),
  read_exact-append (length p ∷ []) (p ++ s) o (suc w),
  read_exact-append p s o (suc w),
)

-- Lengths of Go strings that the loop's int32 can tell apart.
abbrev pub IsShort : Bytes → Type 0
IsShort s = length s < 2 ^ 31

status_right :
    (c : Credentials)
    → IsShort c.username
    → IsShort c.password
    → auth_status c c.username c.password ≡ 0
unfolding auth_status
status_right c hu hp = rw (
  (constant_time_equal_bytes_iff c.username c.username hu hu).1 refl,
  (constant_time_equal_bytes_iff c.password c.password hp hp).1 refl,
)

status_wrong :
    (c : Credentials) (u p : Bytes)
    → IsShort c.username
    → IsShort c.password
    → IsShort u
    → IsShort p
    → ¬ ((u ≡ c.username) × (p ≡ c.password))
    → auth_status c u p ≡ 1
unfolding auth_status
status_wrong c u p hcu hcp hu hp ne = elim (Bool-cases (constant_time_equal_bytes u c.username)) [
  | inr f ↦ rw f
  | inl t ↦ elim (Bool-cases (constant_time_equal_bytes p c.password)) [
    | inr g ↦ rw (t, g)
    | inl r ↦ absurd (
        ne (
          (constant_time_equal_bytes_iff u c.username hu hcu).0 t,
          (constant_time_equal_bytes_iff p c.password hp hcp).0 r,
        ))
  ]
]

-- With credentials, a peer that offers the password method, sends exactly that username and password
-- and then a request gets its host and port returned, and the answers method 2, status 0 and success.
pub handle_socks5-login :
    (c : Credentials) (ms : Bytes) (a : Address) (port : ℕ) (s o : Bytes) (w : ℕ)
    → IsShort c.username
    → IsShort c.password
    → contains_socks5_method ms 2 ≡ true
    → IsAddress a
    → port < 2 ^ 16
    → handle_socks5 (some c) (
        socket
          (greeting ms ++ (login c.username c.password ++ (request a port ++ s)))
          o
          (suc (suc (suc w))))
      ≡ (ok (host_text a, port), socket s (((o ++ 5 ∷ 2 ∷ []) ++ 1 ∷ 0 ∷ []) ++ success_reply) w)
unfolding handle_socks5 select_method selected_method write_reply write_with guard
handle_socks5-login c ms a port s o w hu hp m h hport = rw (
  read_methods-greeting ms (login c.username c.password ++ (request a port ++ s)) o
      (suc (suc (suc w))),
  m,
  authenticate-login c c.username c.password (request a port ++ s) (o ++ 5 ∷ 2 ∷ []) (suc w),
  status_right c hu hp,
  read_request-request a port s ((o ++ 5 ∷ 2 ∷ []) ++ 1 ∷ 0 ∷ []) w h hport,
)

-- With credentials, a peer that offers the password method and sends any other username or password
-- is answered status 1 and refused, and what it sends behind them is not read.
pub handle_socks5-wrong_login :
    (c : Credentials) (ms u p s o : Bytes) (w : ℕ)
    → IsShort c.username
    → IsShort c.password
    → IsShort u
    → IsShort p
    → contains_socks5_method ms 2 ≡ true
    → ¬ ((u ≡ c.username) × (p ≡ c.password))
    → handle_socks5 (some c) (socket (greeting ms ++ (login u p ++ s)) o (suc (suc w)))
      ≡ (err invalid_credentials, socket s ((o ++ 5 ∷ 2 ∷ []) ++ 1 ∷ 1 ∷ []) w)
unfolding handle_socks5 select_method selected_method write_reply write_with guard
handle_socks5-wrong_login c ms u p s o w hcu hcp hu hp m ne = rw (
  read_methods-greeting ms (login u p ++ s) o (suc (suc w)),
  m,
  authenticate-login c u p s (o ++ 5 ∷ 2 ∷ []) w,
  status_wrong c u p hcu hcp hu hp ne,
)
