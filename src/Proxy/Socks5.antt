-- ===== src/Proxy/Socks5.antt =====
-- SOCKS5: handleSocks5Handshake of pkg/server/manager.go and handleSocks5 of pkg/client/client.go.
pub mod ConstantTime
pub mod Auth
pub mod Handshakes
use warp_stream.Base.{
  ℕ, zero, suc, ◌%◌, ◌^◌, Bool, not, ◌&&◌, ◌||◌, Option, none, some, is_some, [], ◌∷◌, ◌++◌, length,
  take, drop, leb, ◌==◌, any_of, if◌then◌else◌, bit_or, bit_xor, Bytes, be_value, Text,
}
use warp_stream.Base.Monad.{Step, ok, err, return, fail, ◌>>=◌, ◌>>◌}
use warp_stream.Base.Net.{ip_string}
use warp_stream.Protocol.{Credentials}
use warp_stream.Wst.Reader.{get_or_zero}

-- A connection: the bytes that it still has to read, those written to it, and how many more calls
-- of Write succeed.
pub record Socket : Type 0 where
  pub input : Bytes
  pub output : Bytes
  pub writes : ℕ

pub data SocksError : Type 0 where
  end_of_input write_failed no_acceptable_method invalid_credentials : SocksError
  invalid_version unsupported_command unsupported_address unsupported_auth : ℕ → SocksError

abbrev pub Handshake : Type 0 → Type 0
Handshake A = Step Socket SocksError A

-- io.ReadFull into `n` bytes of the buffer.
unfoldable pub read_exact : ℕ → Handshake Bytes
read_exact n c =
    if leb n (length c.input)
    then (ok (take n c.input), record c { input = drop n c.input })
    else (err end_of_input, record c { input = [] })

unfoldable pub write_with : ℕ → Bytes → Handshake (Unit {0})
write_with zero bs c = (err write_failed, c)
write_with (suc n) bs c = (ok tt, record c { output = c.output ++ bs; writes = n })

unfoldable pub write_reply : Bytes → Handshake (Unit {0})
write_reply bs c = write_with c.writes bs c

unfoldable pub guard : Bool → SocksError → Handshake (Unit {0})
guard b e = if b then return tt else fail e

-- The first message: the version and the methods that the peer offers.
unfoldable pub read_methods : Handshake Bytes
read_methods = do
  head ← read_exact 2
  guard (get_or_zero head 0 == 0x05) (invalid_version (get_or_zero head 0))
  read_exact (get_or_zero head 1)

-- The switch on the address type.
unfoldable pub read_host : ℕ → Handshake Text
read_host atyp =
    if atyp == 0x01
    then (do bs ← read_exact 4; return (ip_string bs))
    else if atyp == 0x03
    then (do n ← read_exact 1; read_exact (get_or_zero n 0))
    else if atyp == 0x04
    then (do bs ← read_exact 16; return (ip_string bs))
    else fail (unsupported_address atyp)

abbrev pub success_reply : Bytes
success_reply = 0x05 ∷ 0x00 ∷ 0x00 ∷ 0x01 ∷ 0 ∷ 0 ∷ 0 ∷ 0 ∷ 0 ∷ 0 ∷ []

-- The request, the same lines in both handlers.
unfoldable pub read_request : Handshake (Text × ℕ)
read_request = do
  head ← read_exact 4
  guard (get_or_zero head 0 == 0x05 && get_or_zero head 1 == 0x01)
      (unsupported_command (get_or_zero head 1))
  host ← read_host (get_or_zero head 3)
  port ← read_exact 2
  write_reply success_reply
  return (host, be_value 0 port)

-- handleSocks5Handshake.
unfoldable pub handle_socks5_handshake : Handshake (Text × ℕ)
handle_socks5_handshake = do methods ← read_methods; write_reply (0x05 ∷ 0x00 ∷ []); read_request

-- The loop of constantTimeEqualBytes: a byte past an end counts as 0.
unfoldable pub byte_diff : ℕ → Bytes → Bytes → ℕ
byte_diff diff [] [] = diff
byte_diff diff (a ∷ as') [] = byte_diff (bit_or diff (bit_xor a 0)) as' []
byte_diff diff [] (b ∷ bs) = byte_diff (bit_or diff (bit_xor 0 b)) [] bs
byte_diff diff (a ∷ as') (b ∷ bs) = byte_diff (bit_or diff (bit_xor a b)) as' bs

-- `int32(len(actual) ^ len(expected))` as its bit pattern, then the loop.
unfoldable pub constant_time_equal_bytes : Bytes → Bytes → Bool
constant_time_equal_bytes actual expected =
    byte_diff (bit_xor (length actual) (length expected) % 2 ^ 32) actual expected == 0

unfoldable pub contains_socks5_method : Bytes → ℕ → Bool
contains_socks5_method methods want = any_of (λ m. m == want) methods

unfoldable pub selected_method : Option Credentials → ℕ
selected_method credentials = if is_some credentials then 0x02 else 0x00

unfoldable pub auth_status : Credentials → Bytes → Bytes → ℕ
auth_status credentials username password =
    if not (constant_time_equal_bytes username credentials.username)
      || not (constant_time_equal_bytes password credentials.password)
    then 0x01
    else 0x00

-- The username and password exchange, when that method is selected.
unfoldable pub authenticate : Option Credentials → Handshake (Unit {0})
authenticate none = return tt
authenticate (some credentials) = do
  head ← read_exact 2
  guard (get_or_zero head 0 == 0x01) (unsupported_auth (get_or_zero head 0))
  username ← read_exact (get_or_zero head 1)
  plen ← read_exact 1
  password ← read_exact (get_or_zero plen 0)
  let status = auth_status credentials username password
  write_reply (0x01 ∷ status ∷ [])
  guard (status == 0x00) invalid_credentials

-- The answer to the offered methods.
unfoldable pub select_method : Bytes → ℕ → Handshake (Unit {0})
select_method methods selected =
    if contains_socks5_method methods selected
    then write_reply (0x05 ∷ selected ∷ [])
    else (do write_reply (0x05 ∷ 0xFF ∷ []); fail no_acceptable_method)

-- handleSocks5.
unfoldable pub handle_socks5 : Option Credentials → Handshake (Text × ℕ)
handle_socks5 credentials = do
  methods ← read_methods
  select_method methods (selected_method credentials)
  authenticate credentials
  read_request
