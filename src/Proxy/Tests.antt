-- ===== src/Proxy/Tests.antt =====
-- Runs of the SOCKS5 handshakes and of the target frame.
use warp_stream.Base.{ℕ, ap, ◌≡◌, ◌≢◌, refl, some, [], ◌∷◌, ◌++◌, Bytes, Text, codes, arith}
use warp_stream.Base.Monad.{ok, err}
use warp_stream.Wst.Reader.{get_or_zero}
use warp_stream.Protocol.{Credentials}
use warp_stream.Proxy.TargetFrame.{encode_target_frame, read_target_frame}
use warp_stream.Proxy.TargetFrame.RoundTrip.{by_h2, carrying, read_target_frame-encode}
use warp_stream.Proxy.Socks5.{contains_socks5_method, handle_socks5, invalid_credentials}
use warp_stream.Proxy.Socks5.Auth.{socket, greeting, login}
use warp_stream.Proxy.Socks5.Handshakes.{handle_socks5-wrong_login}

abbrev host : Text
host = codes "db.local"

abbrev alice : Credentials
alice = record { username = codes "alice"; password = codes "secret" }

read_target_frame-encode_example :
    (f : Bytes) × (encode_target_frame host 5432 ≡ ok f)
    × (read_target_frame (carrying (by_h2 (1 ∷ [])) f) ≡ ok (host, 5432))
read_target_frame-encode_example =
    read_target_frame-encode host 5432 (by_h2 (1 ∷ [])) (omega arith) (omega arith)

abbrev zero_byte : Bytes
zero_byte = 0 ∷ []

other_name : codes "alicf" ≢ codes "alice"
other_name e = omega (arith, ap last_byte e)
  where
    last_byte : Text → ℕ
    last_byte s = get_or_zero s 4

handle_socks5-wrong_login_example :
    handle_socks5
      (some alice)
      (socket (greeting (2 ∷ []) ++ (login (codes "alicf") (codes "secret") ++ 5 ∷ [])) [] 2)
    ≡ (err invalid_credentials, socket (5 ∷ []) ((5 ∷ 2 ∷ []) ++ 1 ∷ 1 ∷ []) 0)
unfolding contains_socks5_method
handle_socks5-wrong_login_example =
    handle_socks5-wrong_login alice (2 ∷ []) (codes "alicf") (codes "secret") (5 ∷ []) [] 0
      (omega arith) (omega arith) (omega arith) (omega arith) refl (λ e. other_name e.0)
