-- ===== src/Proxy/HttpProxy/Tests.antt =====
-- Runs of the HTTP proxies.
use warp_stream.Base.{
  ◌==◌, false, List, Bytes, Exists, inl, inr, if◌then◌else◌, checked_digits, ◌≡◌, refl, true, none,
  some, [], ◌∷◌, ◌++◌, Text, codes, text_eq, parse_uint16, arith,
}
use warp_stream.Base.Base64.{encode}
use warp_stream.Base.Monad.{ok}
use warp_stream.Base.Net.{split_host_port}
use warp_stream.Protocol.{Credentials}
use warp_stream.Proxy.HttpProxy.{
  Request, Answers, answered, pipes, closes, handle_http_proxy, handle_http_proxy_handshake,
  Accepted, accept_request, accept_port, after_request, serve_request, tunnel_to,
  authenticate_http_proxy,
}
use warp_stream.Server.Restrictions.{is_empty}
use warp_stream.Proxy.HttpProxy.Reading.{
  Parsed, needs_more, complete, all_of, after_chunk, read_request,
}
use warp_stream.Proxy.HttpProxy.Login.{basic, handle_http_proxy-login}
use warp_stream.Proxy.HttpProxy.Pipelined.{handle_http_proxy-loses_buffered}

abbrev alice : Credentials
alice = record { username = codes "alice"; password = codes "secret" }

-- curl's request for a host behind the HTTP proxy.
abbrev connect_request : Text → Request
connect_request header = record {
  method = codes "CONNECT";
  host = codes "db:5432";
  url_hostname = codes "db";
  url_port = codes "5432";
  proxy_authorization = header;
}

abbrev all_well : Answers
all_well = record { write_ok = true; connect_ok = true }

handle_http_proxy-login_example :
    handle_http_proxy (some alice) all_well (record {
      request = some (connect_request (basic (encode (codes "alice" ++ b':' ∷ codes "wrong"))));
      buffered = [];
      coming = [];
    })
    ≡ answered 407 ∷ closes ∷ []
unfolding text_eq
handle_http_proxy-login_example =
    handle_http_proxy-login alice all_well
      (connect_request (basic (encode (codes "alice" ++ b':' ∷ codes "wrong")))) [] []
      (codes "alice") (codes "wrong") refl refl (omega arith) (omega arith) (omega arith)

-- A request that is the letter G and the end of the line, as one reads it who looks for the end alone.
abbrev g_request : Bytes
g_request = 71 ∷ 10 ∷ []

abbrev parse_line : Bytes → Parsed
parse_line [] = needs_more
parse_line (c ∷ s) =
    let rest = parse_line s in if c == 10 then complete (connect_request []) s else rest

parse_line_early :
    (p q : Bytes) → p ++ q ≡ g_request → is_empty q ≡ false → parse_line p ≡ needs_more
parse_line_early [] q e n = refl
parse_line_early (c ∷ []) q e n = let same : c ≡ 71 = cc e in rw same refl
parse_line_early (c ∷ d ∷ []) [] e n = cc n
parse_line_early (c ∷ d ∷ []) (x ∷ q) e n = absurd (too_long e)
  where
    too_long : Path Bytes (c ∷ d ∷ x ∷ q) g_request → ⊥
    too_long e = cc e
parse_line_early (c ∷ d ∷ x ∷ p) q e n = absurd (too_long e)
  where
    too_long : Path Bytes (c ∷ d ∷ x ∷ (p ++ q)) g_request → ⊥
    too_long e = cc e

parse_line_whole : (x : Bytes) → parse_line (g_request ++ x) ≡ complete (connect_request []) x
parse_line_whole x = refl

-- The end of the line comes with the byte 1 behind it.
abbrev pieces : List Bytes
pieces = (71 ∷ []) ∷ (10 ∷ 1 ∷ []) ∷ (2 ∷ []) ∷ []

abbrev accepted : Accepted
accepted = record { target_host = codes "db"; target_port = 5432; delivers = 1 ∷ 2 ∷ [] }

pieces-accepted : handle_http_proxy_handshake true (read_request parse_line [] pieces) ≡ ok accepted
unfolding handle_http_proxy_handshake read_request after_chunk accept_request accept_port text_eq
    parse_uint16 checked_digits
pieces-accepted = refl

pieces-piped :
    Exists
      (λ e. e ≡ pipes (2 ∷ []))
      (handle_http_proxy none all_well (read_request parse_line [] pieces))
unfolding handle_http_proxy after_request serve_request tunnel_to authenticate_http_proxy
    read_request after_chunk text_eq split_host_port warp_stream.Base.last_index_byte
    warp_stream.Base.has_prefix warp_stream.Base.Net.split_plain warp_stream.Base.Net.has_byte
pieces-piped = inr (inr (inl refl))

handle_http_proxy-loses_buffered_example :
    (all_of pieces ≡ g_request ++ accepted.delivers) × (accepted.delivers ≡ (1 ∷ []) ++ 2 ∷ [])
handle_http_proxy-loses_buffered_example =
    handle_http_proxy-loses_buffered parse_line g_request (connect_request []) parse_line_early
      parse_line_whole ((71 ∷ []) ∷ []) (10 ∷ []) (1 ∷ []) ((2 ∷ []) ∷ []) none all_well true
      accepted (2 ∷ []) refl refl pieces-accepted pieces-piped
