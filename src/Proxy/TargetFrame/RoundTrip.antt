-- ===== src/Proxy/TargetFrame/RoundTrip.antt =====
-- The target frame of a reverse tunnel, from the server to the client.
use warp_stream.Base.{
  ℕ, suc, ◌+◌, ◌%◌, ◌^◌, ◌≤◌, ◌<◌, ◌≡◌, refl, ◌∷◌, ◌++◌, length, length-append, drop, take-append,
  take_exact, drop-append, ltb, le→leb, Bytes, be16, be16-value, Text, arith, false, subst, sym,
}
use warp_stream.Base.Monad.{ok}
use warp_stream.Proxy.TargetFrame.{
  encode_target_frame, decode_payload, decode, h2_payload, read_payload, read_target_frame,
  TunnelStream, ws, gorilla, h2,
}

at_least : (a b : ℕ) → b ≤ a → ltb a b ≡ false
at_least a b h = ground arith

drop_head : (v n : ℕ) (xs : Bytes) → drop (2 + n) (v ∷ n ∷ xs) ≡ drop n xs
drop_head v n xs =
    let e : 2 + n ≡ suc (suc n) = omega arith in
    subst (λ k. drop k (v ∷ n ∷ xs) ≡ drop n xs) (sym e) refl

decode-frame :
    (host : Text) (port : ℕ)
    → length host ≤ 255
    → port < 2 ^ 16
    → decode_payload (0x01 ∷ length host ∷ (host ++ be16 port)) ≡ ok (host, port)
unfolding decode_payload
decode-frame host port hl hp =
    let n = length-append host (be16 port) in
    rw (
      at_least (suc (suc (length (host ++ be16 port)))) 4 (omega (arith, n)),
      at_least (suc (suc (length (host ++ be16 port)))) (2 + length host + 2) (omega (arith, n)),
      take-append host (be16 port),
      drop_head 1 (length host) (host ++ be16 port),
      drop-append host (be16 port),
      be16-value port hp,
    )

encode-frame :
    (host : Text) (port : ℕ)
    → length host ≤ 255
    → encode_target_frame host port ≡ ok (0x01 ∷ length host ∷ (host ++ be16 port))
unfolding encode_target_frame
encode-frame host port hl =
    let small : length host % 256 ≡ length host = omega arith in
    rw (at_least 255 (length host) hl, small)

h2-frame :
    (host : Text) (port : ℕ) (s : Bytes)
    → h2_payload (0x01 ∷ length host ∷ ((host ++ be16 port) ++ s))
      ≡ ok (0x01 ∷ length host ∷ (host ++ be16 port))
unfolding h2_payload
h2-frame host port s =
    let n = length-append host (be16 port) in
    let m = length-append (host ++ be16 port) s in
    rw (
      le→leb (length host + 2) (length ((host ++ be16 port) ++ s)) (omega (arith, n, m)),
      take_exact (host ++ be16 port) s (length host + 2) (omega (arith, n)),
    )

-- The three ways a frame reaches the client; over HTTP/2 other bytes may follow it.
pub data Transport : Type 0 where
  by_ws by_gorilla : Transport
  by_h2 : Bytes → Transport

abbrev pub carrying : Transport → Bytes → TunnelStream
carrying by_ws f = ws (ok f)
carrying by_gorilla f = gorilla (ok f)
carrying (by_h2 s) f = h2 (f ++ s)

carried :
    (host : Text) (port : ℕ) (by : Transport)
    → length host ≤ 255
    → port < 2 ^ 16
    → read_target_frame (carrying by (0x01 ∷ length host ∷ (host ++ be16 port))) ≡ ok (host, port)
unfolding read_target_frame read_payload decode
carried host port by_ws hl hp = decode-frame host port hl hp
carried host port by_gorilla hl hp = decode-frame host port hl hp
carried host port (by_h2 s) hl hp = rw (h2-frame host port s) (decode-frame host port hl hp)

-- For a host of at most 255 bytes and a 16-bit port, the server encodes a frame, and from a stream of
-- any of the three transports that carries it the client reads the same host and port.
pub read_target_frame-encode :
    (host : Text) (port : ℕ) (by : Transport)
    → length host ≤ 255
    → port < 2 ^ 16
    → (f : Bytes) × (encode_target_frame host port ≡ ok f)
      × (read_target_frame (carrying by f) ≡ ok (host, port))
read_target_frame-encode host port by hl hp = (
  0x01 ∷ length host ∷ (host ++ be16 port),
  encode-frame host port hl,
  carried host port by hl hp,
)
