-- ===== src/Tunnel/ProxyHeader/Decode.antt =====
-- pkg/tunnel/proxyproto.go: the binary header, read back as the PROXY protocol describes it.
use warp_stream.Base.{
  ℕ, ◌+◌, ◌^◌, ◌<◌, ◌≡◌, refl, Option, none, some, [], ◌∷◌, ◌++◌, length, length-append, take, drop,
  take_exact, drop_exact, text_eq, ◌==◌, if◌then◌else◌, Bytes, be16, be_value, be16-value, Text,
  arith,
}
use warp_stream.Tunnel.ProxyHeader.Bounds.{to4-length, to16-length, parse_ip_port-lt}
use warp_stream.Base.Net.{to4, to16}
use warp_stream.Tunnel.ProxyHeader.{
  Addr, header_v2, unknown_v2, ipv6_v2, families_v2, parsed_v2, parse_ip_port, proxy_header_v2,
  v2_signature,
}

-- A receiver, after the PROXY protocol's text: the signature, version and command, family, length of
-- the rest, and then the addresses and ports.
pub data Endpoints : Type 0 where
  local : Endpoints
  inet inet6 : Bytes → Bytes → ℕ → ℕ → Endpoints

abbrev pub addresses : (Bytes → Bytes → ℕ → ℕ → Endpoints) → ℕ → Bytes → Endpoints
addresses family n body =
    let s = drop n body in
    let t = drop n s in
    family (take n body) (take n s) (be_value 0 (take 2 t)) (be_value 0 (take 2 (drop 2 t)))

abbrev pub decode_body : ℕ → ℕ → Bytes → Option Endpoints
decode_body command family body =
    if command == 0x20
    then some local
    else if family == 0x11
    then some (addresses inet 4 body)
    else if family == 0x21
    then some (addresses inet6 16 body)
    else none

abbrev pub decode_fixed : Bytes → Option Endpoints × Bytes
decode_fixed (command ∷ family ∷ h ∷ l ∷ s) =
    let n = be_value 0 (h ∷ l ∷ []) in (decode_body command family (take n s), drop n s)
decode_fixed s = (none, s)

abbrev pub decode_v2 : Bytes → Option Endpoints × Bytes
decode_v2 s = if text_eq (take 12 s) v2_signature then decode_fixed (drop 12 s) else (none, s)

-- What a header should say: IPv4 if both ends are, else IPv6 with IPv4 ends mapped, else nothing.
abbrev pub described6 : ℕ → ℕ → Option Bytes → Option Bytes → Endpoints
described6 sp dp (some src) (some dst) = inet6 src dst sp dp
described6 sp dp _ _ = local

abbrev pub described4 : Bytes × ℕ → Bytes × ℕ → Option Bytes → Option Bytes → Endpoints
described4 src dst (some src4) (some dst4) = inet src4 dst4 src.1 dst.1
described4 src dst _ _ = described6 src.1 dst.1 (to16 src.0) (to16 dst.0)

abbrev pub described : Option (Bytes × ℕ) → Option (Bytes × ℕ) → Endpoints
described (some src) (some dst) = described4 src dst (to4 src.0) (to4 dst.0)
described _ _ = local

decode-unknown : (s : Bytes) → decode_v2 (unknown_v2 ++ s) ≡ (some local, s)
unfolding unknown_v2 text_eq
decode-unknown s = refl

addresses-header :
    (family : Bytes → Bytes → ℕ → ℕ → Endpoints) (n : ℕ) (src dst : Bytes) (sp dp : ℕ)
    → length src ≡ n
    → length dst ≡ n
    → sp < 2 ^ 16
    → dp < 2 ^ 16
    → addresses family n (src ++ (dst ++ (be16 sp ++ be16 dp))) ≡ family src dst sp dp
addresses-header family n src dst sp dp hs hd hsp hdp = rw (
  take_exact src (dst ++ (be16 sp ++ be16 dp)) n hs,
  drop_exact src (dst ++ (be16 sp ++ be16 dp)) n hs,
  take_exact dst (be16 sp ++ be16 dp) n hd,
  drop_exact dst (be16 sp ++ be16 dp) n hd,
  be16-value sp hsp,
  be16-value dp hdp,
)

body_length :
    (n : ℕ) (src dst : Bytes) (sp dp : ℕ)
    → length src ≡ n
    → length dst ≡ n
    → length (src ++ (dst ++ (be16 sp ++ be16 dp))) ≡ n + n + 4
body_length n src dst sp dp hs hd = omega (
  arith,
  length-append src (dst ++ (be16 sp ++ be16 dp)),
  length-append dst (be16 sp ++ be16 dp),
  length-append (be16 sp) (be16 dp),
)

decode-inet :
    (src dst s : Bytes) (sp dp : ℕ)
    → length src ≡ 4
    → length dst ≡ 4
    → sp < 2 ^ 16
    → dp < 2 ^ 16
    → decode_v2 (header_v2 0x11 12 src dst sp dp ++ s) ≡ (some (inet src dst sp dp), s)
unfolding header_v2 text_eq
decode-inet src dst s sp dp hs hd hsp hdp =
    let body = src ++ (dst ++ (be16 sp ++ be16 dp)) in
    let len : length body ≡ 12 = body_length 4 src dst sp dp hs hd in
    rw (
      take_exact body s 12 len,
      drop_exact body s 12 len,
      addresses-header inet 4 src dst sp dp hs hd hsp hdp,
    )

decode-inet6 :
    (src dst s : Bytes) (sp dp : ℕ)
    → length src ≡ 16
    → length dst ≡ 16
    → sp < 2 ^ 16
    → dp < 2 ^ 16
    → decode_v2 (header_v2 0x21 36 src dst sp dp ++ s) ≡ (some (inet6 src dst sp dp), s)
unfolding header_v2 text_eq
decode-inet6 src dst s sp dp hs hd hsp hdp =
    let body = src ++ (dst ++ (be16 sp ++ be16 dp)) in
    let len : length body ≡ 36 = body_length 16 src dst sp dp hs hd in
    rw (
      take_exact body s 36 len,
      drop_exact body s 36 len,
      addresses-header inet6 16 src dst sp dp hs hd hsp hdp,
    )

decode-ipv6 :
    (sp dp : ℕ) (src dst : Bytes) (o p : Option Bytes) (s : Bytes)
    → to16 src ≡ o
    → to16 dst ≡ p
    → sp < 2 ^ 16
    → dp < 2 ^ 16
    → decode_v2 (ipv6_v2 sp dp o p ++ s) ≡ (some (described6 sp dp o p), s)
unfolding ipv6_v2
decode-ipv6 sp dp src dst (some a) (some b) s ea eb hs hd =
    decode-inet6 a b s sp dp (to16-length src a ea) (to16-length dst b eb) hs hd
decode-ipv6 sp dp src dst (some a) none s ea eb hs hd = decode-unknown s
decode-ipv6 sp dp src dst none p s ea eb hs hd = decode-unknown s

decode-families :
    (src dst : Bytes × ℕ) (o p : Option Bytes) (s : Bytes)
    → to4 src.0 ≡ o
    → to4 dst.0 ≡ p
    → src.1 < 2 ^ 16
    → dst.1 < 2 ^ 16
    → decode_v2 (families_v2 src dst o p ++ s) ≡ (some (described4 src dst o p), s)
unfolding families_v2
decode-families src dst (some a) (some b) s ea eb hs hd =
    decode-inet a b s src.1 dst.1 (to4-length src.0 a ea) (to4-length dst.0 b eb) hs hd
decode-families src dst (some a) none s ea eb hs hd =
    decode-ipv6 src.1 dst.1 src.0 dst.0 _ _ s refl refl hs hd
decode-families src dst none p s ea eb hs hd =
    decode-ipv6 src.1 dst.1 src.0 dst.0 _ _ s refl refl hs hd

module _ (parse_ip : Text → Option Bytes) where
  decode-parsed :
      (src dst : Addr) (o p : Option (Bytes × ℕ)) (s : Bytes)
      → parse_ip_port parse_ip src ≡ o
      → parse_ip_port parse_ip dst ≡ p
      → decode_v2 (parsed_v2 o p ++ s) ≡ (some (described o p), s)
  unfolding parsed_v2
  decode-parsed src dst (some (a, sp)) (some (b, dp)) s eo ep =
      decode-families (a, sp) (b, dp) (to4 a) (to4 b) s refl refl
        (parse_ip_port-lt parse_ip src a sp eo) (parse_ip_port-lt parse_ip dst b dp ep)
  decode-parsed src dst (some a) none s eo ep = decode-unknown s
  decode-parsed src dst none p s eo ep = decode-unknown s

  -- A receiver of the binary PROXY protocol, given the header for any two addresses and any bytes
  -- behind it, reads the two ends' addresses and ports: as IPv4 if both ends have one, else as IPv6
  -- with IPv4 mapped, and no addresses if an end has none; and it finds those bytes left.
  pub decode_v2-proxy_header_v2 :
      (src dst : Addr) (s : Bytes)
      → decode_v2 (proxy_header_v2 parse_ip src dst ++ s)
        ≡ (some (described (parse_ip_port parse_ip src) (parse_ip_port parse_ip dst)), s)
  unfolding proxy_header_v2
  decode_v2-proxy_header_v2 src dst s = decode-parsed src dst _ _ s refl refl
