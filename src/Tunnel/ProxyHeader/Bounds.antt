-- ===== src/Tunnel/ProxyHeader/Bounds.antt =====
-- pkg/tunnel/proxyproto.go: how long the addresses are, and that every port has 16 bits.
use warp_stream.Base.{
  ℕ, ◌+◌, ◌^◌, ◌<◌, ◌≡◌, refl, Option, none, some, [], ◌∷◌, length, checked_digits, parse_uint16,
  ◌*◌, ◌-◌, ◌%◌, Bytes, Text, arith,
}
use warp_stream.Base.Net.{to4, to16, split_host_port}
use warp_stream.Tunnel.ProxyHeader.{
  Addr, parse_ip_port, with_port, both, split_ip_port, nil_addr, tcp_addr, udp_addr, other_addr,
}

pub to4-length : (ip v : Bytes) → to4 ip ≡ some v → length v ≡ 4
unfolding to4
to4-length (a ∷ b ∷ c ∷ d ∷ []) v h = ground (arith, h)
to4-length (z0 ∷ z1 ∷ z2 ∷ z3 ∷ z4 ∷ z5 ∷ z6 ∷ z7 ∷ z8 ∷ z9 ∷ f0 ∷ f1 ∷ a ∷ b ∷ c ∷ d ∷ []) v h =
    ground (arith, h)
to4-length _ v h = cc

pub to16-length : (ip v : Bytes) → to16 ip ≡ some v → length v ≡ 16
unfolding to16
to16-length ip v h = ground (arith, h)

checked_digits-lt :
    (acc : ℕ) (s : Text) (n : ℕ) → acc < 2 ^ 16 → checked_digits acc s ≡ some n → n < 2 ^ 16
unfolding checked_digits
checked_digits-lt acc [] n lt h = ground (arith, h)
checked_digits-lt acc (c ∷ s) n lt h =
    ground (arith, h, checked_digits-lt (acc * 10 + (c - b'0')) s n)

parse_uint16-lt : (s : Text) (n : ℕ) → parse_uint16 s ≡ some n → n < 2 ^ 16
unfolding parse_uint16
parse_uint16-lt [] n h = cc
parse_uint16-lt (c ∷ s) n h = checked_digits-lt 0 (c ∷ s) n (omega arith) h

with_port-lt :
    (o : Option Bytes) (port : ℕ) (ip : Bytes) (p : ℕ)
    → with_port o port ≡ some (ip, p)
    → p < 2 ^ 16
with_port-lt none port ip p h = cc
with_port-lt (some i) port ip p h = let e : port % 2 ^ 16 ≡ p = cc in omega (arith, e)

both-lt :
    (o : Option Bytes) (s : Text) (q : Option ℕ) (ip : Bytes) (p : ℕ)
    → parse_uint16 s ≡ q
    → both o q ≡ some (ip, p)
    → p < 2 ^ 16
both-lt none s q ip p e h = cc
both-lt (some i) s none ip p e h = cc
both-lt (some i) s (some n) ip p e h = parse_uint16-lt s p (cc (e, h))

module _ (parse_ip : Text → Option Bytes) where
  split-lt :
      (o : Option (Text × Text)) (ip : Bytes) (p : ℕ)
      → split_ip_port parse_ip o ≡ some (ip, p)
      → p < 2 ^ 16
  unfolding split_ip_port
  split-lt none ip p h = cc
  split-lt (some (host, port)) ip p h = both-lt (parse_ip host) port (parse_uint16 port) ip p refl h

  -- Every port that the code finds is a 16-bit one.
  pub parse_ip_port-lt :
      (a : Addr) (ip : Bytes) (p : ℕ) → parse_ip_port parse_ip a ≡ some (ip, p) → p < 2 ^ 16
  unfolding parse_ip_port
  parse_ip_port-lt nil_addr ip p h = cc
  parse_ip_port-lt (tcp_addr o port) ip p h = with_port-lt o port ip p h
  parse_ip_port-lt (udp_addr o port) ip p h = with_port-lt o port ip p h
  parse_ip_port-lt (other_addr s) ip p h = split-lt (split_host_port s) ip p h
