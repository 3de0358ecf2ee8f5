-- ===== src/Proxy/Socks5/ConstantTime.antt =====
-- constantTimeEqualBytes of pkg/client/client.go against equality of the two byte strings.
use warp_stream.Base.{
  ℕ, ◌%◌, ◌^◌, ◌<◌, ◌≡◌, refl, ◌↔◌, true, [], ◌∷◌, length, ==_iff, bit_or, bit_xor, xor_le,
  xor_zero_iff, or_zero_iff, Bytes, arith,
}
use warp_stream.Proxy.Socks5.{byte_diff, constant_time_equal_bytes}

-- A difference once noted is never lost.
byte_diff-zero :
    (diff : ℕ) (a b : Bytes) → byte_diff diff a b ≡ 0 → length a ≡ length b → (diff ≡ 0) × (a ≡ b)
unfolding byte_diff
byte_diff-zero diff [] [] h e = (h, refl)
byte_diff-zero diff [] (y ∷ b) h e = absurd (omega (arith, e))
byte_diff-zero diff (x ∷ a) [] h e = absurd (omega (arith, e))
byte_diff-zero diff (x ∷ a) (y ∷ b) h e =
    let rest = byte_diff-zero (bit_or diff (bit_xor x y)) a b h (omega (arith, e)) in
    let here = (or_zero_iff diff (bit_xor x y)).0 rest.0 in
    (here.0, cc (rest.1, (xor_zero_iff x y).0 here.1))

byte_diff_self : (a : Bytes) → byte_diff 0 a a ≡ 0
unfolding byte_diff
byte_diff_self [] = refl
byte_diff_self (x ∷ a) =
    let e : bit_xor x x ≡ 0 = (xor_zero_iff x x).1 refl in
    let z : bit_or 0 (bit_xor x x) ≡ 0 = (or_zero_iff 0 (bit_xor x x)).1 (refl, e) in
    rw z (byte_diff_self a)

lower_bits : (a b : ℕ) → a < 2 ^ 31 → b < 2 ^ 31 → bit_xor a b % 2 ^ 32 ≡ bit_xor a b
lower_bits a b ha hb = omega (arith, xor_le a b)

-- A first difference that is not 0 stays.
byte_diff-start : (diff : ℕ) (a b : Bytes) → byte_diff diff a b ≡ 0 → diff ≡ 0
unfolding byte_diff
byte_diff-start diff [] [] h = h
byte_diff-start diff [] (y ∷ b) h =
    ((or_zero_iff diff (bit_xor 0 y)).0 (byte_diff-start (bit_or diff (bit_xor 0 y)) [] b h)).0
byte_diff-start diff (x ∷ a) [] h =
    ((or_zero_iff diff (bit_xor x 0)).0 (byte_diff-start (bit_or diff (bit_xor x 0)) a [] h)).0
byte_diff-start diff (x ∷ a) (y ∷ b) h =
    ((or_zero_iff diff (bit_xor x y)).0 (byte_diff-start (bit_or diff (bit_xor x y)) a b h)).0

equal_bytes_sound :
    (a b : Bytes)
    → length a < 2 ^ 31
    → length b < 2 ^ 31
    → constant_time_equal_bytes a b ≡ true
    → a ≡ b
unfolding constant_time_equal_bytes
equal_bytes_sound a b ha hb h =
    let e = (==_iff _ 0).0 h in
    let z : bit_xor (length a) (length b) % 2 ^ 32 ≡ 0 = byte_diff-start _ a b e in
    let same =
      (xor_zero_iff (length a) (length b)).0
        (omega (arith, lower_bits (length a) (length b) ha hb, z)) in
    (byte_diff-zero _ a b e same).1

equal_bytes_refl : (a : Bytes) → constant_time_equal_bytes a a ≡ true
unfolding constant_time_equal_bytes
equal_bytes_refl a =
    let z : bit_xor (length a) (length a) ≡ 0 = (xor_zero_iff (length a) (length a)).1 refl in
    rw z ((==_iff (byte_diff 0 a a) 0).1 (byte_diff_self a))

-- For strings shorter than 2 ^ 31 bytes, the comparison answers true exactly when they are equal,
-- whatever their lengths; the byte that stands in past an end never hides a difference.
pub constant_time_equal_bytes_iff :
    (actual expected : Bytes)
    → length actual < 2 ^ 31
    → length expected < 2 ^ 31
    → (constant_time_equal_bytes actual expected ≡ true) ↔ (actual ≡ expected)
constant_time_equal_bytes_iff actual expected ha hb =
    (equal_bytes_sound actual expected ha hb, λ e. rw e (equal_bytes_refl expected))
