-- ===== src/Base/Base64/RoundTrip.antt =====
-- encoding/base64's StdEncoding: what was encoded is decoded.
use Prim.Native.Nat.{ℕ, ◌+◌, ◌*◌, ◌/◌, ◌%◌, ◌<◌}
use mathlib.Core.Path.{◌≡◌, refl, ap}
use mathlib.Core.Bool.{false, ◌||◌}
use mathlib.Core.Option.{some}
use mathlib.Core.List.{[], ◌∷◌}
use native.Mathlib.Omega.{arith}
use warp_stream.Base.Tests.{◌==◌}
use warp_stream.Base.Lists.{All}
use warp_stream.Base.Words.{Bytes, IsByte}
use warp_stream.Base.Base64.{
  digit, value, encode, skip_breaks, one_byte, two_bytes, three_bytes, quantum, decode_quanta,
  decode,
}

value-digit : (n : ℕ) → n < 64 → value (digit n) ≡ some n
unfolding value digit
value-digit n h = ground arith

digit_not_break : (n : ℕ) → n < 64 → (digit n == 10 || digit n == 13) ≡ false
unfolding digit
digit_not_break n h = ground arith

digit_not_pad : (n : ℕ) → n < 64 → (digit n == b'=') ≡ false
unfolding digit
digit_not_pad n h = ground arith

skip_breaks-encode : (s : Bytes) → All IsByte s → skip_breaks (encode s) ≡ encode s
unfolding skip_breaks encode
skip_breaks-encode [] h = refl
skip_breaks-encode (a ∷ []) h =
    rw (digit_not_break (a / 4) (omega arith), digit_not_break (a % 4 * 16) (omega arith))
skip_breaks-encode (a ∷ b ∷ []) h = rw (
  digit_not_break (a / 4) (omega arith),
  digit_not_break (a % 4 * 16 + b / 16) (omega arith),
  digit_not_break (b % 16 * 4) (omega arith),
)
skip_breaks-encode (a ∷ b ∷ c ∷ s) h = rw (
  digit_not_break (a / 4) (omega arith),
  digit_not_break (a % 4 * 16 + b / 16) (omega arith),
  digit_not_break (b % 16 * 4 + c / 64) (omega arith),
  digit_not_break (c % 64) (omega arith),
  skip_breaks-encode s h.1.1.1,
)

decode_quanta-encode : (s : Bytes) → All IsByte s → decode_quanta (encode s) ≡ some s
unfolding decode_quanta encode quantum one_byte two_bytes three_bytes
decode_quanta-encode [] h = refl
decode_quanta-encode (a ∷ []) h =
    rw (value-digit (a / 4) (omega arith), value-digit (a % 4 * 16) (omega arith), one_byte)
      (ap (λ (k : ℕ). some (k ∷ [])) (omega arith))
decode_quanta-encode (a ∷ b ∷ []) h =
    rw
      (
        digit_not_pad (b % 16 * 4) (omega arith),
        value-digit (a / 4) (omega arith),
        value-digit (a % 4 * 16 + b / 16) (omega arith),
        value-digit (b % 16 * 4) (omega arith),
        two_bytes,
      )
      (ground arith)
decode_quanta-encode (a ∷ b ∷ c ∷ s) h =
    rw
      (
        digit_not_pad (b % 16 * 4 + c / 64) (omega arith),
        digit_not_pad (c % 64) (omega arith),
        value-digit (a / 4) (omega arith),
        value-digit (a % 4 * 16 + b / 16) (omega arith),
        value-digit (b % 16 * 4 + c / 64) (omega arith),
        value-digit (c % 64) (omega arith),
        decode_quanta-encode s h.1.1.1,
        three_bytes,
      )
      (ground arith)

pub decode-encode : (s : Bytes) → All IsByte s → decode (encode s) ≡ some s
unfolding decode
decode-encode s h = rw (skip_breaks-encode s h) (decode_quanta-encode s h)
