-- ===== src/Base/Words.antt =====
-- Bytes, bit masks on one byte as arithmetic, and fixed-width integers in either byte order.
use Prim.Native.Nat.{ℕ, zero, suc, ◌+◌, ◌*◌, ◌/◌, ◌%◌, ◌^◌, ◌≤◌, ◌<◌, bit_and, bit_or, bit_xor}
use mathlib.Core.Path.{◌≡◌, refl}
use mathlib.Core.Bool.{Bool, true, ◌&&◌}
use mathlib.Core.Logic.{inl, inr}
use mathlib.Core.List.{List, [], ◌∷◌}
use native.Mathlib.Omega.{arith}
use warp_stream.Base.Tests.{◌==◌, ==_iff, &&_true, Bool-cases}
use warp_stream.Base.Lists.{All}

abbrev pub Bytes : Type 0
Bytes = List ℕ

abbrev pub IsByte : ℕ → Type 0
IsByte b = b < 256

-- A test on the `count` numbers from `start` on, and what it says of each of them.
unfoldable pub holds_from : (ℕ → Bool) → ℕ → ℕ → Bool
holds_from test start zero = true
holds_from test start (suc count) = test start && holds_from test (suc start) count

at_one :
    (test : ℕ → Bool) (start count x : ℕ)
    → holds_from test start count ≡ true
    → start ≤ x
    → x < start + count
    → test x ≡ true
unfolding holds_from
at_one test start zero x h above below = absurd (omega arith)
at_one test start (suc count) x h above below =
    let both = &&_true (test start) (holds_from test (suc start) count) h in
    elim (Bool-cases (x == start)) [
      | inl same ↦ rw ((==_iff x start).0 same) both.0
      | inr other ↦ at_one test (suc start) count x both.1 (ground (arith, other)) (omega arith)
    ]

pub by_table :
    (count : ℕ) (test : ℕ → Bool) (x : ℕ)
    → holds_from test 0 count ≡ true
    → x < count
    → test x ≡ true
by_table count test x table h = at_one test 0 count x table (omega arith) (omega arith)

low_seven_table : holds_from (λ b. bit_and b 0x7f == b % 128) 0 256 ≡ true
unfolding holds_from
low_seven_table = refl

pub low_seven : (b : ℕ) → b < 256 → bit_and b 0x7f ≡ b % 128
low_seven b h = (==_iff _ _).0 (by_table 256 _ b low_seven_table h)

top_bit_table : holds_from (λ b. bit_and b 0x80 == b / 128 * 128) 0 256 ≡ true
unfolding holds_from
top_bit_table = refl

pub top_bit : (b : ℕ) → b < 256 → bit_and b 0x80 ≡ b / 128 * 128
top_bit b h = (==_iff _ _).0 (by_table 256 _ b top_bit_table h)

low_four_table : holds_from (λ b. bit_and b 0x0f == b % 16) 0 256 ≡ true
unfolding holds_from
low_four_table = refl

pub low_four : (b : ℕ) → b < 256 → bit_and b 0x0f ≡ b % 16
low_four b h = (==_iff _ _).0 (by_table 256 _ b low_four_table h)

set_top_table : holds_from (λ b. bit_or 0x80 b == b + 128) 0 128 ≡ true
unfolding holds_from
set_top_table = refl

pub set_top : (b : ℕ) → b < 128 → bit_or 0x80 b ≡ b + 128
set_top b h = (==_iff _ _).0 (by_table 128 _ b set_top_table h)

or_zero_table : holds_from (λ b. bit_or 0 b == b) 0 256 ≡ true
unfolding holds_from
or_zero_table = refl

pub or_zero : (b : ℕ) → b < 256 → bit_or 0 b ≡ b
or_zero b h = (==_iff _ _).0 (by_table 256 _ b or_zero_table h)

xor_zero_table : holds_from (λ b. bit_xor b 0 == b) 0 256 ≡ true
unfolding holds_from
xor_zero_table = refl

pub xor_zero : (b : ℕ) → b < 256 → bit_xor b 0 ≡ b
xor_zero b h = (==_iff _ _).0 (by_table 256 _ b xor_zero_table h)

xor_twice_row : ℕ → Bool
xor_twice_row k = holds_from (λ b. bit_xor (bit_xor b k) k == b && bit_xor b k / 256 == 0) 0 256

xor_twice_table : holds_from xor_twice_row 0 256 ≡ true
unfolding holds_from xor_twice_row
xor_twice_table = refl

-- Masking a byte twice with one key gives the byte back, and a byte in between.
pub xor_twice : (b k : ℕ) → b < 256 → k < 256 → (bit_xor (bit_xor b k) k ≡ b) × (bit_xor b k < 256)
unfolding xor_twice_row
xor_twice b k hb hk =
    let row : xor_twice_row k ≡ true = by_table 256 xor_twice_row k xor_twice_table hk in
    let e = by_table 256 _ b row hb in (ground (arith, e), ground (arith, e))

-- binary.BigEndian.PutUint16 and PutUint64, and their readers. A reader takes the bytes of an
-- array, so the length is known.
abbrev pub be16 : ℕ → Bytes
be16 n = (n / 256 % 256) ∷ (n % 256) ∷ []

unfoldable pub be64 : ℕ → Bytes
be64 n =
    (n / 2 ^ 56 % 256)
    ∷ (n / 2 ^ 48 % 256)
    ∷ (n / 2 ^ 40 % 256)
    ∷ (n / 2 ^ 32 % 256)
    ∷ (n / 2 ^ 24 % 256)
    ∷ (n / 2 ^ 16 % 256)
    ∷ (n / 2 ^ 8 % 256)
    ∷ (n % 256)
    ∷ []

-- The value of a byte sequence, most significant byte first.
abbrev pub be_value : ℕ → Bytes → ℕ
be_value acc [] = acc
be_value acc (b ∷ bs) = be_value (acc * 256 + b) bs

-- The same, least significant byte first.
abbrev pub le_value : Bytes → ℕ
le_value [] = 0
le_value (b ∷ bs) = b + 256 * le_value bs

pub be16-value : (n : ℕ) → n < 2 ^ 16 → be_value 0 (be16 n) ≡ n
be16-value n h = omega arith

pub be64-value : (n : ℕ) → n < 2 ^ 64 → be_value 0 (be64 n) ≡ n
unfolding be64
be64-value n h = omega arith

pub be16-IsByte : (n : ℕ) → All IsByte (be16 n)
be16-IsByte n = omega arith

pub be64-IsByte : (n : ℕ) → All IsByte (be64 n)
unfolding be64
be64-IsByte n = omega arith

-- binary.LittleEndian.PutUint32 and PutUint64.
abbrev pub le32 : ℕ → Bytes
le32 n = (n % 256) ∷ (n / 2 ^ 8 % 256) ∷ (n / 2 ^ 16 % 256) ∷ (n / 2 ^ 24 % 256) ∷ []

abbrev pub le64 : ℕ → Bytes
le64 n =
    (n % 256)
    ∷ (n / 2 ^ 8 % 256)
    ∷ (n / 2 ^ 16 % 256)
    ∷ (n / 2 ^ 24 % 256)
    ∷ (n / 2 ^ 32 % 256)
    ∷ (n / 2 ^ 40 % 256)
    ∷ (n / 2 ^ 48 % 256)
    ∷ (n / 2 ^ 56 % 256)
    ∷ []

pub le32-value : (n : ℕ) → n < 2 ^ 32 → le_value (le32 n) ≡ n
le32-value n h = omega arith

pub le64-value : (n : ℕ) → n < 2 ^ 64 → le_value (le64 n) ≡ n
le64-value n h = omega arith
