-- ===== src/Wst/Frames.antt =====
-- What the sending half of pkg/wst/connection.go puts on the wire, in plain arithmetic.
use warp_stream.Base.{
  ℕ, ◌+◌, ◌%◌, ◌<◌, ◌≡◌, refl, ◌∙◌, Bool, true, false, none, [], ◌∷◌, ◌++◌, append_assoc, length,
  leb, if◌then◌else◌, Bytes, be16, be64, set_top, or_zero, bit_or, arith, Bool-cases, inl, inr, ◌≤◌,
  le→leb, lt→leb_false,
}
use warp_stream.Base.Monad.{ok, err}
use warp_stream.Wst.Writer.{
  Bufw, write, write_byte, flush, write_length, write_payload, write_message, write_control,
  write_control_body, control_too_long, mask_bit, zero_key,
}

-- A writer whose connection takes what it is given.
abbrev pub healthy : Bytes → Bytes → Bufw
healthy b v = record { buffered = b; wire = v; failure = none; broken = none }

abbrev pub top : Bool → ℕ
top masking = if masking then 128 else 0

unfoldable pub length_field : Bool → ℕ → Bytes
length_field masking n =
    if leb n 125
    then (top masking + n) ∷ []
    else if leb n 65535
    then (top masking + 126) ∷ be16 n
    else (top masking + 127) ∷ be64 n

abbrev pub key_field : Bool → Bytes
key_field masking = if masking then zero_key else []

unfoldable pub frame : Bool → ℕ → Bytes → Bytes
frame masking message_type bs =
    (128 + message_type) ∷ (length_field masking (length bs) ++ (key_field masking ++ bs))

mask_or : (masking : Bool) (n : ℕ) → n < 128 → bit_or (mask_bit masking) n ≡ top masking + n
mask_or true n h = set_top n h ∙ omega arith
mask_or false n h = or_zero n (omega arith) ∙ omega arith

short_length : (n : ℕ) → leb n 125 ≡ true → n % 256 ≡ n
short_length n h = ground arith

write_length_lem :
    (masking : Bool) (n : ℕ) (b v : Bytes)
    → write_length masking n (healthy b v) ≡ (ok tt, healthy (b ++ length_field masking n) v)
unfolding write_length write_byte write length_field
write_length_lem masking n b v = elim (Bool-cases (leb n 125)) [
  | inl small ↦ rw (small, mask_or masking (n % 256) (ground arith), short_length n small)
  | inr large ↦ elim (Bool-cases (leb n 65535)) [
    | inl medium ↦ rw (large, medium, mask_or masking 126 (omega arith), append_assoc)
    | inr huge ↦ rw (large, huge, mask_or masking 127 (omega arith), append_assoc)
  ]
]

write_payload_lem :
    (masking : Bool) (bs b v : Bytes)
    → write_payload masking bs (healthy b v) ≡ (ok tt, healthy (b ++ (key_field masking ++ bs)) v)
unfolding write_payload write
write_payload_lem true bs b v = rw append_assoc
write_payload_lem false bs b v = refl

-- A message on a working connection: nothing stays in the buffer, and the wire has one frame more.
pub write_message_lem :
    (masking : Bool) (t : ℕ) (bs b v : Bytes)
    → t < 128
    → write_message masking t bs (healthy b v)
      ≡ (ok tt, healthy [] (v ++ (b ++ frame masking t bs)))
unfolding write_message write_byte write flush frame
write_message_lem masking t bs b v h =
    let head : bit_or 128 (t % 256) ≡ 128 + t = set_top (t % 256) (omega arith) ∙ omega arith in
    rw
      (
        head,
        write_length_lem masking (length bs) (b ++ (128 + t) ∷ []) v,
        write_payload_lem masking bs ((b ++ (128 + t) ∷ []) ++ length_field masking (length bs)) v,
      )
      (simp append_assoc)

-- A control message that fits is the same frame.
pub write_control_lem :
    (masking : Bool) (t : ℕ) (bs b v : Bytes)
    → t < 128
    → length bs ≤ 125
    → write_control masking t bs (healthy b v)
      ≡ (ok tt, healthy [] (v ++ (b ++ frame masking t bs)))
unfolding write_control write_control_body write_byte write flush frame length_field
write_control_lem masking t bs b v h hl =
    let head : bit_or 128 (t % 256) ≡ 128 + t = set_top (t % 256) (omega arith) ∙ omega arith in
    let small : leb (length bs) 125 ≡ true = le→leb (length bs) 125 hl in
    rw
      (
        head,
        small,
        mask_or masking (length bs % 256) (ground arith),
        short_length (length bs) small,
        write_payload_lem masking bs ((b ++ (128 + t) ∷ []) ++ (top masking + length bs) ∷ []) v,
      )
      (simp append_assoc)

-- A control message that does not fit is refused, and leaves its first byte in the buffer.
pub write_control_long :
    (masking : Bool) (t : ℕ) (bs b v : Bytes)
    → t < 128
    → 125 < length bs
    → write_control masking t bs (healthy b v)
      ≡ (err (control_too_long (length bs)), healthy (b ++ (128 + t) ∷ []) v)
unfolding write_control write_byte write
write_control_long masking t bs b v h hl =
    let head : bit_or 128 (t % 256) ≡ 128 + t = set_top (t % 256) (omega arith) ∙ omega arith in
    rw (head, lt→leb_false 125 (length bs) hl)
