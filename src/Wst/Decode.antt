-- ===== src/Wst/Decode.antt =====
-- pkg/wst/connection.go: one round of ReadMessage on a frame of some peer.
use warp_stream.Base.{
  ℕ, zero, suc, ◌+◌, ◌%◌, ◌^◌, ◌≤◌, ◌<◌, ◌≡◌, refl, ap, ◌∙◌, Bool, true, false, [], ◌∷◌, ◌++◌,
  append_assoc, length, length-append, take-append, drop-append, All, leb, ltb, ◌==◌, if◌then◌else◌,
  Bytes, IsByte, be16, be64, be16-value, be64-value, bit_and, low_seven, low_four, top_bit,
  xor_zero, xor_twice, arith, Bool-cases, inl, inr, le→leb,
}
use warp_stream.Base.Monad.{ok, ◌>>=◌, return}
use warp_stream.Wst.Writer.{zero_key}
use warp_stream.Wst.Reader.{
  Read, read_full, read_byte, read_be, read_length, read_mask_key, read_payload, is_out_of_bounds,
  max_payload, unmask, get_or_zero, Frame, read_frame,
}
use warp_stream.Wst.Frames.{top, length_field}

read_full-append : (xs s : Bytes) → read_full (length xs) (xs ++ s) ≡ (ok xs, s)
unfolding read_full
read_full-append xs s = rw (
  le→leb (length xs) (length (xs ++ s)) (omega (arith, length-append xs s)),
  take-append xs s,
  drop-append xs s,
)

-- The length field read by the code for its first byte and what follows.
ltb→ne : (a b : ℕ) → a < b → (a == b) ≡ false
ltb→ne a b h = ground arith

read_be-be16 : (n : ℕ) (s : Bytes) → n < 2 ^ 16 → read_be 2 (be16 n ++ s) ≡ (ok n, s)
unfolding read_be
read_be-be16 n s h = rw (read_full-append (be16 n) s, be16-value n h)

read_be-be64 : (n : ℕ) (s : Bytes) → n < 2 ^ 64 → read_be 8 (be64 n ++ s) ≡ (ok n, s)
unfolding read_be
read_be-be64 n s h =
    let e : read_full 8 (be64 n ++ s) ≡ (ok (be64 n), s) =
      unfold be64 in read_full-append (be64 n) s in
    rw (e, be64-value n h)

length_bits : (masking : Bool) (x : ℕ) → x < 128 → bit_and (top masking + x) 0x7f ≡ x
length_bits true x h = low_seven (128 + x) (omega arith) ∙ omega arith
length_bits false x h = low_seven (0 + x) (omega arith) ∙ omega arith

mask_flag : (masking : Bool) (x : ℕ) → x < 128 → ltb 0 (bit_and (top masking + x) 0x80) ≡ masking
mask_flag true x h = ground (arith, top_bit (128 + x))
mask_flag false x h = ground (arith, top_bit (0 + x))

read_length_field :
    {A : Type 0} (masking : Bool) (n : ℕ) (s : Bytes) (k : Bool → ℕ → Read A)
    → n < 2 ^ 64
    → (read_byte >>= λ b1. read_length (bit_and b1 0x7f) >>= λ m. k (ltb 0 (bit_and b1 0x80)) m)
        (length_field masking n ++ s)
      ≡ k masking n s
unfolding read_byte read_length length_field
read_length_field masking n s k h = elim (Bool-cases (leb n 125)) [
  | inl small ↦ rw (
    small,
    length_bits masking n (ground arith),
    mask_flag masking n (ground arith),
    ltb→ne n 126 (ground arith),
    ltb→ne n 127 (ground arith),
  )
  | inr large ↦ elim (Bool-cases (leb n 65535)) [
    | inl medium ↦ rw (
      large,
      medium,
      length_bits masking 126 (omega arith),
      mask_flag masking 126 (omega arith),
      read_be-be16 n s (ground arith),
    )
    | inr huge ↦ rw (
      large,
      huge,
      length_bits masking 127 (omega arith),
      mask_flag masking 127 (omega arith),
      read_be-be64 n s h,
    )
  ]
]

-- A frame from a peer that masks with any key, or does not mask.
abbrev pub peer_frame : Bool → Bytes → ℕ → Bytes → Bytes
peer_frame masking key t bs =
    (128 + t)
    ∷ (length_field masking (length bs) ++ (if masking then key ++ unmask key 0 bs else bs))

pub length-unmask : (key : Bytes) (i : ℕ) (bs : Bytes) → length (unmask key i bs) ≡ length bs
unfolding unmask
length-unmask key i [] = refl
length-unmask key i (b ∷ bs) = ap suc (length-unmask key (suc i) bs)

get_or_zero-IsByte : (key : Bytes) (i : ℕ) → All IsByte key → IsByte (get_or_zero key i)
get_or_zero-IsByte [] i h = omega arith
get_or_zero-IsByte (b ∷ bs) zero h = h.0
get_or_zero-IsByte (b ∷ bs) (suc i) h = get_or_zero-IsByte bs i h.1

-- Masking twice with one key, from one index on, changes nothing.
pub unmask_twice :
    (key : Bytes) (i : ℕ) (bs : Bytes)
    → All IsByte key
    → All IsByte bs
    → unmask key i (unmask key i bs) ≡ bs
unfolding unmask
unmask_twice key i [] hk h = refl
unmask_twice key i (b ∷ bs) hk h = cc (
  (xor_twice b (get_or_zero key (i % 4)) h.0 (get_or_zero-IsByte key (i % 4) hk)).0,
  unmask_twice key (suc i) bs hk h.1,
)

get_or_zero-zero_key : (i : ℕ) → get_or_zero zero_key i ≡ 0
get_or_zero-zero_key zero = refl
get_or_zero-zero_key (suc zero) = refl
get_or_zero-zero_key (suc (suc zero)) = refl
get_or_zero-zero_key (suc (suc (suc zero))) = refl
get_or_zero-zero_key (suc (suc (suc (suc i)))) = refl

-- The zero key masks nothing.
pub unmask-zero_key : (i : ℕ) (bs : Bytes) → All IsByte bs → unmask zero_key i bs ≡ bs
unfolding unmask
unmask-zero_key i [] h = refl
unmask-zero_key i (b ∷ bs) h =
    rw (get_or_zero-zero_key (i % 4), xor_zero b h.0, unmask-zero_key (suc i) bs h.1)

in_bounds : (n : ℕ) → n ≤ max_payload → is_out_of_bounds n ≡ false
unfolding is_out_of_bounds
in_bounds n h = ground arith

read_payload_lem :
    {A : Type 0} (masking : Bool) (key bs s : Bytes) (f : Bytes → Read A)
    → length key ≡ 4
    → All IsByte key
    → All IsByte bs
    → length bs ≤ max_payload
    → (read_mask_key masking >>= λ k. read_payload masking k (length bs) >>= f)
        ((if masking then key ++ unmask key 0 bs else bs) ++ s)
      ≡ f bs s
unfolding read_mask_key read_payload
read_payload_lem true key bs s f h4 hk hb hl =
    rw (← h4, append_assoc, read_full-append key (unmask key 0 bs ++ s), in_bounds (length bs) hl)
      (rw (
        ← length-unmask key 0 bs,
        read_full-append (unmask key 0 bs) s,
        unmask_twice key 0 bs hk hb,
      ))
read_payload_lem false key bs s f h4 hk hb hl = rw (in_bounds (length bs) hl, read_full-append bs s)

-- The receiver reads a frame of any peer: its opcode and its payload, unmasked.
pub read-peer_frame :
    (masking : Bool) (key : Bytes) (t : ℕ) (bs s : Bytes)
    → length key ≡ 4
    → All IsByte key
    → t < 16
    → All IsByte bs
    → length bs ≤ max_payload
    → read_frame (peer_frame masking key t bs ++ s) ≡ (ok (record { opcode = t; payload = bs }), s)
unfolding read_frame read_byte
read-peer_frame masking key t bs s h4 hk ht hb hl =
    let f : Bytes → Read Frame =
      λ xs. return (record { opcode = bit_and (128 + t) 0x0f; payload = xs }) in
    rw append_assoc (
      read_length_field masking (length bs) _
        (λ m n. read_mask_key m >>= λ k. read_payload m k n >>= f) (omega arith)
      ∙ read_payload_lem masking key bs s f h4 hk hb hl
      ∙ ap (λ (o : ℕ). (ok (record { opcode = o; payload = bs }), s))
          (low_four (128 + t) (omega arith) ∙ omega arith))
