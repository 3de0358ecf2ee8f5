-- ===== src/Socket/Cmsg/Search.antt =====
-- internal/socket/cmsg.go: the search ends, and finds the destination behind other messages.
use warp_stream.Base.{
  ℕ, zero, suc, ◌+◌, ◌-◌, ◌^◌, ◌≤◌, ◌<◌, ◌≡◌, refl, ap, ◌∙◌, false, Option, none, length,
  length-drop, length-append, length-replicate, replicate, take, drop, take_exact, drop_exact, le32,
  le64, le32-value, le64-value, ◌++◌, append_assoc, ltb, Bool-cases, inl, inr, if◌then◌else◌, Bytes,
  Text, arith,
}
use warp_stream.Socket.Cmsg.{
  cmsg_len, level, message_type, data_of, destination, aligned, is_cut, or_else, parse_loop,
  parse_orig_dst_addr,
}

-- A message that is not cut off moves the loop on by 16 bytes at least.
aligned_ge : (n : ℕ) → 16 ≤ n → n < 2 ^ 63 → 16 ≤ aligned n
unfolding aligned
aligned_ge n lo hi = omega arith

shorter :
    (oob : Bytes)
    → is_cut oob ≡ false
    → length oob < 2 ^ 63
    → length (drop (aligned (cmsg_len oob)) oob) < length oob
unfolding is_cut
shorter oob h hi = omega (
  arith,
  length-drop (aligned (cmsg_len oob)) oob,
  aligned_ge (cmsg_len oob) (ground (arith, h)) (ground (arith, h)),
  ground_len,
)
  where
    ground_len : 16 ≤ length oob
    ground_len = ground (arith, h)

round_cong :
    (oob : Bytes) (x y : Option (Text × ℕ))
    → (is_cut oob ≡ false → x ≡ y)
    → Path
        (Option (Text × ℕ))
        (if is_cut oob
          then none
          else or_else
              (destination (level oob) (message_type oob) (data_of oob))
              (if ltb (length oob) (aligned (cmsg_len oob)) then none else x))
        (if is_cut oob
          then none
          else or_else
              (destination (level oob) (message_type oob) (data_of oob))
              (if ltb (length oob) (aligned (cmsg_len oob)) then none else y))
round_cong oob x y f = elim (Bool-cases (is_cut oob)) [ inl c ↦ rw c | inr c ↦ rw (f c) ]

-- More fuel than there are bytes changes nothing: the loop ends by itself. The buffer is shorter than
-- 2 ^ 63 bytes, as every Go slice is.
pub parse_loop_enough :
    (n m : ℕ) (oob : Bytes)
    → length oob < 2 ^ 63
    → length oob < n
    → length oob < m
    → parse_loop n oob ≡ parse_loop m oob
unfolding parse_loop
parse_loop_enough zero m oob hi hn hm = absurd (omega arith)
parse_loop_enough (suc n) zero oob hi hn hm = absurd (omega arith)
parse_loop_enough (suc n) (suc m) oob hi hn hm = round_cong oob _ _ (λ c.
    let less = shorter oob c hi in
    parse_loop_enough n m (drop (aligned (cmsg_len oob)) oob) (omega (arith, less))
      (omega (arith, less)) (omega (arith, less)))

-- A control message as the kernel writes it, padded to a multiple of eight bytes.
abbrev pub padding : Bytes → Bytes
padding data' = replicate (aligned (16 + length data') - (16 + length data')) 0

abbrev pub message : ℕ → ℕ → Bytes → Bytes
message level type data' =
    le64 (16 + length data') ++ (le32 level ++ (le32 type ++ (data' ++ padding data')))

message-length :
    (l t : ℕ) (d : Bytes) → length d < 2 ^ 62 → length (message l t d) ≡ aligned (16 + length d)
unfolding aligned
message-length l t d h = omega (
  arith,
  length-append d (padding d),
  length-replicate (aligned (16 + length d) - (16 + length d)) zero,
)

message-cmsg_len :
    (l t : ℕ) (d s : Bytes) → length d < 2 ^ 62 → cmsg_len (message l t d ++ s) ≡ 16 + length d
message-cmsg_len l t d s h = le64-value (16 + length d) (omega arith)

not_cut :
    (oob : Bytes)
    → 16 ≤ length oob
    → 16 ≤ cmsg_len oob
    → cmsg_len oob ≤ length oob
    → is_cut oob ≡ false
unfolding is_cut
not_cut oob a b c = ground arith

aligned_up : (n : ℕ) → n < 2 ^ 63 → n ≤ aligned n
unfolding aligned
aligned_up n h = omega arith

message_not_cut : (l t : ℕ) (d s : Bytes) → length d < 2 ^ 62 → is_cut (message l t d ++ s) ≡ false
message_not_cut l t d s h =
    let n = message-cmsg_len l t d s h in
    let up = aligned_up (16 + length d) (omega arith) in
    let whole = length-append (message l t d) s in
    let own = message-length l t d h in
    not_cut (message l t d ++ s) (omega (arith, up, whole, own)) (omega (arith, n))
      (omega (arith, n, up, whole, own))

message-data_of : (l t : ℕ) (d s : Bytes) → length d < 2 ^ 62 → data_of (message l t d ++ s) ≡ d
message-data_of l t d s h =
    let n : cmsg_len (message l t d ++ s) - 16 ≡ length d =
      omega (arith, message-cmsg_len l t d s h) in
    let e : drop 16 (message l t d ++ s) ≡ d ++ (padding d ++ s) = append_assoc d (padding d) s in
    ap (λ k. take k (drop 16 (message l t d ++ s))) n
    ∙ ap (take (length d)) e
    ∙ take_exact d (padding d ++ s) (length d) refl

message-rest :
    (l t : ℕ) (d s : Bytes)
    → length d < 2 ^ 62
    → drop (aligned (cmsg_len (message l t d ++ s))) (message l t d ++ s) ≡ s
message-rest l t d s h =
    ap (λ k. drop (aligned k) (message l t d ++ s)) (message-cmsg_len l t d s h)
    ∙ drop_exact (message l t d) s _ (message-length l t d h)

message_fits :
    (l t : ℕ) (d s : Bytes)
    → length d < 2 ^ 62
    → ltb (length (message l t d ++ s)) (aligned (cmsg_len (message l t d ++ s))) ≡ false
message_fits l t d s h =
    let n = ap aligned (message-cmsg_len l t d s h) in
    let whole = length-append (message l t d) s in
    let own = message-length l t d h in ground (arith, n, whole, own)

one_round :
    (fuel l t : ℕ) (d s : Bytes)
    → length d < 2 ^ 62
    → l < 2 ^ 32
    → t < 2 ^ 32
    → parse_loop (suc fuel) (message l t d ++ s) ≡ or_else (destination l t d) (parse_loop fuel s)
unfolding parse_loop
one_round fuel l t d s h hl ht = rw (
  message_not_cut l t d s h,
  message_fits l t d s h,
  message-data_of l t d s h,
  message-rest l t d s h,
  le32-value l hl,
  le32-value t ht,
)

-- In a buffer that starts with a whole message, the parser answers with that message's destination if
-- it has one, and else with what it finds in the rest: the first message of one of the two kinds wins,
-- and messages of other kinds and short ones are passed over. The buffer is shorter than 2 ^ 62 bytes.
pub parse_orig_dst_addr-message :
    (l t : ℕ) (d s : Bytes)
    → l < 2 ^ 32
    → t < 2 ^ 32
    → length (message l t d ++ s) < 2 ^ 62
    → parse_orig_dst_addr (message l t d ++ s) ≡ or_else (destination l t d) (parse_orig_dst_addr s)
unfolding parse_orig_dst_addr
parse_orig_dst_addr-message l t d s hl ht hi =
    let whole = length-append (message l t d) s in
    let small : length d < 2 ^ 62 = omega (arith, hi, whole, length-append d (padding d)) in
    let up = aligned_up (16 + length d) (omega (arith, small)) in
    let own = message-length l t d small in
    one_round (length (message l t d ++ s)) l t d s small hl ht
    ∙ ap (or_else (destination l t d)) (
        parse_loop_enough (length (message l t d ++ s)) (suc (length s)) s
          (omega (arith, hi, whole)) (omega (arith, whole, own, up)) (omega arith))
