-- ===== src/Socket/Cmsg.antt =====
-- internal/socket/cmsg.go: ParseOrigDstAddr, on the 64-bit layout that the code assumes.
pub mod Search
use warp_stream.Base.{
  ℕ, zero, suc, ◌+◌, ◌-◌, ◌*◌, ◌/◌, ◌%◌, ◌^◌, Bool, ◌&&◌, ◌||◌, Option, none, some, length, take,
  drop, leb, ltb, ◌==◌, if◌then◌else◌, Bytes, be_value, le_value, Text, ◌++◌,
}
use warp_stream.Base.Net.{ip_string, v4_in_v6_prefix}

-- The fields of one control message, at the head of the buffer.
abbrev pub cmsg_len : Bytes → ℕ
cmsg_len oob = le_value (take 8 oob)

abbrev pub level : Bytes → ℕ
level oob = le_value (take 4 (drop 8 oob))

abbrev pub message_type : Bytes → ℕ
message_type oob = le_value (take 4 (drop 12 oob))

-- `oob[16:cmsgLen]`.
abbrev pub data_of : Bytes → Bytes
data_of oob = take (cmsg_len oob - 16) (drop 16 oob)

-- The two address families: port in bytes 2 and 3, address behind.
unfoldable pub ipv4_destination : Bytes → Option (Text × ℕ)
ipv4_destination data' =
    if leb 8 (length data')
    then some
        (ip_string (v4_in_v6_prefix ++ take 4 (drop 4 data')), be_value 0 (take 2 (drop 2 data')))
    else none

unfoldable pub ipv6_destination : Bytes → Option (Text × ℕ)
ipv6_destination data' =
    if leb 24 (length data')
    then some (ip_string (take 16 (drop 8 data')), be_value 0 (take 2 (drop 2 data')))
    else none

-- The two tests on a message; a short one is passed over.
unfoldable pub destination : ℕ → ℕ → Bytes → Option (Text × ℕ)
destination level type data' =
    if level == 0 && type == 20
    then ipv4_destination data'
    else if level == 41 && type == 80
    then ipv6_destination data'
    else none

-- `(cmsgLen + 7) &^ 7`, as a uint64.
unfoldable pub aligned : ℕ → ℕ
aligned n = (n + 7) % 2 ^ 64 / 8 * 8

-- The tests that stop the loop before a message is looked at.
unfoldable pub is_cut : Bytes → Bool
is_cut oob = ltb (length oob) 16 || (ltb (cmsg_len oob) 16 || ltb (length oob) (cmsg_len oob))

abbrev pub or_else : Option (Text × ℕ) → Option (Text × ℕ) → Option (Text × ℕ)
or_else (some r) rest = some r
or_else none rest = rest

-- The loop; a round takes 16 bytes at least.
unfoldable pub parse_loop : ℕ → Bytes → Option (Text × ℕ)
parse_loop zero oob = none
parse_loop (suc fuel) oob =
    let rest = parse_loop fuel (drop (aligned (cmsg_len oob)) oob) in
    if is_cut oob
    then none
    else or_else (destination (level oob) (message_type oob) (data_of oob))
        (if ltb (length oob) (aligned (cmsg_len oob)) then none else rest)

unfoldable pub parse_orig_dst_addr : Bytes → Option (Text × ℕ)
parse_orig_dst_addr oob = parse_loop (suc (length oob)) oob
