-- ===== src/Proxy/TargetFrame.antt =====
-- The frame that names a reverse tunnel's target: encodeTargetFrame of pkg/server/manager.go and
-- readTargetFrame of pkg/client/client.go.
pub mod RoundTrip
use warp_stream.Base.{
  ℕ, ◌+◌, ◌%◌, ◌∷◌, ◌++◌, length, take, drop, ltb, leb, ◌==◌, if◌then◌else◌, Bytes, be16, be_value,
  Text, arith, not,
}
use warp_stream.Base.Monad.{Result, ok, err}
use warp_stream.Wst.Reader.{get_or_zero}

pub data FrameError : Type 0 where
  host_too_long too_short truncated no_active_stream stream_failed : FrameError
  invalid_version : ℕ → FrameError

-- encodeTargetFrame: version, length of the host, host, port.
unfoldable pub encode_target_frame : Text → ℕ → Result FrameError Bytes
encode_target_frame host port =
    if ltb 255 (length host)
    then err host_too_long
    else ok (0x01 ∷ (length host % 256) ∷ (host ++ be16 port))

-- What the client's tunnel stream has to read: the next message of one of the two WebSocket
-- libraries, or the body of an HTTP/2 response.
pub data TunnelStream : Type 0 where
  ws gorilla : Result FrameError Bytes → TunnelStream
  h2 : Bytes → TunnelStream
  no_stream : TunnelStream

-- The two io.ReadFull calls on the HTTP/2 body.
unfoldable pub h2_payload : Bytes → Result FrameError Bytes
h2_payload (version ∷ n ∷ s) =
    if version == 0x01
    then (if leb (n + 2) (length s) then ok (version ∷ n ∷ take (n + 2) s) else err stream_failed)
    else err (invalid_version version)
h2_payload _ = err stream_failed

unfoldable pub read_payload : TunnelStream → Result FrameError Bytes
read_payload (ws m) = m
read_payload (gorilla m) = m
read_payload (h2 s) = h2_payload s
read_payload no_stream = err no_active_stream

unfoldable pub decode_payload : Bytes → Result FrameError (Text × ℕ)
decode_payload payload =
    let host_len = get_or_zero payload 1 in
    if ltb (length payload) 4
    then err too_short
    else if not (get_or_zero payload 0 == 0x01)
    then err (invalid_version (get_or_zero payload 0))
    else if ltb (length payload) (2 + host_len + 2)
    then err truncated
    else ok (take host_len (drop 2 payload), be_value 0 (take 2 (drop (2 + host_len) payload)))

unfoldable pub decode : Result FrameError Bytes → Result FrameError (Text × ℕ)
decode (ok payload) = decode_payload payload
decode (err e) = err e

unfoldable pub read_target_frame : TunnelStream → Result FrameError (Text × ℕ)
read_target_frame ts = decode (read_payload ts)
