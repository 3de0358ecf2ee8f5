-- ===== src/Server/ReverseUdp.antt =====
-- pkg/server/reverse_udp.go: the sessions of a reverse UDP tunnel, one for each peer that sends
-- datagrams. A session is named by a number, as the code compares pointers; `store` holds what the
-- numbers point to. A peer is the text of its address.
pub mod System
pub mod Session
pub mod Receiving
pub mod Invariant
pub mod Tests
use warp_stream.Base.{
  ℕ, suc, Bool, true, false, Option, none, some, List, [], ◌∷◌, ◌++◌, length, take, ltb,
  if◌then◌else◌, Text, Bytes,
}
use warp_stream.Protocol.{LocalProtocol}
use warp_stream.Server.Dispatch.{thirty_seconds, timeout_or_default}
use warp_stream.Server.Queue.{update}
use warp_stream.Server.Registry.{put}

-- udpSessionConn: `ch` is the channel of datagrams.
pub record UdpSessionConn : Type 0 where
  pub peer : Text
  pub ch : List Bytes
  pub closed : Bool

abbrev pub channel_size : ℕ
channel_size = 128

-- newUdpSessionConn.
unfoldable pub new_udp_session_conn : Text → UdpSessionConn
new_udp_session_conn peer = record { peer = peer; ch = []; closed = false }

-- push: a datagram that finds the channel full, or closed, is dropped.
unfoldable pub push : Bytes → UdpSessionConn → UdpSessionConn
push datagram u =
    if u.closed
    then u
    else if ltb (length u.ch) channel_size
    then record u { ch = u.ch ++ datagram ∷ [] }
    else u

-- Read into a buffer of `n` bytes: what a datagram has more is dropped. A closed channel still gives
-- out what it holds.
pub data ReadResult : Type 0 where
  got : Bytes → ReadResult
  eof blocked : ReadResult

unfoldable pub read_from : ℕ → List Bytes → UdpSessionConn → ReadResult × UdpSessionConn
read_from n (d ∷ ds) u = (got (take n d), record u { ch = ds })
read_from n [] u = (if u.closed then eof else blocked, u)

unfoldable pub read : ℕ → UdpSessionConn → ReadResult × UdpSessionConn
read n u = read_from n u.ch u

-- Close, up to the call of onClose.
unfoldable pub close : UdpSessionConn → UdpSessionConn
close u = record u { closed = true }

-- The variables of runUdpListener.
pub record UdpTable : Type 0 where
  pub sessions : Text → Option ℕ
  pub store : ℕ → UdpSessionConn
  pub next : ℕ

abbrev pub change : ℕ → UdpSessionConn → UdpTable → UdpTable
change i u t = record t { store = update t.store i u }

-- The part of the loop behind ReadFromUDP. A new session is also handed to handleIncoming.
unfoldable pub with_session : Text → Bytes → UdpTable → Option ℕ → UdpTable
with_session peer datagram t (some i) = change i (push datagram (t.store i)) t
with_session peer datagram t none = record t {
  sessions = put t.sessions peer (some t.next);
  store = update t.store t.next (push datagram (new_udp_session_conn peer));
  next = suc t.next;
}

unfoldable pub receive : Text → Bytes → UdpTable → UdpTable
receive peer datagram t = with_session peer datagram t (t.sessions peer)

-- The function that a session calls when it was closed.
unfoldable pub on_close : Text → UdpTable → UdpTable
on_close peer t = record t { sessions = put t.sessions peer none }

-- The idle timeout of a session.
unfoldable pub session_timeout : LocalProtocol → ℕ
session_timeout p = elim p.reverse_udp [
  | none ↦ thirty_seconds
  | some u ↦ timeout_or_default u.timeout
]
