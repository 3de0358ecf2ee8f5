-- ===== src/Client/Udp.antt =====
-- pkg/client/client.go: the sessions of runUdpTunnel and runTProxyUdpTunnel, one for each peer that
-- sends datagrams. A session is a number that names its stream, its timer and the goroutine that reads
-- from its stream, all made at once. Each operation is a critical section of the function's mutex.
pub mod Sessions
pub mod Receiving
pub mod Invariant
pub mod Race
pub mod Tests
use warp_stream.Base.{
  List, [], ◌∷◌, ◌++◌, Bytes, ℕ, suc, ◌≡◌, Bool, true, false, Option, none, some, if◌then◌else◌,
  Text,
}
use warp_stream.Protocol.{LocalProtocol, UdpProtocol}
use warp_stream.Server.Dispatch.{thirty_seconds, timeout_or_default}
use warp_stream.Server.Queue.{update}
use warp_stream.Server.Registry.{put}
use warp_stream.Server.ReverseUdp.System.{with_arrival}

-- The loop on the socket: does it wait for a datagram, or write one to a session's stream?
pub data Loop : Type 0 where
  listening : Loop
  writing : Text → ℕ → Bytes → Loop

-- `clients` and `timers` are the two maps. Of a session: the address of its peer, does its timer run,
-- how many calls of the timer's function wait for the mutex, does its goroutine read, is ts.Close about
-- to be called or called, was it called? `to_stream` has the datagrams written to each stream, with the
-- addresses of the peers that sent them, `to_peer` what was sent back to each address.
pub record UdpTunnel : Type 0 where
  pub clients : Text → Option ℕ
  pub timers : Text → Option ℕ
  pub dest : ℕ → Text
  pub armed : ℕ → Bool
  pub firing : ℕ → ℕ
  pub reading : ℕ → Bool
  pub leaving : ℕ → Bool
  pub closed : ℕ → Bool
  pub to_stream : ℕ → List (Text × Bytes)
  pub to_peer : Text → List Bytes
  pub next : ℕ
  pub loop : Loop

abbrev pub reset_timer : Option ℕ → UdpTunnel → UdpTunnel
reset_timer none s = s
reset_timer (some t) s = record s { armed = update s.armed t true }

abbrev pub stopped_timer : Option ℕ → (ℕ → Bool) → ℕ → Bool
stopped_timer none armed = armed
stopped_timer (some t) armed = update armed t false

abbrev pub clear : Text → UdpTunnel → UdpTunnel
clear a s = record s { clients = put s.clients a none; timers = put s.timers a none }

abbrev pub leave : ℕ → UdpTunnel → UdpTunnel
leave i s = record s { leaving = update s.leaving i true }

abbrev pub shut : ℕ → UdpTunnel → UdpTunnel
shut i s = record s { leaving = update s.leaving i true; closed = update s.closed i true }

-- The first datagram of a peer, when connectToTransport succeeds.
abbrev pub open_session : Text → Bytes → UdpTunnel → UdpTunnel
open_session peer d s = record s {
  clients = put s.clients peer (some s.next);
  timers = put s.timers peer (some s.next);
  dest = update s.dest s.next peer;
  armed = update s.armed s.next true;
  firing = update s.firing s.next 0;
  reading = update s.reading s.next true;
  leaving = update s.leaving s.next false;
  closed = update s.closed s.next false;
  to_stream = update s.to_stream s.next [];
  next = suc s.next;
  loop = writing peer s.next d;
}

-- The part of a round under the mutex; `connects` tells whether connectToTransport succeeds.
unfoldable pub serve_datagram : Bool → Text → Bytes → UdpTunnel → Option ℕ → UdpTunnel
serve_datagram connects peer d s (some i) =
    reset_timer (s.timers peer) (record s { loop = writing peer i d })
serve_datagram connects peer d s none = if connects then open_session peer d s else s

unfoldable pub receive_datagram : Bool → Text → Bytes → UdpTunnel → UdpTunnel
receive_datagram connects peer d s = serve_datagram connects peer d s (s.clients peer)

-- The write to the stream.
unfoldable pub write_datagram : Text → ℕ → Bytes → UdpTunnel → UdpTunnel
write_datagram peer i d s = record s {
  to_stream = update s.to_stream i (s.to_stream i ++ (peer, d) ∷ []);
  loop = listening;
}

-- What runUdpTunnel does when the write fails.
unfoldable pub drop_session : Text → ℕ → UdpTunnel → UdpTunnel
drop_session peer i s =
    leave i
      (clear peer (record s { armed = stopped_timer (s.timers peer) s.armed; loop = listening }))

-- The timers' function in runUdpTunnel; `n` other calls of it wait.
unfoldable pub expire : ℕ → ℕ → UdpTunnel → UdpTunnel
expire i n s = leave i (clear (s.dest i) (record s { firing = update s.firing i n }))

-- That in runTProxyUdpTunnel: it closes the stream that the map has.
abbrev pub shut_listed : Option ℕ → UdpTunnel → UdpTunnel
shut_listed none s = s
shut_listed (some j) s = shut j s

unfoldable pub expire_transparent : ℕ → ℕ → UdpTunnel → UdpTunnel
expire_transparent i n s =
    shut_listed (s.clients (s.dest i))
      (clear (s.dest i) (record s { firing = update s.firing i n }))

-- A session's goroutine got a message; all but the binary ones of a WebSocket are only taken as a sign
-- of life.
abbrev pub send_back : Bool → Text → Bytes → (Text → List Bytes) → Text → List Bytes
send_back binary a p to_peer = if binary then with_arrival a p to_peer else to_peer

unfoldable pub prolong : ℕ → Bool → Bytes → UdpTunnel → UdpTunnel
prolong i binary p s =
    reset_timer (s.timers (s.dest i))
      (record s { to_peer = send_back binary (s.dest i) p s.to_peer })

-- Its deferred call.
unfoldable pub end_reader : ℕ → UdpTunnel → UdpTunnel
end_reader i s = leave i (
    clear (s.dest i) (record s {
      reading = update s.reading i false;
      armed = stopped_timer (s.timers (s.dest i)) s.armed;
    }))

-- What may happen, in runTProxyUdpTunnel if `transparent`, else in runUdpTunnel. The former goes on
-- when a write fails.
pub data Step (transparent : Bool) (s : UdpTunnel) : UdpTunnel → Type 0 where
  datagram :
      (connects : Bool) (peer : Text) (d : Bytes)
      → s.loop ≡ listening
      → Step transparent s (receive_datagram connects peer d s)
  written :
      (peer : Text) (i : ℕ) (d : Bytes)
      → s.loop ≡ writing peer i d
      → Step transparent s (write_datagram peer i d s)
  write_failed :
      (peer : Text) (i : ℕ) (d : Bytes)
      → transparent ≡ false
      → s.loop ≡ writing peer i d
      → Step transparent s (drop_session peer i s)
  write_ignored :
      (peer : Text) (i : ℕ) (d : Bytes)
      → transparent ≡ true
      → s.loop ≡ writing peer i d
      → Step transparent s (record s { loop = listening })
  fires :
      (i : ℕ)
      → s.armed i ≡ true
      → Step transparent s (record s {
        armed = update s.armed i false;
        firing = update s.firing i (suc (s.firing i));
      })
  expires : (i n : ℕ) → transparent ≡ false → s.firing i ≡ suc n → Step transparent s (expire i n s)
  expires_transparent :
      (i n : ℕ)
      → transparent ≡ true
      → s.firing i ≡ suc n
      → Step transparent s (expire_transparent i n s)
  message :
      (i : ℕ) (binary : Bool) (p : Bytes)
      → s.reading i ≡ true
      → Step transparent s (prolong i binary p s)
  ends : (i : ℕ) → s.reading i ≡ true → Step transparent s (end_reader i s)
  closes :
      (i : ℕ)
      → s.leaving i ≡ true
      → Step transparent s (record s { closed = update s.closed i true })

pub data Reach (transparent : Bool) (s : UdpTunnel) : UdpTunnel → Type 0 where
  here : Reach transparent s s
  next_step :
      {t u : UdpTunnel} → Reach transparent s t → Step transparent t u → Reach transparent s u

-- The start; the addresses of the sessions to come do not matter.
unfoldable pub empty_tunnel : (ℕ → Text) → UdpTunnel
empty_tunnel dest = record {
  clients = λ a. none;
  timers = λ a. none;
  dest = dest;
  armed = λ i. false;
  firing = λ i. 0;
  reading = λ i. false;
  leaving = λ i. false;
  closed = λ i. false;
  to_stream = λ i. [];
  to_peer = λ a. [];
  next = 0;
  loop = listening;
}

-- The idle timeouts.
unfoldable pub timeout_of_protocol : Option UdpProtocol → ℕ
timeout_of_protocol none = thirty_seconds
timeout_of_protocol (some u) = timeout_or_default u.timeout

unfoldable pub session_timeout : Bool → LocalProtocol → ℕ
session_timeout transparent p = timeout_of_protocol (if transparent then p.tproxy_udp else p.udp)
