-- ===== src/Server/ReverseUdp/System.antt =====
-- pkg/server/reverse_udp.go: the listener and the sessions' connections, as a step relation. `arrived`
-- has the datagrams of each peer, `taken` those that a session's reader took, in their order;
-- `forgotten` tells of which sessions the onClose function has run. Looking up a session and pushing to
-- it are one step: only the listener makes sessions, and a push to a closed one does nothing, so that
-- whatever runs between the two can as well run before or after both.
use warp_stream.Base.{
  ℕ, ◌<◌, ◌≡◌, Bool, true, false, none, List, [], ◌∷◌, ◌++◌, Text, Bytes, text_eq, if◌then◌else◌,
}
use warp_stream.Server.Queue.{update}
use warp_stream.Server.ReverseUdp.{UdpSessionConn, UdpTable, change, read, close, receive, on_close}

pub record System : Type 0 where
  pub table : UdpTable
  pub arrived : Text → List Bytes
  pub taken : ℕ → List Bytes
  pub forgotten : ℕ → Bool

abbrev pub start : (ℕ → UdpSessionConn) → System
start store = record {
  table = record { sessions = λ a. none; store = store; next = 0 };
  arrived = λ a. [];
  taken = λ i. [];
  forgotten = λ i. false;
}

abbrev pub with_arrival : Text → Bytes → (Text → List Bytes) → Text → List Bytes
with_arrival peer datagram f a = if text_eq a peer then f a ++ datagram ∷ [] else f a

pub data Step (s : System) : System → Type 0 where
  datagram :
      (peer : Text) (d : Bytes)
      → Step s
          (record s { table = receive peer d s.table; arrived = with_arrival peer d s.arrived })
  reads :
      (i n : ℕ) (d : Bytes) (ds : List Bytes)
      → i < s.table.next
      → (s.table.store i).ch ≡ d ∷ ds
      → Step s (record s {
        table = change i (read n (s.table.store i)).1 s.table;
        taken = update s.taken i (s.taken i ++ d ∷ []);
      })
  closes :
      (i : ℕ)
      → i < s.table.next
      → (s.table.store i).closed ≡ false
      → Step s (record s { table = change i (close (s.table.store i)) s.table })
  forgets :
      (i : ℕ)
      → i < s.table.next
      → (s.table.store i).closed ≡ true
      → s.forgotten i ≡ false
      → Step s (record s {
        table = on_close (s.table.store i).peer s.table;
        forgotten = update s.forgotten i true;
      })

pub data Reach (s : System) : System → Type 0 where
  here : Reach s s
  next_step : {t u : System} → Reach s t → Step t u → Reach s u
