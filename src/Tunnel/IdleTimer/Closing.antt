-- ===== src/Tunnel/IdleTimer/Closing.antt =====
-- pkg/tunnel/idletimer.go: an idle connection is closed once, and none is forgotten.
use warp_stream.Base.{
  ℕ, zero, suc, ◌+◌, ◌<◌, ◌≡◌, refl, ap, Bool, true, false, Option, none, some, ltb, lt→ltb, arith,
}
use warp_stream.Tunnel.IdleTimer.{
  IdleTimeoutConn, touch, moved, close, System, initial, new_idle_timeout_conn, used_at, Step,
  transfer, fires, times_out, closed_by_user, Reach, here, next,
}

-- What an open connection's timer stands at: it is set to the timeout after the last transfer, or it
-- has fired and the close is under way.
abbrev pub Watched : Option ℕ → ℕ → ℕ → ℕ → Type 0
Watched none pending last timeout = 0 < pending
Watched (some d) pending last timeout = d ≡ last + timeout

-- A closed connection has closed the wrapped one once and has no timer; an open one has not closed it
-- and is watched.
abbrev pub State : Bool → Option ℕ → ℕ → ℕ → ℕ → ℕ → Type 0
State true deadline closes pending last timeout = (closes ≡ 1) × (deadline ≡ none)
State false deadline closes pending last timeout =
    (closes ≡ 0) × Watched deadline pending last timeout

abbrev pub IdleInv : System → Type 0
IdleInv s = State s.conn.closed s.conn.deadline s.conn.closes s.pending s.last_used s.conn.timeout

transfer-IdleInv :
    (now n timeout : ℕ) (deadline : Option ℕ) (closed : Bool) (closes pending last : ℕ)
    → State closed deadline closes pending last timeout
    → let c : IdleTimeoutConn = record {
      timeout = timeout;
      deadline = deadline;
      closed = closed;
      closes = closes;
    } in
      IdleInv (record {
        conn = moved now n c;
        pending = pending;
        last_used = used_at now n (record { conn = c; pending = pending; last_used = last });
      })
unfolding moved touch
transfer-IdleInv now zero timeout deadline true closes pending last v = v
transfer-IdleInv now zero timeout deadline false closes pending last v = v
transfer-IdleInv now (suc n) timeout deadline true closes pending last v =
    let e : ltb 0 (suc n) ≡ true = lt→ltb 0 (suc n) (omega arith) in rw e v
transfer-IdleInv now (suc n) timeout deadline false closes pending last v =
    let e : ltb 0 (suc n) ≡ true = lt→ltb 0 (suc n) (omega arith) in rw e (v.0, refl)

fires-IdleInv :
    (deadline : Option ℕ) (closed : Bool) (closes pending last timeout : ℕ)
    → State closed deadline closes pending last timeout
    → State closed none closes (suc pending) last timeout
fires-IdleInv deadline true closes pending last timeout v = (v.0, refl)
fires-IdleInv deadline false closes pending last timeout v = (v.0, omega arith)

close-IdleInv :
    (timeout : ℕ) (deadline : Option ℕ) (closed : Bool) (closes pending left last : ℕ)
    → State closed deadline closes pending last timeout
    → let c : IdleTimeoutConn = record {
      timeout = timeout;
      deadline = deadline;
      closed = closed;
      closes = closes;
    } in
      IdleInv (record { conn = close c; pending = left; last_used = last })
unfolding close
close-IdleInv timeout deadline true closes pending left last v = v
close-IdleInv timeout deadline false closes pending left last v = (ap suc v.0, refl)

step-IdleInv : {s t : System} → Step s t → IdleInv s → IdleInv t
step-IdleInv {s} (transfer now n) v =
    transfer-IdleInv now n s.conn.timeout s.conn.deadline s.conn.closed s.conn.closes s.pending
      s.last_used v
step-IdleInv {s} (fires now d e le) v =
    fires-IdleInv s.conn.deadline s.conn.closed s.conn.closes s.pending s.last_used s.conn.timeout v
step-IdleInv {s} (times_out n e) v =
    close-IdleInv s.conn.timeout s.conn.deadline s.conn.closed s.conn.closes s.pending n s.last_used
      v
step-IdleInv {s} closed_by_user v =
    close-IdleInv s.conn.timeout s.conn.deadline s.conn.closed s.conn.closes s.pending s.pending
      s.last_used v

-- Whatever is read, written and closed, and however late the timer's function runs: a closed
-- connection has closed the wrapped one exactly once and has no timer; an open one has not closed it,
-- and its timer is set to the timeout after the last transfer or has fired with the close under way.
pub Reach-IdleInv : (now timeout : ℕ) {s : System} → Reach (initial now timeout) s → IdleInv s
unfolding initial new_idle_timeout_conn
Reach-IdleInv now timeout here = (refl, refl)
Reach-IdleInv now timeout (next r st) = step-IdleInv st (Reach-IdleInv now timeout r)
