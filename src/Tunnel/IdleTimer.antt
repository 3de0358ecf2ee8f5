-- ===== src/Tunnel/IdleTimer.antt =====
-- pkg/tunnel/idletimer.go: a connection that is closed when nothing was read or written for a time.
-- Times are nanoseconds. The timer runs its function in a goroutine of its own, so between its firing
-- and the call of Close other steps can happen; `pending` counts the calls that are under way.
pub mod Closing
use warp_stream.Base.{
  ℕ, suc, ◌+◌, ◌*◌, ◌^◌, ◌≤◌, ◌≡◌, Bool, true, false, Option, none, some, leb, ltb, if◌then◌else◌,
  ◌||◌, ◌==◌,
}

pub record IdleTimeoutConn : Type 0 where
  pub timeout : ℕ
  pub deadline : Option ℕ
  pub closed : Bool
  pub closes : ℕ

-- `timeout <= 0`, on the bit pattern of an int64.
unfoldable pub effective_timeout : ℕ → ℕ
effective_timeout timeout =
    if timeout == 0 || leb (2 ^ 63) timeout then 30 * 1_000_000_000 else timeout

-- NewIdleTimeoutConn; `closes` counts the calls of the wrapped connection's Close.
unfoldable pub new_idle_timeout_conn : ℕ → ℕ → IdleTimeoutConn
new_idle_timeout_conn now timeout = record {
  timeout = effective_timeout timeout;
  deadline = some (now + effective_timeout timeout);
  closed = false;
  closes = 0;
}

unfoldable pub touch : ℕ → IdleTimeoutConn → IdleTimeoutConn
touch now c = if c.closed then c else record c { deadline = some (now + c.timeout) }

-- Read and Write, when the wrapped call has moved `n` bytes.
unfoldable pub moved : ℕ → ℕ → IdleTimeoutConn → IdleTimeoutConn
moved now n c = if ltb 0 n then touch now c else c

unfoldable pub close : IdleTimeoutConn → IdleTimeoutConn
close c = if c.closed then c else record c { closed = true; deadline = none; closes = suc c.closes }

-- A connection in use; `last_used` is the time of the last transfer while it was open.
pub record System : Type 0 where
  pub conn : IdleTimeoutConn
  pub pending : ℕ
  pub last_used : ℕ

unfoldable pub initial : ℕ → ℕ → System
initial now timeout = record {
  conn = new_idle_timeout_conn now timeout;
  pending = 0;
  last_used = now;
}

abbrev pub used_at : ℕ → ℕ → System → ℕ
used_at now n s = if s.conn.closed then s.last_used else if ltb 0 n then now else s.last_used

pub data Step (s : System) : System → Type 0 where
  transfer :
      (now n : ℕ) → Step s (record s { conn = moved now n s.conn; last_used = used_at now n s })
  fires :
      (now d : ℕ)
      → s.conn.deadline ≡ some d
      → d ≤ now
      → Step s (record s { conn = record (s.conn) { deadline = none }; pending = suc s.pending })
  times_out : (n : ℕ) → s.pending ≡ suc n → Step s (record s { conn = close s.conn; pending = n })
  closed_by_user : Step s (record s { conn = close s.conn })

pub data Reach (s : System) : System → Type 0 where
  here : Reach s s
  next : {t u : System} → Reach s t → Step t u → Reach s u
