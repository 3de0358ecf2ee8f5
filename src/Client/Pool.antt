-- ===== src/Client/Pool.antt =====
-- pkg/client/pool.go: the pool of idle connections to the server, with all who use it at once: the
-- goroutine that fills it, calls of Get, and Close. A connection is a number, given when it is dialled.
-- A step is what one of them does between two points at which others may run.
pub mod Places
pub mod Ownership
pub mod Closing
pub mod Tests
use warp_stream.Base.{
  ℕ, suc, ◌<◌, ◌≡◌, Bool, true, false, List, [], ◌∷◌, ◌++◌, length, ltb, if◌then◌else◌,
}

-- The goroutine `maintain`: it waits or looks how full the pool is; it dials; it has a connection for
-- the pool; it has returned.
pub data Maintainer : Type 0 where
  looking dialing stopped : Maintainer
  holding : ℕ → Maintainer

-- Close: not called; waiting for `maintain`; emptying the channel; returned.
pub data Closer : Type 0 where
  not_called waiting draining returned : Closer

-- `conns` is the channel. The last three lists say where the other connections are: in a call of Get
-- that has not tested `closed` yet, returned by Get, closed. `callers` counts the calls of Get that have
-- passed the first test and not yet looked at the channel.
pub record Pool : Type 0 where
  pub min_idle : ℕ
  pub conns : List ℕ
  pub cancelled : Bool
  pub closed : Bool
  pub maintainer : Maintainer
  pub closer : Closer
  pub callers : ℕ
  pub next : ℕ
  pub in_get : List ℕ
  pub given : List ℕ
  pub shut : List ℕ

-- NewConnectionPool.
unfoldable pub new_connection_pool : ℕ → Pool
new_connection_pool min_idle = record {
  min_idle = min_idle;
  conns = [];
  cancelled = false;
  closed = false;
  maintainer = if ltb 0 min_idle then looking else stopped;
  closer = not_called;
  callers = 0;
  next = 0;
  in_get = [];
  given = [];
  shut = [];
}

-- `maintain`. When the context is cancelled and the channel has room, either case of its last select may
-- be taken; the default is taken when neither is ready.
pub data Maintain (p : Pool) : Pool → Type 0 where
  starts_dial :
      p.maintainer ≡ looking
      → length p.conns < p.min_idle
      → p.cancelled ≡ false
      → Maintain p (record p { maintainer = dialing })
  dial_failed : p.maintainer ≡ dialing → Maintain p (record p { maintainer = looking })
  dialed :
      p.maintainer ≡ dialing
      → Maintain p (record p { maintainer = holding p.next; next = suc p.next })
  added :
      (c : ℕ)
      → p.maintainer ≡ holding c
      → length p.conns < p.min_idle
      → Maintain p (record p { maintainer = looking; conns = p.conns ++ c ∷ [] })
  found_full :
      (c : ℕ)
      → p.maintainer ≡ holding c
      → length p.conns ≡ p.min_idle
      → p.cancelled ≡ false
      → Maintain p (record p { maintainer = looking; shut = c ∷ p.shut })
  found_cancelled :
      (c : ℕ)
      → p.maintainer ≡ holding c
      → p.cancelled ≡ true
      → Maintain p (record p { maintainer = stopped; shut = c ∷ p.shut })
  stops :
      p.maintainer ≡ looking → p.cancelled ≡ true → Maintain p (record p { maintainer = stopped })

-- Get. A call that fails to dial returns and leaves nothing behind. One that dials found the channel empty
-- before; it may be filled again by the time the connection is there.
pub data Get (p : Pool) : Pool → Type 0 where
  enters : p.closed ≡ false → Get p (record p { callers = suc p.callers })
  takes :
      (n c : ℕ) (cs : List ℕ)
      → p.callers ≡ suc n
      → p.conns ≡ c ∷ cs
      → Get p (record p { callers = n; conns = cs; in_get = c ∷ p.in_get })
  dials :
      (n : ℕ)
      → p.callers ≡ suc n
      → Get p (record p { callers = n; next = suc p.next; in_get = p.next ∷ p.in_get })
  gives_up : (n : ℕ) → p.callers ≡ suc n → Get p (record p { callers = n })
  gives :
      (before after : List ℕ) (c : ℕ)
      → p.in_get ≡ before ++ (c ∷ after)
      → p.closed ≡ false
      → Get p (record p { in_get = before ++ after; given = c ∷ p.given })
  refuses :
      (before after : List ℕ) (c : ℕ)
      → p.in_get ≡ before ++ (c ∷ after)
      → p.closed ≡ true
      → Get p (record p { in_get = before ++ after; shut = c ∷ p.shut })

-- Close.
pub data Close (p : Pool) : Pool → Type 0 where
  begins :
      p.closer ≡ not_called
      → Close p (record p { closed = true; cancelled = true; closer = waiting })
  waited : p.closer ≡ waiting → p.maintainer ≡ stopped → Close p (record p { closer = draining })
  drains :
      (c : ℕ) (cs : List ℕ)
      → p.closer ≡ draining
      → p.conns ≡ c ∷ cs
      → Close p (record p { conns = cs; shut = c ∷ p.shut })
  returns : p.closer ≡ draining → p.conns ≡ [] → Close p (record p { closer = returned })

pub data Step (p q : Pool) : Type 0 where
  maintain : Maintain p q → Step p q
  get : Get p q → Step p q
  close : Close p q → Step p q

pub data Reach (p : Pool) : Pool → Type 0 where
  here : Reach p p
  next_step : {q r : Pool} → Reach p q → Step q r → Reach p r
