-- ===== src/Client/Pool/Tests.antt =====
-- A pool of two connections.
use warp_stream.Base.{◌≡◌, refl, true, [], ◌∷◌, arith}
use warp_stream.Client.Pool.{
  Pool, looking, stopped, new_connection_pool, starts_dial, dialed, added, enters, takes, begins,
  Step, maintain, get, close, Reach, here, next_step, returned,
}
use warp_stream.Client.Pool.Places.{PoolInv}
use warp_stream.Client.Pool.Ownership.{Reach-PoolInv}
use warp_stream.Client.Pool.Closing.{close_returns}

-- One connection is dialled and added, a caller takes it, and Close begins.
abbrev closing_pool : Pool
closing_pool = record {
  min_idle = 2;
  conns = [];
  cancelled = true;
  closed = true;
  maintainer = looking;
  closer = warp_stream.Client.Pool.Closer.waiting;
  callers = 0;
  next = 1;
  in_get = 0 ∷ [];
  given = [];
  shut = [];
}

closing_reached : Reach (new_connection_pool 2) closing_pool
unfolding new_connection_pool
closing_reached =
    next_step
      (next_step
        (next_step
          (next_step
            (next_step (next_step here (maintain (starts_dial refl (omega arith) refl)))
              (maintain (dialed refl)))
            (maintain (added 0 refl (omega arith))))
          (get (enters refl)))
        (get (takes 0 0 [] refl refl)))
      (close (begins refl))

Reach-PoolInv_example : PoolInv 2 closing_pool
Reach-PoolInv_example = Reach-PoolInv 2 closing_reached

close_returns_example : (q : Pool) × Reach closing_pool q × (q.closer ≡ returned) × (q.conns ≡ [])
close_returns_example = close_returns 2 closing_reached refl
