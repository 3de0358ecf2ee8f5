-- ===== src/Server/Registry.antt =====
-- pkg/server/manager.go: the map of reverse-tunnel listeners, under the manager's mutex. A listener is
-- named by a number, as the code compares pointers; `store` holds what the numbers point to.
pub mod System
pub mod Invariant
pub mod Activity
pub mod Idle
pub mod Tests
use warp_stream.Base.{
  ℕ, zero, suc, ◌+◌, Bool, true, false, not, ◌&&◌, ◌||◌, Option, none, some, ltb, ◌==◌, Text,
  text_eq, if◌then◌else◌,
}
use warp_stream.Protocol.{LocalProtocol, JwtTunnelConfig}
use warp_stream.Server.Bind.{bind_target}
use warp_stream.Server.Queue.{update}

-- Go's int, as far as the counter goes.
pub data ℤ : Type 0 where
  pos negsuc : ℕ → ℤ

abbrev pub increment : ℤ → ℤ
increment (pos n) = pos (suc n)
increment (negsuc zero) = pos 0
increment (negsuc (suc n)) = negsuc n

abbrev pub decrement : ℤ → ℤ
decrement (pos zero) = negsuc 0
decrement (pos (suc n)) = pos n
decrement (negsuc n) = negsuc (suc n)

abbrev pub is_positive : ℤ → Bool
is_positive (pos (suc n)) = true
is_positive _ = false

-- The fields of tunnelListener that the manager's mutex guards or that never change. Times are
-- nanoseconds.
pub record TunnelListener : Type 0 where
  pub addr : Text
  pub is_unix : Bool
  pub protocol : LocalProtocol
  pub last_used : ℕ
  pub active : ℤ

pub record Manager : Type 0 where
  pub listeners : Text → Option ℕ
  pub store : ℕ → TunnelListener
  pub fresh : ℕ
  pub quit : ℕ → Bool
  pub idle_timeout : ℕ

abbrev pub points_to : Option ℕ → ℕ → Bool
points_to none p = false
points_to (some q) p = q == p

-- `current, ok := m.listeners[tl.addr]; ok && current == tl`.
unfoldable pub is_current : Manager → ℕ → Bool
is_current m p = points_to (m.listeners (m.store p).addr) p

abbrev pub change : Manager → ℕ → (TunnelListener → TunnelListener) → Manager
change m p f = record m { store = update m.store p (f (m.store p)) }

unfoldable pub on_current : Manager → ℕ → (TunnelListener → TunnelListener) → Manager
on_current m p f = if is_current m p then change m p f else m

abbrev pub used_at : ℕ → TunnelListener → TunnelListener
used_at now t = record t { last_used = now }

abbrev pub begun_at : ℕ → TunnelListener → TunnelListener
begun_at now t = record t { active = increment t.active; last_used = now }

abbrev pub ended_at : ℕ → TunnelListener → TunnelListener
ended_at now t = record t { active = decrement t.active; last_used = now }

unfoldable pub touch_listener : ℕ → ℕ → Manager → Manager
touch_listener now p m = on_current m p (used_at now)

-- updateActivePipes, which is called with -1 alone.
unfoldable pub update_active_pipes : ℕ → ℕ → Manager → Manager
update_active_pipes now p m = on_current m p (ended_at now)

unfoldable pub begin_incoming : ℕ → ℕ → Manager → Manager
begin_incoming now p m = on_current m p (begun_at now)

abbrev pub put : (Text → Option ℕ) → Text → Option ℕ → Text → Option ℕ
put f key v a = if text_eq a key then v else f a

abbrev pub new_listener : ℕ → JwtTunnelConfig → TunnelListener
new_listener now claims = record {
  addr = (bind_target claims).bind_addr;
  is_unix = (bind_target claims).is_unix;
  protocol = claims.protocol;
  last_used = now;
  active = pos 0;
}

unfoldable pub create_listener : ℕ → JwtTunnelConfig → Manager → Manager
create_listener now claims m = record m {
  listeners = put m.listeners (bind_target claims).bind_addr (some m.fresh);
  store = update m.store m.fresh (new_listener now claims);
  fresh = suc m.fresh;
}

-- getOrCreateListener; `listens` tells whether the address can be bound. An address that has a
-- listener gets that one, whatever protocol it was made for.
unfoldable pub get_or_create : ℕ → Bool → JwtTunnelConfig → Manager → Option ℕ → Option ℕ × Manager
get_or_create now listens claims m (some p) = (some p, change m p (used_at now))
get_or_create now listens claims m none =
    if listens then (some m.fresh, create_listener now claims m) else (none, m)

unfoldable pub get_or_create_listener : ℕ → Bool → JwtTunnelConfig → Manager → Option ℕ × Manager
get_or_create_listener now listens claims m =
    get_or_create now listens claims m (m.listeners (bind_target claims).bind_addr)

-- The condition of reapIdleListenersOnce; `now - lastUsed < idleTimeout` without the subtraction.
unfoldable pub is_stale : Manager → ℕ → ℕ → Bool
is_stale m now p =
    not (is_positive (m.store p).active || ltb now ((m.store p).last_used + m.idle_timeout))

abbrev pub keep : (ℕ → Bool) → Option ℕ → Option ℕ
keep drop_it none = none
keep drop_it (some p) = if drop_it p then none else some p

-- The loop over the map, and closeTunnelListener on what it removed.
unfoldable pub reap_idle_listeners_once : ℕ → Manager → Manager
reap_idle_listeners_once now m = record m {
  listeners = λ a. keep (is_stale m now) (m.listeners a);
  quit = λ p. m.quit p || (is_current m p && is_stale m now p);
}

-- What runListener and runUdpListener do when the listener fails.
unfoldable pub listener_failed : ℕ → Manager → Manager
listener_failed p m = record m {
  listeners = if is_current m p then put m.listeners (m.store p).addr none else m.listeners;
  quit = update m.quit p true;
}

-- Close.
unfoldable pub close_manager : Manager → Manager
close_manager m = record m { listeners = λ a. none; quit = λ p. m.quit p || is_current m p }
