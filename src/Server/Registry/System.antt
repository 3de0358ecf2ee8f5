-- ===== src/Server/Registry/System.antt =====
-- pkg/server/manager.go: the manager with the connections that its listeners accept, as a step
-- relation; `running` counts, for each listener, the calls of handleIncoming that have not returned.
use warp_stream.Base.{ℕ, suc, ◌<◌, ◌≡◌, Bool, false, none}
use warp_stream.Protocol.{JwtTunnelConfig}
use warp_stream.Server.Queue.{update}
use warp_stream.Server.Registry.{
  TunnelListener, Manager, touch_listener, update_active_pipes, begin_incoming,
  get_or_create_listener, reap_idle_listeners_once, listener_failed, close_manager,
}

pub record System : Type 0 where
  pub manager : Manager
  pub running : ℕ → ℕ

-- A manager without listeners, as NewReverseTunnelManager makes it; what `store` holds at numbers that
-- are not in use does not matter.
abbrev pub start : ℕ → (ℕ → TunnelListener) → System
start idle_timeout store = record {
  manager = record {
    listeners = λ a. none;
    store = store;
    fresh = 0;
    quit = λ p. false;
    idle_timeout = idle_timeout;
  };
  running = λ p. 0;
}

pub data Step (s : System) : System → Type 0 where
  client :
      (now : ℕ) (listens : Bool) (claims : JwtTunnelConfig)
      → Step s (record s { manager = (get_or_create_listener now listens claims s.manager).1 })
  touch :
      (now p : ℕ)
      → p < s.manager.fresh
      → Step s (record s { manager = touch_listener now p s.manager })
  incoming :
      (now p : ℕ)
      → p < s.manager.fresh
      → Step s (record {
        manager = begin_incoming now p s.manager;
        running = update s.running p (suc (s.running p));
      })
  finished :
      (now p n : ℕ)
      → s.running p ≡ suc n
      → Step s
          (record { manager = update_active_pipes now p s.manager; running = update s.running p n })
  reap : (now : ℕ) → Step s (record s { manager = reap_idle_listeners_once now s.manager })
  failed : (p : ℕ) → Step s (record s { manager = listener_failed p s.manager })
  shutdown : Step s (record s { manager = close_manager s.manager })

pub data Reach (s : System) : System → Type 0 where
  here : Reach s s
  next : {t u : System} → Reach s t → Step t u → Reach s u
