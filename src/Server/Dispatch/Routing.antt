-- ===== src/Server/Dispatch/Routing.antt =====
-- pkg/server/server.go and pkg/tunnel/pipe.go: what the handlers do with their target and their tunnel,
-- in which order.
use warp_stream.Base.{not, ◌≡◌, Bool, true, false, List, if◌then◌else◌}
use warp_stream.Server.Dispatch.{Event}
use warp_stream.Server.Dispatch.Holding.{Held, start, Leaves, is_open, opened}

-- The calls of dialTargetAndMaybeProxyHeader: an open target, or none that is open.
abbrev Dialed : List Event × Bool → Type 0
Dialed (es, true) = Leaves es start (λ h. h ≡ record start { target = opened })
Dialed (es, false) =
    Leaves es start
      (λ h. (is_open h.target ≡ false) × (h.tunnel_closed ≡ false) × (h.handed ≡ false))

-- How a handler ends: its target is not open, and the tunnel is closed or not.
abbrev pub EndsWith : Bool → Held → Type 0
EndsWith tunnel_closed h =
    (is_open h.target ≡ false) × (h.tunnel_closed ≡ tunnel_closed) × (h.handed ≡ false)

-- What a handler leaves behind: no open target, and a tunnel that is closed or, if `keeps`, was handed
-- to the manager.
abbrev pub IsTidy : Bool → Held → Type 0
IsTidy keeps h =
    (is_open h.target ≡ false) × (h.tunnel_closed ≡ (if keeps then not h.handed else true))
