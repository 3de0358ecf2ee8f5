-- ===== src/Server/Dispatch/Holding.antt =====
-- pkg/server/server.go and pkg/tunnel/pipe.go: checks on the calls of a handler, one after the other.
use warp_stream.Base.{
  ◌≡◌, refl, Bool, true, false, ◌||◌, Option, none, some, List, [], ◌∷◌, ◌++◌, any_of, All,
  All-append, arith, if◌then◌else◌,
}
use warp_stream.Server.Dispatch.{
  Event, set_ping_handler, dial_failed, dialed, wrap_idle_timeout, header_written, header_failed,
  copied_to_tunnel, copied_to_target, sent_close, closed_target, closed_tunnel, handed_to_manager,
  interleave,
}

pub data Target : Type 0 where
  unopened opened closed : Target

-- What a handler holds: its target, is the tunnel closed, was it handed to the manager?
pub record Held : Type 0 where
  pub target : Target
  pub tunnel_closed : Bool
  pub handed : Bool

abbrev pub start : Held
start = record { target = unopened; tunnel_closed = false; handed = false }

-- A target is used and closed only if there is one; a connection may be closed again. Each event is
-- checked against what is held before it; none is a mistake.
abbrev pub used_target : Target → Target → Held → Option Held
used_target unopened after h = none
used_target opened after h = some (record h { target = after })
used_target closed after h = some (record h { target = closed })

-- Not on a closed target.
abbrev pub fresh_target : Target → Held → Option Held
fresh_target opened h = some h
fresh_target unopened h = none
fresh_target closed h = none

abbrev pub dial_once : Target → Held → Option Held
dial_once unopened h = some (record h { target = opened })
dial_once opened h = none
dial_once closed h = none

abbrev pub check : Event → Held → Option Held
check set_ping_handler h = some h
check (dial_failed network address) h = some h
check (dialed network address) h = dial_once h.target h
check (wrap_idle_timeout timeout) h = fresh_target h.target h
check header_written h = fresh_target h.target h
check header_failed h = fresh_target h.target h
check copied_to_tunnel h = used_target h.target h.target h
check copied_to_target h = used_target h.target h.target h
check sent_close h = some h
check closed_target h = used_target h.target closed h
check closed_tunnel h = some (record h { tunnel_closed = true })
check handed_to_manager h = if h.tunnel_closed then none else some (record h { handed = true })

-- The events pass the checks one after the other, and `P` holds of what is held at the end.
abbrev pub Passes : Option Held → (Held → Type 0) → Type 0
Passes none P = ⊥
Passes (some h) P = P h

abbrev pub Leaves : List Event → Held → (Held → Type 0) → Type 0
Leaves [] h P = P h
Leaves (e ∷ es) h P = Passes (check e h) (λ g. Leaves es g P)

abbrev pub is_open : Target → Bool
is_open opened = true
is_open unopened = false
is_open closed = false

abbrev pub is_dialed : Target → Bool
is_dialed unopened = false
is_dialed opened = true
is_dialed closed = true

abbrev pub closes_tunnel : Event → Bool
closes_tunnel closed_tunnel = true
closes_tunnel e = false

-- What the goroutines of a pipe do.
abbrev pub IsPipe : Event → Type 0
IsPipe copied_to_tunnel = Unit {0}
IsPipe copied_to_target = Unit {0}
IsPipe sent_close = Unit {0}
IsPipe closed_target = Unit {0}
IsPipe closed_tunnel = Unit {0}
IsPipe e = ⊥

pub Passes-map :
    (o : Option Held) (P Q : Held → Type 0) → Passes o P → ((g : Held) → P g → Q g) → Passes o Q
Passes-map none P Q p f = absurd p
Passes-map (some g) P Q p f = f g p

pub Leaves-map :
    (es : List Event) (h : Held) (P Q : Held → Type 0)
    → Leaves es h P
    → ((g : Held) → P g → Q g)
    → Leaves es h Q
Leaves-map [] h P Q l f = f h l
Leaves-map (e ∷ es) h P Q l f =
    Passes-map (check e h) (λ g. Leaves es g P) (λ g. Leaves es g Q) l
      (λ g k. Leaves-map es g P Q k f)

pub Leaves-append :
    (xs ys : List Event) (h : Held) (P Q : Held → Type 0)
    → Leaves xs h P
    → ((g : Held) → P g → Leaves ys g Q)
    → Leaves (xs ++ ys) h Q
Leaves-append [] ys h P Q l f = f h l
Leaves-append (x ∷ xs) ys h P Q l f =
    Passes-map (check x h) (λ g. Leaves xs g P) (λ g. Leaves (xs ++ ys) g Q) l
      (λ g k. Leaves-append xs ys g P Q k f)

pub All-interleave :
    (turns : List Bool) (xs ys : List Event)
    → All IsPipe xs
    → All IsPipe ys
    → All IsPipe (interleave turns xs ys)
unfolding interleave
All-interleave [] xs ys h k = All-append IsPipe xs ys h k
All-interleave (true ∷ turns) [] ys h k = k
All-interleave (true ∷ turns) (x ∷ xs) ys h k = (h.0, All-interleave turns xs ys h.1 k)
All-interleave (false ∷ turns) xs [] h k = h
All-interleave (false ∷ turns) xs (y ∷ ys) h k = (k.0, All-interleave turns xs ys h k.1)

pub any_of-append :
    (p : Event → Bool) (xs ys : List Event) → any_of p (xs ++ ys) ≡ (any_of p xs || any_of p ys)
any_of-append p [] ys = refl
any_of-append p (x ∷ xs) ys = ground (arith, any_of-append p xs ys)

pub any_of-interleave :
    (p : Event → Bool) (turns : List Bool) (xs ys : List Event)
    → any_of p (interleave turns xs ys) ≡ (any_of p xs || any_of p ys)
unfolding interleave
any_of-interleave p [] xs ys = any_of-append p xs ys
any_of-interleave p (true ∷ turns) [] ys = refl
any_of-interleave p (true ∷ turns) (x ∷ xs) ys = ground (arith, any_of-interleave p turns xs ys)
any_of-interleave p (false ∷ turns) xs [] = ground arith
any_of-interleave p (false ∷ turns) xs (y ∷ ys) = ground (arith, any_of-interleave p turns xs ys)

-- A pipe on a target that was dialled.
abbrev pub Piped : Bool → Held → Type 0
Piped tunnel_closed h =
    (is_dialed h.target ≡ true) × (h.tunnel_closed ≡ tunnel_closed) × (h.handed ≡ false)

pub or_true : (c : Bool) → (c || true) ≡ true
or_true c = ground arith

pub pipe_lem :
    (es : List Event) (t : Target) (c : Bool)
    → All IsPipe es
    → is_dialed t ≡ true
    → Leaves es
        (record { target = t; tunnel_closed = c; handed = false })
        (Piped (c || any_of closes_tunnel es))
pipe_lem [] t c h d = (d, ground arith, refl)
pipe_lem (e ∷ es) unopened c h d = cc d
pipe_lem (copied_to_tunnel ∷ es) opened c h d = pipe_lem es opened c h.1 refl
pipe_lem (copied_to_tunnel ∷ es) closed c h d = pipe_lem es closed c h.1 refl
pipe_lem (copied_to_target ∷ es) opened c h d = pipe_lem es opened c h.1 refl
pipe_lem (copied_to_target ∷ es) closed c h d = pipe_lem es closed c h.1 refl
pipe_lem (sent_close ∷ es) opened c h d = pipe_lem es opened c h.1 refl
pipe_lem (sent_close ∷ es) closed c h d = pipe_lem es closed c h.1 refl
pipe_lem (closed_target ∷ es) opened c h d = pipe_lem es closed c h.1 refl
pipe_lem (closed_target ∷ es) closed c h d = pipe_lem es closed c h.1 refl
pipe_lem (closed_tunnel ∷ es) opened c h d = rw (or_true c) (pipe_lem es opened true h.1 refl)
pipe_lem (closed_tunnel ∷ es) closed c h d = rw (or_true c) (pipe_lem es closed true h.1 refl)
pipe_lem (set_ping_handler ∷ es) t c h d = absurd h.0
pipe_lem (dial_failed n a ∷ es) t c h d = absurd h.0
pipe_lem (dialed n a ∷ es) t c h d = absurd h.0
pipe_lem (wrap_idle_timeout n ∷ es) t c h d = absurd h.0
pipe_lem (header_written ∷ es) t c h d = absurd h.0
pipe_lem (header_failed ∷ es) t c h d = absurd h.0
pipe_lem (handed_to_manager ∷ es) t c h d = absurd h.0
