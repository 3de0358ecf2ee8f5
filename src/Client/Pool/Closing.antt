-- ===== src/Client/Pool/Closing.antt =====
-- pkg/client/pool.go: Close comes to its end.
use warp_stream.Base.{◌≡◌, refl, ◌∙◌, sym, true, List, [], ◌∷◌, ℕ}
use warp_stream.Client.Pool.{
  Maintainer, looking, dialing, stopped, holding, Closer, not_called, waiting, draining, returned,
  Pool, new_connection_pool, dial_failed, found_cancelled, stops, waited, drains, returns, Step,
  maintain, close, Reach, here, next_step,
}
use warp_stream.Client.Pool.Places.{Progress}
use warp_stream.Client.Pool.Ownership.{Reach-PoolInv}

Reach-trans : {p q r : Pool} → Reach p q → Reach q r → Reach p r
Reach-trans r here = r
Reach-trans r (next_step s st) = next_step (Reach-trans r s) st

-- A state that is reached and in which Close has returned, with an empty pool.
abbrev pub Returns : Pool → Type 0
Returns p = (q : Pool) × Reach p q × (q.closer ≡ returned) × (q.conns ≡ [])

after : {p q : Pool} → Step p q → Returns q → Returns p
after st (r, steps, over, bare) = (r, Reach-trans (next_step here st) steps, over, bare)

drain : (cs : List ℕ) (p : Pool) → p.conns ≡ cs → p.closer ≡ draining → Returns p
drain [] p e k = (_, next_step here (close (returns k e)), refl, e)
drain (c ∷ cs) p e k =
    after (close (drains c cs k e)) (drain cs (record p { conns = cs; shut = c ∷ p.shut }) refl k)

from_stopped : (p : Pool) → p.maintainer ≡ stopped → p.closer ≡ waiting → Returns p
from_stopped p m k =
    after (close (waited k m)) (drain p.conns (record p { closer = draining }) refl refl)

from_looking :
    (p : Pool) → p.maintainer ≡ looking → p.cancelled ≡ true → p.closer ≡ waiting → Returns p
from_looking p m c k =
    after (maintain (stops m c)) (from_stopped (record p { maintainer = stopped }) refl k)

wait :
    (m : Maintainer) (p : Pool)
    → p.maintainer ≡ m
    → p.cancelled ≡ true
    → p.closer ≡ waiting
    → Returns p
wait stopped p e c k = from_stopped p e k
wait looking p e c k = from_looking p e c k
wait dialing p e c k =
    after (maintain (dial_failed e)) (from_looking (record p { maintainer = looking }) refl c k)
wait (holding i) p e c k =
    after (maintain (found_cancelled i e c))
      (from_stopped (record p { maintainer = stopped; shut = i ∷ p.shut }) refl k)

finish : (k : Closer) (p : Pool) → p.closer ≡ k → Progress k p → p.cancelled ≡ true → Returns p
finish not_called p e h c = cc
finish waiting p e h c = wait p.maintainer p refl c e
finish draining p e h c = drain p.conns p refl e
finish returned p e h c = (p, here, e, h.2)

-- From every state in which Close has been called, whatever the goroutine that fills the pool was about
-- to do and whoever else uses the pool, Close can go on until it has returned with the pool empty.
pub close_returns :
    (min_idle : ℕ) {p : Pool}
    → Reach (new_connection_pool min_idle) p
    → p.closed ≡ true
    → (q : Pool) × Reach p q × (q.closer ≡ returned) × (q.conns ≡ [])
close_returns min_idle {p} r c =
    let v = Reach-PoolInv min_idle r in finish p.closer p refl v.progress (sym v.same ∙ c)
