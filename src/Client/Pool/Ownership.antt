-- ===== src/Client/Pool/Ownership.antt =====
-- pkg/client/pool.go: every connection has one owner.
use warp_stream.Base.{
  ℕ, ◌≡◌, refl, ap, subst, [], ◌∷◌, length, length-append, ltb, if◌then◌else◌, arith, Bool-cases,
  inl, inr,
}
use warp_stream.Client.Pool.{
  draining, Pool, new_connection_pool, Maintain, starts_dial, dial_failed, dialed, added,
  found_full, found_cancelled, stops, Get, enters, takes, dials, gives_up, gives, refuses, Close,
  begins, waited, drains, returns, Step, maintain, get, close, Reach, here, next_step,
}
use warp_stream.Client.Pool.Places.{
  count, count-append, count-held, places, Progress, Progress_kept, PoolInv,
}

new-PoolInv : (min_idle : ℕ) → PoolInv min_idle (new_connection_pool min_idle)
unfolding new_connection_pool count
new-PoolInv min_idle = record {
  capacity = refl;
  bounded = omega arith;
  owned = λ i. start i;
  same = refl;
  progress = refl;
}
  where
    start : (i : ℕ) → places i (new_connection_pool min_idle) ≡ (if ltb i 0 then 1 else 0)
    start i = elim (Bool-cases (ltb 0 min_idle)) [
      | inl e ↦ rw e (ground arith)
      | inr e ↦ rw e (ground arith)
    ]

module _ {min_idle : ℕ} {p : Pool} (v : PoolInv min_idle p) where
  Maintain-PoolInv : {q : Pool} → Maintain p q → PoolInv min_idle q
  unfolding count
  Maintain-PoolInv (starts_dial e room live) = record {
    capacity = v.capacity;
    bounded = v.bounded;
    owned = λ i. omega (arith, v.owned i, count-held i e);
    same = v.same;
    progress = Progress_kept p.closer p _ refl (λ s. cc) (λ s h. h) v.progress;
  }
  Maintain-PoolInv (dial_failed e) = record {
    capacity = v.capacity;
    bounded = v.bounded;
    owned = λ i. omega (arith, v.owned i, count-held i e);
    same = v.same;
    progress = Progress_kept p.closer p _ refl (λ s. cc) (λ s h. h) v.progress;
  }
  Maintain-PoolInv (dialed e) = record {
    capacity = v.capacity;
    bounded = v.bounded;
    owned = λ i. ground (arith, v.owned i, count-held i e);
    same = v.same;
    progress = Progress_kept p.closer p _ refl (λ s. cc) (λ s h. h) v.progress;
  }
  Maintain-PoolInv (added c e room) = record {
    capacity = v.capacity;
    bounded = omega (arith, v.capacity, length-append p.conns (c ∷ []));
    owned = λ i. omega (arith, v.owned i, count-held i e, count-append i p.conns (c ∷ []));
    same = v.same;
    progress = Progress_kept p.closer p _ refl (λ s. cc) (λ s h. cc) v.progress;
  }
  Maintain-PoolInv (found_full c e full live) = record {
    capacity = v.capacity;
    bounded = v.bounded;
    owned = λ i. omega (arith, v.owned i, count-held i e);
    same = v.same;
    progress = Progress_kept p.closer p _ refl (λ s. cc) (λ s h. h) v.progress;
  }
  Maintain-PoolInv (found_cancelled c e stop) = record {
    capacity = v.capacity;
    bounded = v.bounded;
    owned = λ i. omega (arith, v.owned i, count-held i e);
    same = v.same;
    progress = Progress_kept p.closer p _ refl (λ s. refl) (λ s h. h) v.progress;
  }
  Maintain-PoolInv (stops e stop) = record {
    capacity = v.capacity;
    bounded = v.bounded;
    owned = λ i. omega (arith, v.owned i, count-held i e);
    same = v.same;
    progress = Progress_kept p.closer p _ refl (λ s. refl) (λ s h. h) v.progress;
  }

  Get-PoolInv : {q : Pool} → Get p q → PoolInv min_idle q
  unfolding count
  Get-PoolInv (enters live) = record {
    capacity = v.capacity;
    bounded = v.bounded;
    owned = v.owned;
    same = v.same;
    progress = Progress_kept p.closer p _ refl (λ s. s) (λ s h. h) v.progress;
  }
  Get-PoolInv (takes n c cs one e) = record {
    capacity = v.capacity;
    bounded = omega (arith, v.bounded, ap length e);
    owned = λ i. omega (arith, v.owned i, ap (count i) e);
    same = v.same;
    progress = Progress_kept p.closer p _ refl (λ s. s) (λ s h. cc) v.progress;
  }
  Get-PoolInv (dials n one) = record {
    capacity = v.capacity;
    bounded = v.bounded;
    owned = λ i. ground (arith, v.owned i);
    same = v.same;
    progress = Progress_kept p.closer p _ refl (λ s. s) (λ s h. h) v.progress;
  }
  Get-PoolInv (gives_up n one) = record {
    capacity = v.capacity;
    bounded = v.bounded;
    owned = v.owned;
    same = v.same;
    progress = Progress_kept p.closer p _ refl (λ s. s) (λ s h. h) v.progress;
  }
  Get-PoolInv (gives before after c e live) = record {
    capacity = v.capacity;
    bounded = v.bounded;
    owned = λ i. omega (
      arith,
      v.owned i,
      ap (count i) e,
      count-append i before (c ∷ after),
      count-append i before after,
    );
    same = v.same;
    progress = Progress_kept p.closer p _ refl (λ s. s) (λ s h. h) v.progress;
  }
  Get-PoolInv (refuses before after c e stop) = record {
    capacity = v.capacity;
    bounded = v.bounded;
    owned = λ i. omega (
      arith,
      v.owned i,
      ap (count i) e,
      count-append i before (c ∷ after),
      count-append i before after,
    );
    same = v.same;
    progress = Progress_kept p.closer p _ refl (λ s. s) (λ s h. h) v.progress;
  }

  Close-PoolInv : {q : Pool} → Close p q → PoolInv min_idle q
  unfolding count
  Close-PoolInv (begins e) = record {
    capacity = v.capacity;
    bounded = v.bounded;
    owned = v.owned;
    same = refl;
    progress = refl;
  }
  Close-PoolInv (waited e over) = record {
    capacity = v.capacity;
    bounded = v.bounded;
    owned = v.owned;
    same = v.same;
    progress = (subst (λ k. Progress k p) e v.progress, over);
  }
  Close-PoolInv (drains c cs e left) = record {
    capacity = v.capacity;
    bounded = omega (arith, v.bounded, ap length left);
    owned = λ i. omega (arith, v.owned i, ap (count i) left);
    same = v.same;
    progress = Progress_kept p.closer p _ refl (λ s. s) (λ s h. cc) v.progress;
  }
  Close-PoolInv (returns e none_left) =
      let h : Progress draining p = subst (λ k. Progress k p) e v.progress in
      record {
        capacity = v.capacity;
        bounded = v.bounded;
        owned = v.owned;
        same = v.same;
        progress = (h.0, h.1, none_left);
      }

  step-PoolInv : {q : Pool} → Step p q → PoolInv min_idle q
  step-PoolInv (maintain m) = Maintain-PoolInv m
  step-PoolInv (get g) = Get-PoolInv g
  step-PoolInv (close c) = Close-PoolInv c

-- In every interleaving of the goroutine that fills the pool, calls of Get and Close: at most the
-- configured number of connections is idle; every connection that was dialled is in just one place, the
-- pool, a goroutine's hands, a caller's, or closed, so that none is lost, given out twice, or closed and
-- given out; and once Close has returned the pool is empty and stays so, and nobody fills it.
pub Reach-PoolInv :
    (min_idle : ℕ) {p : Pool} → Reach (new_connection_pool min_idle) p → PoolInv min_idle p
Reach-PoolInv min_idle here = new-PoolInv min_idle
Reach-PoolInv min_idle (next_step r st) = step-PoolInv (Reach-PoolInv min_idle r) st
