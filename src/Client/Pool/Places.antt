-- ===== src/Client/Pool/Places.antt =====
-- pkg/client/pool.go: where the connections are, and how far Close has come.
use warp_stream.Base.{
  ℕ, ◌+◌, ◌≤◌, ◌≡◌, ◌∙◌, ap, true, false, List, [], ◌∷◌, ◌++◌, length, ltb, ◌==◌, if◌then◌else◌,
  arith,
}
use warp_stream.Client.Pool.{
  Maintainer, looking, dialing, stopped, holding, Closer, not_called, waiting, draining, returned,
  Pool,
}

-- How often a connection stands in a list.
unfoldable pub count : ℕ → List ℕ → ℕ
count i [] = 0
count i (c ∷ cs) = (if i == c then 1 else 0) + count i cs

pub count-append : (i : ℕ) (cs ds : List ℕ) → count i (cs ++ ds) ≡ count i cs + count i ds
unfolding count
count-append i [] ds = omega arith
count-append i (c ∷ cs) ds = omega (arith, count-append i cs ds)

abbrev pub held : Maintainer → List ℕ
held (holding c) = c ∷ []
held looking = []
held dialing = []
held stopped = []

pub count-held : (i : ℕ) {m n : Maintainer} → m ≡ n → count i (held m) ≡ count i (held n)
count-held i e = ap (λ k. count i (held k)) e

-- In how many places a connection is.
abbrev pub places : ℕ → Pool → ℕ
places i p =
    count i p.conns
    + count i (held p.maintainer)
    + count i p.in_get
    + count i p.given
    + count i p.shut

-- Close has called cancel, and behind its wait `maintain` is over; when it has returned, the channel
-- is empty.
abbrev pub Progress : Closer → Pool → Type 0
Progress not_called p = p.cancelled ≡ false
Progress waiting p = p.cancelled ≡ true
Progress draining p = (p.cancelled ≡ true) × (p.maintainer ≡ stopped)
Progress returned p = (p.cancelled ≡ true) × (p.maintainer ≡ stopped) × (p.conns ≡ [])

pub record PoolInv (min_idle : ℕ) (p : Pool) : Type 0 where
  pub capacity : p.min_idle ≡ min_idle
  pub bounded : length p.conns ≤ min_idle
  pub owned : (i : ℕ) → places i p ≡ (if ltb i p.next then 1 else 0)
  pub same : p.closed ≡ p.cancelled
  pub progress : Progress p.closer p

-- The progress of Close is kept by a step that does not wake `maintain`, does not cancel and leaves an
-- empty channel empty once `maintain` is over.
pub Progress_kept :
    (k : Closer) (p q : Pool)
    → q.cancelled ≡ p.cancelled
    → (p.maintainer ≡ stopped → q.maintainer ≡ stopped)
    → (p.maintainer ≡ stopped → p.conns ≡ [] → q.conns ≡ [])
    → Progress k p
    → Progress k q
Progress_kept not_called p q c m e h = c ∙ h
Progress_kept waiting p q c m e h = c ∙ h
Progress_kept draining p q c m e h = (c ∙ h.0, m h.1)
Progress_kept returned p q c m e h = (c ∙ h.0, m h.1, e h.1 h.2)
