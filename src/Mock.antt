-- ===== src/Mock.antt =====
-- `MockQueue` of the module `fuzzing` of src/lib.rs: the queue that the fuzz targets compare with.
use lfqueue.Base.{ℕ, leb, if◌then◌else◌, Option, none, some, List, [], ◌∷◌, ◌++◌, length}

-- The mock behind its lock; `queue` has its front first.
pub record MockQueue {ℓ} (A : Type ℓ) : Type ℓ where
  pub queue : List A
  pub size : ℕ

module _ {ℓ} {A : Type ℓ} where
  -- A call returns the reply and the mock after it.
  unfoldable pub enqueue : MockQueue A → A → Option A × MockQueue A
  enqueue m value =
      if leb m.size (length m.queue)
      then (some value, m)
      else (none, record m { queue = m.queue ++ (value ∷ []) })

  unfoldable pub enqueue_boundless : MockQueue A → A → MockQueue A
  enqueue_boundless m value = record m { queue = m.queue ++ (value ∷ []) }

  -- `pop_front`
  unfoldable pub dequeue : MockQueue A → Option A × MockQueue A
  dequeue m = elim m.queue [ [] ↦ (none, m) | x ∷ q ↦ (some x, record m { queue = q }) ]
