-- ===== src/RingBuffer/Queue.antt =====
-- What the buffer promises: a first-in first-out queue of at most `capacity` items.
use accel_observer.Prelude.{ℕ, Bool, true, false, List, [], ◌∷◌, ◌++◌, ◌==◌, if◌then◌else◌, length}

module _ {T : Type 0} where
  unfoldable pub push : ℕ → T → List T → Bool × List T
  push capacity item q = if length q == capacity then (false, q) else (true, q ++ item ∷ [])

  -- all the items, oldest first, and the queue that is left
  unfoldable pub take_all : List T → List T × List T
  take_all q = (q, [])
