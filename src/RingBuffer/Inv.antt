-- ===== src/RingBuffer/Inv.antt =====
-- The representation invariant: indices in range, no wrap, and every method keeps it.
use native.Mathlib.Nat.{mod-lt, mod-add-mod}
use accel_observer.Prelude.{
  ℕ, ◌+◌, ◌-◌, ◌%◌, ◌^◌, ◌≤◌, ◌<◌, ◌≡◌, ◌≢◌, ap, ◌∙◌, ◌⊎◌, arith, length, length-set,
  length-replicate,
}
use accel_observer.RingBuffer.{RingBuffer, add_size, init, try_push, advance, stop}

pub record IsValid {T : Type 0} (r : RingBuffer T) : Type 0 where
  pub storage : length r.buffer ≡ r.capacity
  pub small : r.capacity < 2 ^ 64
  pub head_in : (r.head < r.capacity) ⊎ (r.capacity + r.head ≡ 0)
  pub fits : r.count ≤ r.capacity
  pub tail_is : r.tail ≡ (r.head + r.count) % r.capacity

module _ {T : Type 0} where
  pub init-IsValid : (fill : T) (capacity : ℕ) → capacity < 2 ^ 64 → IsValid (init fill capacity)
  unfolding init
  init-IsValid fill capacity h = ground (arith, length-replicate capacity fill)

  -- The write and the reads stay inside the storage.
  pub reads_in_range :
      {r : RingBuffer T}
      → IsValid r
      → 0 < r.capacity
      → (r.head < length r.buffer) × (r.tail < length r.buffer)
  reads_in_range {r} v pos = omega (arith, mod-lt (r.head + r.count) pos)

  pub pushed_tail :
      {r : RingBuffer T}
      → IsValid r
      → r.count ≢ r.capacity
      → (add_size r.tail 1 % r.capacity ≡ (r.head + (r.count + 1)) % r.capacity)
        × (add_size r.count 1 ≡ r.count + 1)
  pushed_tail {r} v ne =
      let plain : add_size r.tail 1 ≡ r.tail + 1 =
        omega (arith, mod-lt (r.head + r.count) {m = r.capacity} (omega arith)) in
      let wide : (r.head + r.count) + 1 ≡ r.head + (r.count + 1) = omega arith in
      (
        ap (λ t. t % r.capacity) (plain ∙ ap (λ t. t + 1) v.tail_is)
            ∙ mod-add-mod (r.head + r.count) r.capacity 1
            ∙ ap (λ t. t % r.capacity) wide,
        omega arith,
      )

  pub advanced_head :
      {r : RingBuffer T}
      → IsValid r
      → 0 < r.count
      → (add_size r.head 1 ≡ r.head + 1) × ((r.head + 1) % r.capacity < r.capacity)
  advanced_head {r} v pos = omega arith

  pub advanced_tail :
      {r : RingBuffer T}
      → IsValid r
      → 0 < r.count
      → ((r.head + 1) % r.capacity + (r.count - 1)) % r.capacity ≡ (r.head + r.count) % r.capacity
  advanced_tail {r} v pos = rw mod-add-mod (ap (λ t. t % r.capacity) (omega arith))

  pub try_push-IsValid : (item : T) {r : RingBuffer T} → IsValid r → IsValid (try_push item r).1
  unfolding try_push
  try_push-IsValid item {r} v = ground (arith, length-set r.buffer r.tail item, pushed_tail v)

  pub advance-IsValid : {r : RingBuffer T} → IsValid r → 0 < r.count → IsValid (advance r)
  unfolding advance
  advance-IsValid {r} v pos = ground (arith, advanced_head v pos, advanced_tail v pos)

  pub stop-IsValid : {r : RingBuffer T} → IsValid r → IsValid (stop r)
  unfolding stop
  stop-IsValid v = ground arith
