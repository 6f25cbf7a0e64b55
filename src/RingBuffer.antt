-- ===== src/RingBuffer.antt =====
-- server/include/ringbuffer/ringbuffer.hpp: the bounded buffer between the transport thread and the
-- storage writer. Each method runs under the buffer's mutex, so it is one step on the state; the
-- element type is a parameter, with the value that `vector<T>(capacity)` fills the storage with.
pub mod Queue
pub mod Inv
pub mod Refine
pub mod Run
mod Tests
use accel_observer.Prelude.{
  ℕ, zero, suc, ◌+◌, ◌-◌, ◌%◌, ◌^◌, Bool, true, false, ◌||◌, List, [], ◌∷◌, ◌++◌, Option, none,
  some, ltb, ◌==◌, if◌then◌else◌, get_or, set, replicate,
}

pub record RingBuffer (T : Type 0) : Type 0 where
  pub buffer : List T
  pub capacity : ℕ
  pub head : ℕ
  pub tail : ℕ
  pub count : ℕ
  pub stopped : Bool

-- `size_t` addition
abbrev pub add_size : ℕ → ℕ → ℕ
add_size a b = (a + b) % 2 ^ 64

module _ {T : Type 0} where
  -- the constructor; the first argument is `T()`
  unfoldable pub init : T → ℕ → RingBuffer T
  init fill capacity = record {
    buffer = replicate capacity fill;
    capacity = capacity;
    head = 0;
    tail = 0;
    count = 0;
    stopped = false;
  }

  unfoldable pub try_push : T → RingBuffer T → Bool × RingBuffer T
  try_push item r = if r.count == r.capacity then (false, r) else (
    true,
    record r {
      buffer = set r.buffer r.tail item;
      tail = add_size r.tail 1 % r.capacity;
      count = add_size r.count 1;
    },
  )

  -- `head_ = (head_ + 1) % capacity_; --count_;`, which runs only at a positive count
  pub advance : RingBuffer T → RingBuffer T
  advance r = record r { head = add_size r.head 1 % r.capacity; count = r.count - 1 }

  -- The loop of both drains. `fuel` bounds its rounds, and the third argument is `result`; `fill`
  -- is read only out of range, which `Inv.reads_in_range` excludes.
  pub drain_loop : T → ℕ → RingBuffer T → List T → List T × RingBuffer T
  drain_loop fill zero r result = (result, r)
  drain_loop fill (suc fuel) r result =
      let rest = drain_loop fill fuel (advance r) (result ++ get_or r.buffer r.head fill ∷ []) in
      if ltb 0 r.count then rest else (result, r)

  -- A round lowers the count by one, so `count` rounds empty the buffer.
  unfoldable pub drain_nowait : T → RingBuffer T → List T × RingBuffer T
  unfolding drain_loop advance
  drain_nowait fill r = drain_loop fill r.count r []

  -- `none` while the condition variable waits
  unfoldable pub drain : T → RingBuffer T → Option (List T × RingBuffer T)
  drain fill r = if ltb 0 r.count || r.stopped then some (drain_nowait fill r) else none

  unfoldable pub stop : RingBuffer T → RingBuffer T
  stop r = record r { stopped = true }

  unfoldable pub size : RingBuffer T → ℕ
  size r = r.count

  unfoldable pub empty : RingBuffer T → Bool
  empty r = r.count == 0
