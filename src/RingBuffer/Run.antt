-- ===== src/RingBuffer/Run.antt =====
-- Whole runs: any sequence of calls by the producer and the consumer.
use accel_observer.Prelude.{
  ℕ, ◌≡◌, ◌↔◌, refl, ap, ◌∙◌, sym, Bool, false, List, [], ◌∷◌, some, none, arith, length,
}
use accel_observer.RingBuffer.{RingBuffer, try_push, drain_nowait, drain, stop}
use accel_observer.RingBuffer.Inv.{IsValid, try_push-IsValid, stop-IsValid}
use accel_observer.RingBuffer.Refine.{
  contents, try_push_refines, drain_refines, length-gather, contents_zero,
}
use accel_observer.RingBuffer.Queue

pub data Op (T : Type 0) : Type 0 where
  push : T → Op T
  drain_now : Op T
  halt : Op T

-- what the caller of one operation sees
pub data Reply (T : Type 0) : Type 0 where
  pushed : Bool → Reply T
  drained : List T → Reply T
  halted : Reply T

module _ {T : Type 0} (fill : T) where
  unfoldable pub run : RingBuffer T → List (Op T) → List (Reply T)
  run r [] = []
  run r (push x ∷ ops) = let (done, r') = try_push x r in pushed done ∷ run r' ops
  run r (drain_now ∷ ops) = let (items, r') = drain_nowait fill r in drained items ∷ run r' ops
  run r (halt ∷ ops) = halted ∷ run (stop r) ops

  unfoldable pub run_queue : ℕ → List T → List (Op T) → List (Reply T)
  run_queue capacity q [] = []
  run_queue capacity q (push x ∷ ops) =
      let (done, q') = Queue.push capacity x q in pushed done ∷ run_queue capacity q' ops
  run_queue capacity q (drain_now ∷ ops) =
      let (items, q') = Queue.take_all q in drained items ∷ run_queue capacity q' ops
  run_queue capacity q (halt ∷ ops) = halted ∷ run_queue capacity q ops

  capacity-try_push : (x : T) (r : RingBuffer T) → (try_push x r).1.capacity ≡ r.capacity
  unfolding try_push
  capacity-try_push x r = ground arith

  stopped_queue :
      (r : RingBuffer T) (ops : List (Op T))
      → run_queue (stop r).capacity (contents fill (stop r)) ops
        ≡ run_queue r.capacity (contents fill r) ops
  unfolding stop
  stopped_queue r ops = refl

  -- No sequence of `try_push`, `drain_nowait` and `stop` tells a valid buffer from the bounded queue
  -- of its contents: all replies are the same.
  pub run_refines :
      (ops : List (Op T)) (r : RingBuffer T)
      → IsValid r
      → run r ops ≡ run_queue r.capacity (contents fill r) ops
  unfolding run run_queue
  run_refines [] r v = refl
  run_refines (push x ∷ ops) r v = rw (
    run_refines ops (try_push x r).1 (try_push-IsValid x v),
    ← try_push_refines fill x r v,
    capacity-try_push,
  )
  run_refines (drain_now ∷ ops) r v =
      let (same, valid, left, cap_same) = drain_refines fill r v in
      rw (run_refines ops (drain_nowait fill r).1 valid, ← same, cap_same)
  run_refines (halt ∷ ops) r v =
      ap (◌∷◌ halted) (run_refines ops (stop r) (stop-IsValid v) ∙ stopped_queue r ops)

  -- The blocking `drain` waits exactly while a valid buffer is empty and not stopped.
  pub drain_waits :
      (r : RingBuffer T)
      → IsValid r
      → (drain fill r ≡ none) ↔ ((contents fill r ≡ []) × (r.stopped ≡ false))
  unfolding drain
  drain_waits r v =
      let size_of = length-gather fill r.buffer r.capacity r.head 0 r.count in
      let none_left = contents_zero fill r in
      (
        λ e. ground (arith, none_left),
        λ (e, s). let zero_left : r.count ≡ 0 = sym size_of ∙ ap length e in ground arith,
      )

  -- When `drain` of a valid buffer returns, it has handed out all that the buffer held, in order,
  -- and leaves a valid buffer with nothing in it.
  pub drain_returns :
      (r r' : RingBuffer T) (items : List T)
      → IsValid r
      → drain fill r ≡ some (items, r')
      → (items ≡ contents fill r) × (contents fill r' ≡ []) × IsValid r'
  unfolding drain Queue.take_all
  drain_returns r r' items v e =
      let same : drain_nowait fill r ≡ (items, r') = ground arith in
      let (refines, valid, left, cap_same) = drain_refines fill r v in
      (
        sym (ap (λ p. p.0) same) ∙ ap (λ p. p.0) refines,
        ap (λ p. contents fill p.1) (sym same) ∙ ap (λ p. p.1) refines,
        rw same at valid,
      )
