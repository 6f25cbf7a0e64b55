-- ===== src/RingBuffer/Tests.antt =====
-- Runs of the ring buffer, and its theorems at them.
use accel_observer.Prelude.{ℕ, ◌≡◌, refl, true, false, List, [], ◌∷◌, arith}
use accel_observer.RingBuffer.{RingBuffer, init, try_push, drain_nowait, drain, stop}
use accel_observer.RingBuffer.Inv.{IsValid}
use accel_observer.RingBuffer.Refine.{contents}
use accel_observer.RingBuffer.Run.{
  Op, push, drain_now, halt, pushed, drained, halted, run, run_queue, run_refines, drain_returns,
}

-- 8, then 9, round the end of the storage
abbrev wrapped : RingBuffer ℕ
wrapped = record {
  buffer = 9 ∷ 7 ∷ 8 ∷ [];
  capacity = 3;
  head = 2;
  tail = 1;
  count = 2;
  stopped = false;
}

abbrev script : List (Op ℕ)
script = push 1 ∷ push 2 ∷ drain_now ∷ halt ∷ push 3 ∷ drain_now ∷ []

wrapped-IsValid : IsValid wrapped
wrapped-IsValid = omega arith

run-wrapped :
    run 0 wrapped script
    ≡ pushed true
      ∷ pushed false
      ∷ drained (8 ∷ 9 ∷ 1 ∷ [])
      ∷ halted
      ∷ pushed true
      ∷ drained (3 ∷ [])
      ∷ []
unfolding run try_push drain_nowait stop
run-wrapped = refl

-- A buffer of capacity 0 refuses every item.
no_room : (try_push {T = ℕ} 5 (init 0 0)).0 ≡ false
unfolding try_push init
no_room = refl

run_refines_example : run 0 wrapped script ≡ run_queue 0 3 (8 ∷ 9 ∷ []) script
run_refines_example = run_refines 0 script wrapped wrapped-IsValid

abbrev emptied : RingBuffer ℕ
emptied = record wrapped { head = 1; count = 0 }

drain_returns_example :
    (◌≡◌ {A = List ℕ} (8 ∷ 9 ∷ []) (contents 0 wrapped))
    × (contents 0 emptied ≡ [])
    × IsValid emptied
unfolding drain drain_nowait
drain_returns_example = drain_returns 0 wrapped emptied (8 ∷ 9 ∷ []) wrapped-IsValid refl
