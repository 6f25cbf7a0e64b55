-- ===== src/Storage/Flow/Whole.antt =====
-- The whole life of the storage, over any order of arrivals and flushes.
use accel_observer.Prelude.{
  ℕ, ◌+◌, ◌≤◌, ◌<◌, ◌^◌, ◌≡◌, sym, ap, ◌∙◌, Bool, true, false, List, [], ◌∷◌, ◌++◌, append-nil,
  arith, if_true, length, length-append, Bytes,
}
use accel_observer.RingBuffer.Refine.{contents}
use accel_observer.Storage.{IFormatter, StorageManager, push, flush_now, stop}
use accel_observer.Storage.Flow.{
  if_taken, Sink, InOrder, Moves, nothing, both, push-Moves, flush-Moves, flush_empties,
}

-- a packet that arrives, or a flush of the writer thread
pub data Op (T : Type 0) : Type 0 where
  arrive : T → Op T
  tick : Op T

abbrev pub arrivals : {T : Type 0} → List (Op T) → ℕ
arrivals [] = 0
arrivals (arrive p ∷ ops) = 1 + arrivals ops
arrivals (tick ∷ ops) = 0 + arrivals ops

module _ {T F : Type 0} (formatter : IFormatter T F) (fill : T) where
  unfoldable pub run : List (Op T) → StorageManager T F → StorageManager T F
  run [] m = m
  run (arrive p ∷ ops) m = run ops (push p m).1
  run (tick ∷ ops) m = run ops (flush_now formatter fill m)

  -- the packets for which `push` answered true, in order
  unfoldable pub accepted : List (Op T) → StorageManager T F → List T
  accepted [] m = []
  accepted (arrive p ∷ ops) m = if_taken p (push p m).0 ++ accepted ops (push p m).1
  accepted (tick ∷ ops) m = accepted ops (flush_now formatter fill m)

  few_taken : (p : T) (done : Bool) → length (if_taken p done) ≤ 1
  few_taken p true = omega arith
  few_taken p false = omega arith

  length-accepted :
      (ops : List (Op T)) (m : StorageManager T F) → length (accepted ops m) ≤ arrivals ops
  unfolding accepted
  length-accepted [] m = omega arith
  length-accepted (arrive p ∷ ops) m =
      let rest = accepted ops (push p m).1 in
      omega (
        arith,
        length-append (if_taken p (push p m).0) rest,
        few_taken p (push p m).0,
        length-accepted ops (push p m).1,
      )
  length-accepted (tick ∷ ops) m = omega (arith, length-accepted ops (flush_now formatter fill m))

  module _ {path : Bytes} {Good : F → Type 0} {text : F → Bytes} {rows : List T → Bytes}
      (sink : Sink formatter fill path Good text rows) where
    pub run-Moves :
        (ops : List (Op T)) (m : StorageManager T F)
        → InOrder formatter fill sink m
        → m.written_packets + m.buffer.count + arrivals ops < 2 ^ 64
        → m.dropped_packets + arrivals ops < 2 ^ 64
        → Moves formatter fill sink m (run ops m) (accepted ops m) (arrivals ops)
    unfolding run accepted
    run-Moves [] m h room1 room2 = nothing formatter fill sink m h
    run-Moves (arrive p ∷ ops) m h room1 room2 =
        let first = push-Moves formatter fill sink p m h (omega arith) in
        let few = few_taken p (push p m).0 in
        both formatter fill sink first (
          run-Moves ops (push p m).1 first.still (omega (arith, first.written_is, few))
            (omega (arith, first.dropped_is, few)))
    run-Moves (tick ∷ ops) m h room1 room2 =
        let first = flush-Moves formatter fill sink m h (omega arith) in
        both formatter fill sink first (
          run-Moves ops (flush_now formatter fill m) first.still (omega (arith, first.written_is))
            (omega (arith, first.dropped_is)))

    -- With a formatter that works: whatever the order of arrivals and flushes, and however full the
    -- buffer gets, once the running storage is stopped the file has gained the rows of what the buffer
    -- held and of every packet that `push` accepted, each once and in order; the buffer is empty, the
    -- count of written packets has grown by just as many, and every other packet that arrived is
    -- counted as dropped. The counts may not pass 2^64.
    pub stop-writes_all :
        (ops : List (Op T)) (m : StorageManager T F)
        → InOrder formatter fill sink m
        → m.running ≡ true
        → m.written_packets + m.buffer.count + arrivals ops < 2 ^ 64
        → m.dropped_packets + arrivals ops < 2 ^ 64
        → let m' = stop formatter fill (run ops m) in
          let taken = accepted ops m in
          (text m'.files ≡ text m.files ++ (rows (contents fill m.buffer) ++ rows taken))
          × (contents fill m'.buffer ≡ [])
          × (m'.written_packets ≡ m.written_packets + m.buffer.count + length taken)
          × (m'.dropped_packets + length taken ≡ m.dropped_packets + arrivals ops)
    unfolding stop
    stop-writes_all ops m h on room1 room2 =
        let ran = run-Moves ops m h room1 room2 in
        let mid = record (run ops m) { running = false } in
        let still : InOrder formatter fill sink mid = record {
          valid = ran.still.valid;
          good = ran.still.good;
          path_is = ran.still.path_is;
        } in
        let few = length-accepted ops m in
        let room : mid.written_packets + mid.buffer.count < 2 ^ 64 =
          omega (arith, ran.written_is) in
        let last = flush-Moves formatter fill sink mid still room in
        let (gone, zero_left) = flush_empties formatter fill sink mid still room in
        let final = flush_now formatter fill mid in
        let step : stop formatter fill (run ops m) ≡ final =
          if_true final (run ops m) (ran.runs_on ∙ on) in
        (
          ap (λ x. text x.files) step
              ∙ sym (append-nil (text final.files))
              ∙ ap (◌++◌ (text final.files)) (sym (ap rows gone ∙ sink.rows_nil))
              ∙ last.text_is
              ∙ ap (λ t. text mid.files ++ (rows (contents fill mid.buffer) ++ t)) sink.rows_nil
              ∙ ap (◌++◌ (text mid.files)) (append-nil (rows (contents fill mid.buffer)))
              ∙ ran.text_is,
          ap (λ x. contents fill x.buffer) step ∙ gone,
          ap (λ x. x.written_packets) step
              ∙ omega (arith, last.written_is, ran.written_is, zero_left),
          ap (λ x. x.dropped_packets + length (accepted ops m)) step
              ∙ omega (arith, last.dropped_is, ran.dropped_is),
        )
