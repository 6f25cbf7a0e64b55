-- ===== src/Storage/Flow.antt =====
-- What becomes of the packets that the storage takes: with a formatter that works, each accepted packet
-- reaches the file once and in order, and each one refused is counted as dropped.
pub mod Whole
use accel_observer.Prelude.{
  ℕ, zero, suc, ◌+◌, ◌≤◌, ◌<◌, ◌%◌, ◌^◌, ◌≡◌, refl, sym, ap, ap₂, ◌∙◌, ◌⊎◌, ◌==◌, if_true, if_false,
  subst, Bool, true, false, List, [], ◌∷◌, ◌++◌, append_assoc, append-nil, arith, if◌then◌else◌,
  Bool-cases, inl, inr, length, length-append, Bytes, u64,
}
use accel_observer.RingBuffer.{RingBuffer, try_push, drain_nowait}
use accel_observer.RingBuffer.Inv.{IsValid, try_push-IsValid}
use accel_observer.RingBuffer.Refine.{contents, length-gather, try_push_refines, drain_refines}
use accel_observer.RingBuffer.Queue
use accel_observer.Storage.{IFormatter, StorageManager, push, flush_now, write_drained}

abbrev pub if_taken : {T : Type 0} → T → Bool → List T
if_taken p done = if done then p ∷ [] else []

module _ {T F : Type 0} (formatter : IFormatter T F) (fill : T) where
  -- A formatter that works: `text` is what the file holds, and `rows` what packets add to it.
  pub record Sink (path : Bytes) (Good : F → Type 0) (text : F → Bytes) (rows : List T → Bytes)
      : Type 0 where
    pub rows_nil : rows [] ≡ []
    pub rows_append : (ps qs : List T) → rows (ps ++ qs) ≡ rows ps ++ rows qs
    pub writes :
        (ps : List T) (f : F)
        → Good f
        → (g : F) × (formatter.write_packets path ps f ≡ (true, g))
          × (text g ≡ text f ++ rows ps)
          × Good g

  module _ {path : Bytes} {Good : F → Type 0} {text : F → Bytes} {rows : List T → Bytes}
      (sink : Sink path Good text rows) where
    -- The storage is in order.
    pub record InOrder (m : StorageManager T F) : Type 0 where
      pub valid : IsValid m.buffer
      pub good : Good m.files
      pub path_is : m.output_filepath ≡ path

    -- From `m` to `m'`, `taken` has been accepted out of `n` packets that arrived.
    pub record Moves (m m' : StorageManager T F) (taken : List T) (n : ℕ) : Type 0 where
      pub still : InOrder m'
      pub runs_on : m'.running ≡ m.running
      pub text_is :
          text m'.files ++ rows (contents fill m'.buffer)
          ≡ text m.files ++ (rows (contents fill m.buffer) ++ rows taken)
      pub written_is :
          m'.written_packets + m'.buffer.count ≡ m.written_packets + m.buffer.count + length taken
      pub dropped_is : m'.dropped_packets + length taken ≡ m.dropped_packets + n

    pub nothing : (m : StorageManager T F) → InOrder m → Moves m m [] 0
    nothing m h = record {
      still = h;
      runs_on = refl;
      text_is = ap (◌++◌ (text m.files)) (
          sym (append-nil (rows (contents fill m.buffer)))
          ∙ ap (◌++◌ (rows (contents fill m.buffer))) (sym sink.rows_nil));
      written_is = omega arith;
      dropped_is = omega arith;
    }

    pub both :
        {m m1 m2 : StorageManager T F} {a b : List T} {n k : ℕ}
        → Moves m m1 a n
        → Moves m1 m2 b k
        → Moves m m2 (a ++ b) (n + k)
    both {m} {m1} {m2} {a} {b} p q =
        let old = rows (contents fill m.buffer) in
        record {
          still = q.still;
          runs_on = q.runs_on ∙ p.runs_on;
          text_is =
              q.text_is
              ∙ sym (append_assoc (text m1.files) (rows (contents fill m1.buffer)) (rows b))
              ∙ ap (λ t. t ++ rows b) p.text_is
              ∙ append_assoc (text m.files) (old ++ rows a) (rows b)
              ∙ ap (◌++◌ (text m.files))
                  (append_assoc old (rows a) (rows b) ∙ ap (◌++◌ old) (sym (sink.rows_append a b)));
          written_is = omega (arith, p.written_is, q.written_is, length-append a b);
          dropped_is = omega (arith, p.dropped_is, q.dropped_is, length-append a b);
        }

    -- what `write_drained` leaves
    record Written (ps : List T) (m m' : StorageManager T F) : Type 0 where
      good : Good m'.files
      text_is : text m'.files ≡ text m.files ++ rows ps
      written_is : m'.written_packets ≡ m.written_packets + length ps
      same_buffer : m'.buffer ≡ m.buffer
      same_path : m'.output_filepath ≡ m.output_filepath
      same_running : m'.running ≡ m.running
      same_dropped : m'.dropped_packets ≡ m.dropped_packets

    write_drained_lem :
        (ps : List T) (m : StorageManager T F)
        → Good m.files
        → m.output_filepath ≡ path
        → m.written_packets + length ps < 2 ^ 64
        → Written ps m (write_drained formatter fill ps m)
    unfolding write_drained
    write_drained_lem [] m good here room = record {
      good = good;
      text_is = sym (append-nil (text m.files)) ∙ ap (◌++◌ (text m.files)) (sym sink.rows_nil);
      written_is = omega arith;
      same_buffer = refl;
      same_path = refl;
      same_running = refl;
      same_dropped = refl;
    }
    write_drained_lem (p ∷ ps) m good here room =
        let (g, done, more, good') = sink.writes (p ∷ ps) m.files good in
        let ran : formatter.write_packets m.output_filepath (p ∷ ps) m.files ≡ (true, g) =
          ap (λ q. formatter.write_packets q (p ∷ ps) m.files) here ∙ done in
        record {
          good = subst (λ r. Good r.1) (sym ran) good';
          text_is = ap (λ r. text r.1) ran ∙ more;
          written_is =
              ap (λ r. if r.0 then u64 (m.written_packets + length (p ∷ ps)) else m.written_packets)
                ran
              ∙ omega arith;
          same_buffer = refl;
          same_path = refl;
          same_running = refl;
          same_dropped = refl;
        }

    -- A flush leaves nothing in the buffer.
    pub flush_empties :
        (m : StorageManager T F)
        → InOrder m
        → m.written_packets + m.buffer.count < 2 ^ 64
        → (contents fill (flush_now formatter fill m).buffer ≡ [])
          × ((flush_now formatter fill m).buffer.count ≡ 0)
    unfolding flush_now Queue.take_all
    flush_empties m h room =
        let (items, buffer) = drain_nowait fill m.buffer in
        let (same, valid, left, cap_same) = drain_refines fill m.buffer h.valid in
        let size_of =
          length-gather fill m.buffer.buffer m.buffer.capacity m.buffer.head 0 m.buffer.count in
        let many : length items ≡ m.buffer.count = ap (λ r. length r.0) same ∙ size_of in
        let kept =
          (write_drained_lem items (record m { buffer = buffer }) h.good h.path_is
            (omega arith)).same_buffer in
        (ap (contents fill) kept ∙ ap (λ r. r.1) same, ap (λ r. r.count) kept ∙ left)

    pub flush-Moves :
        (m : StorageManager T F)
        → InOrder m
        → m.written_packets + m.buffer.count < 2 ^ 64
        → Moves m (flush_now formatter fill m) [] 0
    unfolding flush_now Queue.take_all
    flush-Moves m h room =
        let (items, buffer) = drain_nowait fill m.buffer in
        let (same, valid, left, cap_same) = drain_refines fill m.buffer h.valid in
        let size_of =
          length-gather fill m.buffer.buffer m.buffer.capacity m.buffer.head 0 m.buffer.count in
        let all : items ≡ contents fill m.buffer = ap (λ r. r.0) same in
        let none_left : contents fill buffer ≡ [] = ap (λ r. r.1) same in
        let drained = record m { buffer = buffer } in
        let many : length items ≡ m.buffer.count = ap length all ∙ size_of in
        let w = write_drained_lem items drained h.good h.path_is (omega arith) in
        let kept = w.same_buffer in
        record {
          still = record {
            valid = subst IsValid (sym kept) valid;
            good = w.good;
            path_is = w.same_path ∙ h.path_is;
          };
          runs_on = w.same_running;
          text_is =
              ap₂ ◌++◌ (w.text_is ∙ ap (λ l. text m.files ++ rows l) all)
                (ap rows (ap (contents fill) kept ∙ none_left) ∙ sink.rows_nil)
              ∙ append_assoc (text m.files) (rows (contents fill m.buffer)) []
              ∙ ap (λ t. text m.files ++ (rows (contents fill m.buffer) ++ t)) (sym sink.rows_nil);
          written_is = omega (arith, w.written_is, many, ap (λ r. r.count) kept, left);
          dropped_is = omega (arith, w.same_dropped);
        }

    push_cases :
        (p : T) (r : RingBuffer T)
        → IsValid r
        → ((try_push p r).0 ≡ true × (contents fill (try_push p r).1 ≡ contents fill r ++ p ∷ []))
          ⊎ ((try_push p r).0 ≡ false × (contents fill (try_push p r).1 ≡ contents fill r))
    unfolding Queue.push
    push_cases p r v =
        let q = contents fill r in
        let same = try_push_refines fill p r v in
        elim (Bool-cases (length q == r.capacity)) [
          | inl e ↦
              let full = same ∙ if_true (false, q) (true, q ++ p ∷ []) e in
              inr (ap (λ x. x.0) full, ap (λ x. x.1) full)
          | inr e ↦
              let room = same ∙ if_false (false, q) (true, q ++ p ∷ []) e in
              inl (ap (λ x. x.0) room, ap (λ x. x.1) room)
        ]

    pub push-Moves :
        (p : T) (m : StorageManager T F)
        → InOrder m
        → m.dropped_packets + 1 < 2 ^ 64
        → Moves m (push p m).1 (if_taken p (push p m).0) 1
    unfolding push
    push-Moves p m h room =
        let (done, b) = try_push p m.buffer in
        let old = contents fill m.buffer in
        let still : InOrder (push p m).1 = record {
          valid = try_push-IsValid p h.valid;
          good = h.good;
          path_is = h.path_is;
        } in
        let count_old =
          length-gather fill m.buffer.buffer m.buffer.capacity m.buffer.head 0 m.buffer.count in
        let count_new = length-gather fill b.buffer b.capacity b.head 0 b.count in
        let count_dropped = λ (t : Bool).
          (if t then m.dropped_packets else u64 (m.dropped_packets + 1)) + length (if_taken p t) in
        elim (push_cases p m.buffer h.valid) [
          | inl (d, c) ↦ record {
            still = still;
            runs_on = refl;
            text_is = ap (◌++◌ (text m.files)) (
                ap rows c
                ∙ sink.rows_append old (p ∷ [])
                ∙ ap (λ t. rows old ++ rows (if_taken p t)) (sym d));
            written_is = omega (
              arith,
              count_old,
              count_new,
              ap length c,
              length-append old (p ∷ []),
              ap (λ t. length (if_taken p t)) d,
            );
            dropped_is = ap count_dropped d ∙ omega arith;
          }
          | inr (d, c) ↦ record {
            still = still;
            runs_on = refl;
            text_is = ap (◌++◌ (text m.files)) (
                ap rows c
                ∙ sym (append-nil (rows old))
                ∙ ap (◌++◌ (rows old)) (sym sink.rows_nil)
                ∙ ap (λ t. rows old ++ rows (if_taken p t)) (sym d));
            written_is =
                omega (arith, count_old, count_new, ap length c, ap (λ t. length (if_taken p t)) d);
            dropped_is = ap count_dropped d ∙ omega arith;
          }
        ]
