-- ===== src/Stats/Tests.antt =====
-- The statistics at a short stream, over whole numbers in the place of doubles.
use accel_observer.Prelude.{
  ℕ, ◌+◌, ◌-◌, ◌*◌, ◌/◌, ◌≡◌, refl, List, [], ◌∷◌, ◌++◌, arith, ltb, ltb→lt, lt→ltb, le→ltb_false,
}
use accel_observer.Stats.{Doubles, StatsAnalyzer, init, record_packet, reset}
use accel_observer.Stats.Loss.{Arrival, receive, receive-counts}
use accel_observer.Stats.Latency.{
  Strict, Tracks, latency, init-Tracks, record_packet-Tracks, reset-init,
}

abbrev whole : Doubles ℕ
whole = record {
  of_u64 = λ n. n;
  zero_d = 0;
  huge = 1000000;
  nearly_huge = 999999;
  hundred = 100;
  thousand = 1000;
  add = λ a b. a + b;
  sub = λ a b. a - b;
  mul = λ a b. a * b;
  div = λ a b. a / b;
  abs = λ a. a;
  less = ltb;
}

whole-Strict : Strict whole
whole-Strict = record {
  irrefl = λ x. le→ltb_false x x (omega arith);
  trans = λ x y z p q. let p' = ltb→lt x y p in let q' = ltb→lt y z q in lt→ltb x z (omega arith);
}

-- the number before the last one of 32 bits has been received
abbrev before : StatsAnalyzer ℕ
before = record (init whole 2 1000) { last_seq = 4294967293; packets_received = 5 }

abbrev arrivals : List Arrival
arrivals =
    record { skipped = 0; server_time_ms = 1000; packet_ts_ms = 990 }
    ∷ record { skipped = 3; server_time_ms = 1010; packet_ts_ms = 1003 }
    ∷ record { skipped = 7; server_time_ms = 1020; packet_ts_ms = 1001 }
    ∷ []

receive-counts_example :
    let b =
      receive whole 4294967293 arrivals
        (record_packet whole 900 890 4294967293 (init whole 2 1000)) in
    (b.packets_received ≡ 4) × (b.packets_lost ≡ 10) × (b.last_seq ≡ 10)
unfolding init
receive-counts_example =
    receive-counts whole 4294967293 900 890 arrivals (init whole 2 1000) refl (omega arith)
      (
        (λ e. omega arith),
        omega arith,
        ((λ e. omega arith), omega arith, ((λ e. omega arith), omega arith, tt)),
      )
      (omega arith) (omega arith)

reset-init_example : reset whole before ≡ init whole 2 1000
unfolding init
reset-init_example = reset-init whole before

record_packet-Tracks_example :
    Tracks whole
      ([] ++ latency whole 1000 990 ∷ [])
      (record_packet whole 1000 990 1 (init whole 2 1000))
record_packet-Tracks_example =
    record_packet-Tracks whole whole-Strict 1000 990 1 [] (init whole 2 1000)
      (init-Tracks whole 2 1000)
