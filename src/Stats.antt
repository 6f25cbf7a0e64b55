-- ===== src/Stats.antt =====
-- server/src/misc/stats_analyzer.cpp: latency, jitter, loss and rate of the packets received. Each
-- method runs under the analyzer's mutex, so it is one step on the state. The double-precision
-- operations are a parameter.
pub mod Loss
pub mod Json
pub mod Latency
mod Tests
use accel_observer.Prelude.{
  ℕ, zero, suc, ◌+◌, ◌-◌, ◌*◌, ◌/◌, ◌%◌, ◌^◌, Bool, true, false, List, [], ◌∷◌, ◌++◌, ltb, ◌==◌,
  if◌then◌else◌, length, drop, u32, u64,
}

-- The machine's `double`: conversions from integers, constants, operations and `<`.
pub record Doubles (D : Type 0) : Type 0 where
  pub of_u64 : ℕ → D
  pub zero_d : D
  pub huge : D
  pub nearly_huge : D
  pub hundred : D
  pub thousand : D
  pub add : D → D → D
  pub sub : D → D → D
  pub mul : D → D → D
  pub div : D → D → D
  pub abs : D → D
  pub less : D → D → Bool

abbrev pub uint32_max : ℕ
uint32_max = 4294967295

pub record StatsSnapshot (D : Type 0) : Type 0 where
  pub packets_received : ℕ
  pub packets_lost : ℕ
  pub avg_latency_ms : D
  pub min_latency_ms : D
  pub max_latency_ms : D
  pub avg_jitter_ms : D
  pub max_jitter_ms : D
  pub loss_rate_pct : D
  pub rx_rate_hz : D
  pub last_seq : ℕ

pub record StatsAnalyzer (D : Type 0) : Type 0 where
  pub history_size : ℕ
  pub report_interval_ms : ℕ
  pub latency_history : List D
  pub packets_received : ℕ
  pub packets_lost : ℕ
  pub last_seq : ℕ
  pub first_packet : Bool
  pub prev_latency_ms : D
  pub sum_jitter : D
  pub max_jitter : D
  pub sum_latency : D
  pub min_latency : D
  pub max_latency : D
  pub rate_window_start_ms : ℕ
  pub rate_window_count : ℕ
  pub current_rate_hz : D

-- `packets_lost_` after the packet `seq`, where `last_seq` came before
unfoldable pub count_lost : ℕ → ℕ → ℕ → ℕ
count_lost lost last_seq seq =
    if last_seq == uint32_max
    then lost
    else (let expected = u32 (last_seq + 1) in
        if seq == expected
        then lost
        else (let gap =
              if ltb expected seq
              then u32 (seq - expected)
              else u32 (uint32_max - expected + seq + 1) in
            if ltb gap 10000 then u64 (lost + gap) else lost))

module _ {D : Type 0} (fp : Doubles D) where
  -- the constructor and the members' initialisers
  unfoldable pub init : ℕ → ℕ → StatsAnalyzer D
  init history_size report_interval_ms = record {
    history_size = history_size;
    report_interval_ms = report_interval_ms;
    latency_history = [];
    packets_received = 0;
    packets_lost = 0;
    last_seq = uint32_max;
    first_packet = true;
    prev_latency_ms = fp.zero_d;
    sum_jitter = fp.zero_d;
    max_jitter = fp.zero_d;
    sum_latency = fp.zero_d;
    min_latency = fp.huge;
    max_latency = fp.zero_d;
    rate_window_start_ms = 0;
    rate_window_count = 0;
    current_rate_hz = fp.zero_d;
  }

  -- `latency_history_.push_back(lat)`, and `pop_front()` above the limit
  unfoldable pub push_history : ℕ → D → List D → List D
  push_history limit lat history =
      let pushed = history ++ lat ∷ [] in
      if ltb limit (length pushed) then drop 1 pushed else pushed

  -- the jitter part of `record`
  unfoldable pub record_jitter : D → StatsAnalyzer D → StatsAnalyzer D
  record_jitter lat a =
      let jitter = fp.abs (fp.sub lat a.prev_latency_ms) in
      let counted = record a {
        sum_jitter = if a.first_packet then a.sum_jitter else fp.add a.sum_jitter jitter;
        max_jitter =
            if a.first_packet
            then a.max_jitter
            else if fp.less a.max_jitter jitter
            then jitter
            else a.max_jitter;
      } in
      record counted { prev_latency_ms = lat; first_packet = false }

  -- the latency part of `record`
  unfoldable pub record_latency : D → StatsAnalyzer D → StatsAnalyzer D
  unfolding push_history
  record_latency lat a = record a {
    sum_latency = fp.add a.sum_latency lat;
    min_latency = if fp.less lat a.min_latency then lat else a.min_latency;
    max_latency = if fp.less a.max_latency lat then lat else a.max_latency;
    latency_history = push_history a.history_size lat a.latency_history;
  }

  -- the rate window of `record`
  unfoldable pub record_rate : ℕ → StatsAnalyzer D → StatsAnalyzer D
  record_rate server_time_ms a =
      let start = if a.rate_window_start_ms == 0 then server_time_ms else a.rate_window_start_ms in
      let count = u64 ((if a.rate_window_start_ms == 0 then 0 else a.rate_window_count) + 1) in
      let elapsed_ms = u64 (server_time_ms + 2 ^ 64 - start) in
      if ltb elapsed_ms a.report_interval_ms
      then record a { rate_window_start_ms = start; rate_window_count = count }
      else record a {
        current_rate_hz = fp.div (fp.of_u64 count) (fp.div (fp.of_u64 elapsed_ms) fp.thousand);
        rate_window_start_ms = server_time_ms;
        rate_window_count = 0;
      }

  -- the counts of `record`
  unfoldable pub record_loss : ℕ → StatsAnalyzer D → StatsAnalyzer D
  unfolding count_lost
  record_loss seq a = record a {
    packets_received = u64 (a.packets_received + 1);
    packets_lost = count_lost a.packets_lost a.last_seq seq;
    last_seq = seq;
  }

  -- `StatsAnalyzer::record`
  unfoldable pub record_packet : ℕ → ℕ → ℕ → StatsAnalyzer D → StatsAnalyzer D
  unfolding record_jitter record_latency record_loss record_rate
  record_packet server_time_ms packet_ts_ms seq a =
      let lat = fp.sub (fp.of_u64 server_time_ms) (fp.of_u64 packet_ts_ms) in
      record_rate server_time_ms (record_loss seq (record_latency lat (record_jitter lat a)))

  unfoldable pub snapshot : StatsAnalyzer D → StatsSnapshot D
  snapshot a =
      let total = u64 (a.packets_received + a.packets_lost) in
      record {
        packets_received = a.packets_received;
        packets_lost = a.packets_lost;
        avg_latency_ms =
            if ltb 0 a.packets_received
            then fp.div a.sum_latency (fp.of_u64 a.packets_received)
            else fp.zero_d;
        min_latency_ms = if fp.less a.min_latency fp.nearly_huge then a.min_latency else fp.zero_d;
        max_latency_ms = a.max_latency;
        avg_jitter_ms =
            if ltb 1 a.packets_received
            then fp.div a.sum_jitter (fp.of_u64 (a.packets_received - 1))
            else fp.zero_d;
        max_jitter_ms = a.max_jitter;
        loss_rate_pct =
            if ltb 0 total
            then fp.div (fp.mul fp.hundred (fp.of_u64 a.packets_lost)) (fp.of_u64 total)
            else fp.zero_d;
        rx_rate_hz = a.current_rate_hz;
        last_seq = a.last_seq;
      }

  unfoldable pub reset : StatsAnalyzer D → StatsAnalyzer D
  reset a = record a {
    packets_received = 0;
    packets_lost = 0;
    last_seq = uint32_max;
    first_packet = true;
    prev_latency_ms = fp.zero_d;
    sum_jitter = fp.zero_d;
    max_jitter = fp.zero_d;
    sum_latency = fp.zero_d;
    min_latency = fp.huge;
    max_latency = fp.zero_d;
    rate_window_start_ms = 0;
    rate_window_count = 0;
    current_rate_hz = fp.zero_d;
    latency_history = [];
  }
