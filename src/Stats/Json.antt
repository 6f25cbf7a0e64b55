-- ===== src/Stats/Json.antt =====
-- server/src/misc/stats_analyzer.cpp: the text of a snapshot for the browsers.
use accel_observer.Prelude.{ℕ, List, [], ◌∷◌, ◌++◌, take, Bytes, codes}
use accel_observer.Prelude.Text.{show_decimal}
use accel_observer.Stats.{StatsSnapshot}

-- the pieces of a text, in order
abbrev pub joined : List Bytes → Bytes
joined [] = []
joined (part ∷ parts) = part ++ joined parts

-- `snprintf` into `char buf[512]`; `show_fixed n` prints a double as `%.nf` does
unfoldable pub to_json : {D : Type 0} → (ℕ → D → Bytes) → StatsSnapshot D → Bytes
to_json show_fixed s = take 511 (
    joined (
      codes "{\"type\":\"stats\""
      ∷ codes ",\"rx\":"
      ∷ show_decimal s.packets_received
      ∷ codes ",\"lost\":"
      ∷ show_decimal s.packets_lost
      ∷ codes ",\"loss_pct\":"
      ∷ show_fixed 3 s.loss_rate_pct
      ∷ codes ",\"lat_min\":"
      ∷ show_fixed 3 s.min_latency_ms
      ∷ codes ",\"lat_avg\":"
      ∷ show_fixed 3 s.avg_latency_ms
      ∷ codes ",\"lat_max\":"
      ∷ show_fixed 3 s.max_latency_ms
      ∷ codes ",\"jitter_avg\":"
      ∷ show_fixed 3 s.avg_jitter_ms
      ∷ codes ",\"jitter_max\":"
      ∷ show_fixed 3 s.max_jitter_ms
      ∷ codes ",\"rate_hz\":"
      ∷ show_fixed 2 s.rx_rate_hz
      ∷ codes ",\"last_seq\":"
      ∷ show_decimal s.last_seq
      ∷ codes "}"
      ∷ []))
