-- ===== src/Stats/Loss.antt =====
-- The loss count of the statistics against the sequence numbers that the client skipped.
use accel_observer.Prelude.{
  ℕ, ◌+◌, ◌^◌, ◌<◌, ◌≡◌, ◌≢◌, sym, ap, ◌∙◌, subst, List, [], ◌∷◌, arith, length, u32, u64,
}
use accel_observer.Stats.{
  Doubles, StatsAnalyzer, uint32_max, count_lost, record_packet, record_rate, record_latency,
  record_jitter, record_loss,
}

-- One packet: the numbers that were skipped before it, and the two times.
pub record Arrival : Type 0 where
  pub skipped : ℕ
  pub server_time_ms : ℕ
  pub packet_ts_ms : ℕ

-- the number that comes after `last` when `skipped` numbers are left out
abbrev pub next_seq : ℕ → ℕ → ℕ
next_seq last skipped = u32 (last + 1 + skipped)

abbrev pub total_skipped : List Arrival → ℕ
total_skipped [] = 0
total_skipped (p ∷ ps) = p.skipped + total_skipped ps

-- Fewer than 10000 numbers are skipped at a time, and no packet but the last has the number
-- `UINT32_MAX`.
abbrev pub Countable : ℕ → List Arrival → Type 0
Countable last [] = Unit
Countable last (p ∷ ps) =
    (last ≢ uint32_max) × (p.skipped < 10000) × Countable (next_seq last p.skipped) ps

abbrev pub last_of : ℕ → List Arrival → ℕ
last_of last [] = last
last_of last (p ∷ ps) = last_of (next_seq last p.skipped) ps

-- From a number other than `UINT32_MAX`, the gap that is counted is what was skipped.
pub count_lost-skipped :
    (lost last skipped : ℕ)
    → last < 2 ^ 32
    → last ≢ uint32_max
    → skipped < 10000
    → lost + skipped < 2 ^ 64
    → count_lost lost last (next_seq last skipped) ≡ lost + skipped
unfolding count_lost
count_lost-skipped lost last skipped small ne few room = ground arith

-- The first packet adds no loss.
first_lost : (lost last seq : ℕ) → last ≡ uint32_max → count_lost lost last seq ≡ lost
unfolding count_lost
first_lost lost last seq fresh = ground arith

module _ {D : Type 0} (fp : Doubles D) where
  -- the packets, in the order of their arrival
  unfoldable pub receive : ℕ → List Arrival → StatsAnalyzer D → StatsAnalyzer D
  receive last [] a = a
  receive last (p ∷ ps) a =
      let seq = next_seq last p.skipped in
      receive seq ps (record_packet fp p.server_time_ms p.packet_ts_ms seq a)

  rate_counts :
      (t : ℕ) (a : StatsAnalyzer D)
      → let b = record_rate fp t a in
        (b.packets_received ≡ a.packets_received)
        × (b.packets_lost ≡ a.packets_lost)
        × (b.last_seq ≡ a.last_seq)
  unfolding record_rate
  rate_counts t a = ground arith

  pub packet_counts :
      (t ts seq : ℕ) (a : StatsAnalyzer D)
      → let b = record_packet fp t ts seq a in
        (b.packets_received ≡ u64 (a.packets_received + 1))
        × (b.packets_lost ≡ count_lost a.packets_lost a.last_seq seq)
        × (b.last_seq ≡ seq)
  unfolding record_packet record_latency record_jitter record_loss
  packet_counts t ts seq a =
      let lat = fp.sub (fp.of_u64 t) (fp.of_u64 ts) in
      rate_counts t (record_loss fp seq (record_latency fp lat (record_jitter fp lat a)))

  -- the same from an analyzer whose last number is not UINT32_MAX
  pub receive_later :
      (ps : List Arrival) (a : StatsAnalyzer D)
      → a.last_seq < 2 ^ 32
      → Countable a.last_seq ps
      → a.packets_received + length ps < 2 ^ 64
      → a.packets_lost + total_skipped ps < 2 ^ 64
      → let b = receive a.last_seq ps a in
        (b.packets_received ≡ a.packets_received + length ps)
        × (b.packets_lost ≡ a.packets_lost + total_skipped ps)
        × (b.last_seq ≡ last_of a.last_seq ps)
  unfolding receive
  receive_later [] a small countable room1 room2 = omega arith
  receive_later (p ∷ ps) a small (ne, few, rest) room1 room2 =
      let seq = next_seq a.last_seq p.skipped in
      let b = record_packet fp p.server_time_ms p.packet_ts_ms seq a in
      let (got, lost, last) = packet_counts p.server_time_ms p.packet_ts_ms seq a in
      let skipped =
        count_lost-skipped a.packets_lost a.last_seq p.skipped small ne few (omega arith) in
      let got_is : b.packets_received ≡ a.packets_received + 1 = omega arith in
      let lost_is : b.packets_lost ≡ a.packets_lost + p.skipped = lost ∙ skipped in
      let (ih1, ih2, ih3) =
        receive_later ps b (omega arith) (subst (λ l. Countable l ps) (sym last) rest) (omega arith)
          (omega arith) in
      let step : receive b.last_seq ps b ≡ receive seq ps b = ap (λ l. receive l ps b) last in
      (
        sym (ap (λ r. r.packets_received) step) ∙ ih1 ∙ omega arith,
        sym (ap (λ r. r.packets_lost) step) ∙ ih2 ∙ omega arith,
        sym (ap (λ r. r.last_seq) step) ∙ ih3 ∙ ap (λ l. last_of l ps) last,
      )

  -- Of an analyzer that has had no packet, the last number is UINT32_MAX. From such a state, over any
  -- stream of a first packet with any number and of later ones, of which fewer than 10000 numbers are
  -- skipped at a time and `UINT32_MAX` comes last if at all: the analyzer counts as received the
  -- packets of the stream, and as lost exactly the numbers that were skipped between them, none before
  -- the first, and round the end of the 32-bit numbers too. No count may pass 2^64.
  pub receive-counts :
      (seq server_time_ms packet_ts_ms : ℕ) (ps : List Arrival) (a : StatsAnalyzer D)
      → a.last_seq ≡ uint32_max
      → seq < 2 ^ 32
      → Countable seq ps
      → a.packets_received + 1 + length ps < 2 ^ 64
      → a.packets_lost + total_skipped ps < 2 ^ 64
      → let b = receive seq ps (record_packet fp server_time_ms packet_ts_ms seq a) in
        (b.packets_received ≡ a.packets_received + 1 + length ps)
        × (b.packets_lost ≡ a.packets_lost + total_skipped ps)
        × (b.last_seq ≡ last_of seq ps)
  receive-counts seq t ts ps a fresh small countable room1 room2 =
      let b = record_packet fp t ts seq a in
      let (got, lost, last) = packet_counts t ts seq a in
      let none_lost : b.packets_lost ≡ a.packets_lost =
        lost ∙ first_lost a.packets_lost a.last_seq seq fresh in
      let got_is : b.packets_received ≡ a.packets_received + 1 = omega arith in
      let (ih1, ih2, ih3) =
        receive_later ps b (omega arith) (subst (λ l. Countable l ps) (sym last) countable)
          (omega arith) (omega arith) in
      let step : receive b.last_seq ps b ≡ receive seq ps b = ap (λ l. receive l ps b) last in
      (
        sym (ap (λ r. r.packets_received) step) ∙ ih1 ∙ omega arith,
        sym (ap (λ r. r.packets_lost) step) ∙ ih2 ∙ omega arith,
        sym (ap (λ r. r.last_seq) step) ∙ ih3 ∙ ap (λ l. last_of l ps) last,
      )
