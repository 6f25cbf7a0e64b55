-- ===== src/Pipeline.antt =====
-- server/src/main.cpp: the callback that the transport calls with each payload, here without the
-- browser interface, which Dashboard adds. The log is left out.
pub mod Accepts
pub mod Dashboard
mod Tests
use accel_observer.Prelude.{ℕ, Bool, true, false, List, [], ◌∷◌, Bytes}
use accel_observer.Storage.Packet.{DataPacket}
use accel_observer.Storage.{StorageManager, push}
use accel_observer.Stats.{Doubles, StatsAnalyzer, record_packet}
use accel_observer.Validator.{
  Reals, ParseResult, ok, invalid_format, missing_fields, out_of_range, ParsedPacket,
  ValidatorConfig, parse,
}

-- What the callback captures by reference; `counter` is the validator's `android_seq_counter`.
pub record Server (D F : Type 0) : Type 0 where
  pub counter : ℕ
  pub stats : StatsAnalyzer D
  pub storage : StorageManager (DataPacket D) F

-- one call: the payload, the server's time `recv_ms`, and the configuration with the validator's clock
pub record Call (D : Type 0) : Type 0 where
  pub payload : Bytes
  pub recv_ms : ℕ
  pub cfg : ValidatorConfig D

module _ {D F : Type 0} (fp : Doubles D) (reals : Reals D) where
  -- what follows the validator
  unfoldable pub on_parsed : ℕ → ParseResult → DataPacket D → Server D F → Server D F
  on_parsed recv_ms ok pkt server = record server {
    stats = record_packet fp recv_ms pkt.timestamp_ms pkt.sequence_id server.stats;
    storage = (push pkt server.storage).1;
  }
  on_parsed recv_ms invalid_format pkt server = server
  on_parsed recv_ms missing_fields pkt server = server
  on_parsed recv_ms out_of_range pkt server = server

  unfoldable pub callback : Call D → Server D F → Server D F
  unfolding on_parsed
  callback call server =
      let (parsed, counter) = parse reals call.cfg call.payload server.counter in
      on_parsed call.recv_ms parsed.result parsed.packet (record server { counter = counter })

  unfoldable pub callbacks : List (Call D) → Server D F → Server D F
  callbacks [] server = server
  callbacks (call ∷ calls) server = callbacks calls (callback call server)
