-- ===== src/Storage.antt =====
-- server/src/storage/storage_manager.cpp: packets go into a ring buffer, and a writer thread hands
-- what the buffer holds to a formatter. The formatter is an interface, as IFormatter is in the source;
-- `Csv` implements it. `mkdir` and the clock are parameters, and log lines are left out.
pub mod Packet
pub mod Paths
pub mod Csv
pub mod Flow
mod Tests
use accel_observer.Prelude.{
  ℕ, ◌+◌, ◌%◌, ◌^◌, Bool, true, false, not, ◌&&◌, List, [], ◌∷◌, ◌++◌, if◌then◌else◌, length, Bytes,
  u64,
}
use accel_observer.RingBuffer
use accel_observer.RingBuffer.{RingBuffer, try_push, drain_nowait}
use accel_observer.Storage.Paths.{choose_path, extract_directory, ensure_directory_exists, is_empty}

-- server/include/format/iformatter.hpp; `F` is the state of the formatter with that of the disk
pub record IFormatter (T F : Type 0) : Type 0 where
  pub write_header : Bytes → F → Bool × F
  pub write_packets : Bytes → List T → F → Bool × F

pub record StorageManager (T F : Type 0) : Type 0 where
  pub files : F
  pub output_filepath : Bytes
  pub buffer : RingBuffer T
  pub running : Bool
  pub dropped_packets : ℕ
  pub written_packets : ℕ

module _ {T F : Type 0} where
  -- The constructor. `fill` is the packet that the buffer starts with, and `generated` the file name
  -- that the clock gives.
  unfoldable pub create : T → F → Bytes → Bytes → ℕ → StorageManager T F
  create fill files generated output_filepath buffer_capacity = record {
    files = files;
    output_filepath = choose_path generated output_filepath;
    buffer = RingBuffer.init fill buffer_capacity;
    running = false;
    dropped_packets = 0;
    written_packets = 0;
  }

  unfoldable pub push : T → StorageManager T F → Bool × StorageManager T F
  push packet m =
      let (done, buffer) = try_push packet m.buffer in
      (
        done,
        record m {
          buffer = buffer;
          dropped_packets = if done then m.dropped_packets else u64 (m.dropped_packets + 1);
        },
      )

  -- `start`, before the header: the state that creating the directory leaves
  unfoldable pub make_output_dir : (Bytes → F → Bool × F) → StorageManager T F → F
  unfolding ensure_directory_exists extract_directory
  make_output_dir mkdir m =
      let dir = extract_directory m.output_filepath in
      if is_empty dir then m.files else (ensure_directory_exists mkdir dir m.files).1

  module _ (formatter : IFormatter T F) (fill : T) where
    -- what `flush_now` does with the packets that it has drained
    unfoldable pub write_drained : List T → StorageManager T F → StorageManager T F
    write_drained [] m = m
    write_drained (p ∷ ps) m =
        let (done, files) = formatter.write_packets m.output_filepath (p ∷ ps) m.files in
        record m {
          files = files;
          written_packets =
              if done then u64 (m.written_packets + length (p ∷ ps)) else m.written_packets;
        }

    unfoldable pub flush_now : StorageManager T F → StorageManager T F
    unfolding write_drained
    flush_now m =
        let (packets, buffer) = drain_nowait fill m.buffer in
        write_drained packets (record m { buffer = buffer })

    -- `start`, up to the creation of the writer thread; the results of both steps are only logged
    unfoldable pub start : (Bytes → F → Bool × F) → StorageManager T F → StorageManager T F
    unfolding make_output_dir
    start mkdir m = record m {
      running = true;
      files = (formatter.write_header m.output_filepath (make_output_dir mkdir m)).1;
    }

    -- The writer thread's own last flush comes before, as a step of its own: it does not read
    -- `running_`.
    unfoldable pub stop : StorageManager T F → StorageManager T F
    unfolding flush_now
    stop m = if m.running then flush_now (record m { running = false }) else m
