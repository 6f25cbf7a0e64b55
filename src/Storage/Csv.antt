-- ===== src/Storage/Csv.antt =====
-- server/src/format/csv/csv_formatter.cpp: the CSV file. Streams on the disk and the texts of numbers
-- are parameters.
pub mod File
pub mod Session
use accel_observer.Prelude.{
  ℕ, zero, suc, Bool, true, false, ◌&&◌, ◌||◌, List, [], ◌∷◌, ◌++◌, ◌==◌, if◌then◌else◌, Bytes,
  codes, Option, none, some,
}
use accel_observer.Prelude.Text.{same_text}
use accel_observer.Storage.Packet.{DataPacket}

-- The streams: `first_line` is what `std::getline` reads of a file, if it opens and has a line; the
-- others open the file, or write to it, and say whether the stream is good. `D` is `double`.
pub record Disk (D F : Type 0) : Type 0 where
  pub first_line : Bytes → F → Option Bytes
  pub open_trunc : Bytes → F → Bool × F
  pub open_append : Bytes → F → Bool × F
  pub put : Bytes → Bytes → F → Bool × F
  pub show_integer : ℕ → Bytes
  pub show_fixed : D → Bytes

pub record CsvFormatter (F : Type 0) : Type 0 where
  pub initialized : List Bytes
  pub disk : F

abbrev pub contains : List Bytes → Bytes → Bool
contains [] path = false
contains (p ∷ ps) path = same_text p path || contains ps path

abbrev pub is_line : Bytes → Option Bytes → Bool
is_line header none = false
is_line header (some line) = same_text line header

abbrev pub newline : Bytes
newline = b'\n' ∷ []

-- `make_header`
unfoldable pub make_header : Bytes → Bytes
make_header s =
    codes "timestamp"
    ++ (s
        ++ (codes "sequence_id"
            ++ (s ++ (codes "acc_x" ++ (s ++ (codes "acc_y" ++ (s ++ codes "acc_z")))))))

-- the next step on the disk, if the one before it was good
abbrev pub if_good : {F : Type 0} → Bool × F → (F → Bool × F) → Bool × F
if_good (false, f) next = (false, f)
if_good (true, f) next = next f

module _ {D F : Type 0} (disk : Disk D F) (separator : Bytes) where
  -- the header in a new file
  abbrev pub create_file : Bytes → F → Bool × F
  create_file filepath f =
      if_good (disk.open_trunc filepath f) (disk.put filepath (make_header separator ++ newline))

  abbrev pub remember : Bytes → CsvFormatter F → Bool × F → Bool × CsvFormatter F
  remember filepath st (false, f) = (false, record st { disk = f })
  remember filepath st (true, f) =
      (true, record { initialized = filepath ∷ st.initialized; disk = f })

  unfoldable pub write_header : Bytes → CsvFormatter F → Bool × CsvFormatter F
  unfolding make_header
  write_header filepath st = remember filepath st (
      if is_line (make_header separator) (disk.first_line filepath st.disk)
      then (true, st.disk)
      else create_file filepath st.disk)

  -- one line of the file
  unfoldable pub row : DataPacket D → Bytes
  row pkt =
      disk.show_integer pkt.timestamp_ms
      ++ (separator
          ++ (disk.show_integer pkt.sequence_id
              ++ (separator
                  ++ (disk.show_fixed pkt.acc_x
                      ++ (separator
                          ++ (disk.show_fixed pkt.acc_y
                              ++ (separator ++ (disk.show_fixed pkt.acc_z ++ newline))))))))

  -- the loop over the packets
  unfoldable pub put_rows : Bytes → List (DataPacket D) → F → Bool × F
  unfolding row
  put_rows filepath [] f = (true, f)
  put_rows filepath (pkt ∷ packets) f =
      if_good (disk.put filepath (row pkt) f) (put_rows filepath packets)

  abbrev pub on_disk : CsvFormatter F → Bool × F → Bool × CsvFormatter F
  on_disk st (done, f) = (done, record st { disk = f })

  -- the rows, once the file has its header
  abbrev pub append_rows :
      Bytes → List (DataPacket D) → Bool × CsvFormatter F → Bool × CsvFormatter F
  append_rows filepath packets (false, st) = (false, st)
  append_rows filepath packets (true, st) =
      on_disk st (if_good (disk.open_append filepath st.disk) (put_rows filepath packets))

  unfoldable pub write_packets :
      Bytes → List (DataPacket D) → CsvFormatter F → Bool × CsvFormatter F
  unfolding write_header put_rows
  write_packets filepath [] st = (true, st)
  write_packets filepath (pkt ∷ packets) st =
      append_rows filepath (pkt ∷ packets)
        (if contains st.initialized filepath then (true, st) else write_header filepath st)
