-- ===== src/Storage/Csv/Session.antt =====
-- The storage manager over the CSV formatter, from its construction to its stop.
use accel_observer.Prelude.{Bytes}
use accel_observer.RingBuffer
use accel_observer.Storage.Packet.{DataPacket}
use accel_observer.Storage.{IFormatter}
use accel_observer.Storage.Csv.{Disk, CsvFormatter, write_header, write_packets}

module _ {D F : Type 0} (disk : Disk D F) (separator : Bytes) (fill : DataPacket D) where
  -- `CsvFormatter` as an `IFormatter`
  abbrev pub csv : IFormatter (DataPacket D) (CsvFormatter F)
  csv = record {
    write_header = write_header disk separator;
    write_packets = write_packets disk separator;
  }
