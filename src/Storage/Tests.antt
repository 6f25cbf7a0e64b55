-- ===== src/Storage/Tests.antt =====
-- The storage over a disk that holds one file.
use accel_observer.Prelude.{
  ℕ, ◌+◌, ◌%◌, ◌≡◌, refl, Bool, true, false, List, [], ◌∷◌, ◌++◌, Bytes, codes, none,
}
use accel_observer.Storage.{StorageManager, create, start, stop}
use accel_observer.Storage.Packet.{DataPacket}
use accel_observer.Storage.Paths.{
  call_each, ensure_directory_exists, ensure_directory_exists-call_each, choose_path,
  extract_directory,
}
use accel_observer.Storage.Flow.Whole.{Op, arrive, tick, run}
use accel_observer.Storage.Csv.{Disk, CsvFormatter}
use accel_observer.Storage.Csv.Session.{csv}

-- the directories asked for, in order
abbrev note_dir : Bytes → List Bytes → Bool × List Bytes
note_dir dir dirs = (true, dirs ++ dir ∷ [])

dirs_of :
    ensure_directory_exists note_dir (codes "./out/x") []
    ≡ (true, codes "./out" ∷ codes "./out/x" ∷ [])
unfolding ensure_directory_exists
dirs_of = refl

paths_of :
    (choose_path (codes "data.csv") (codes "out/") ≡ codes "out/data.csv")
    × (extract_directory (codes "out/x/data.csv") ≡ codes "out/x")
    × (extract_directory (codes "data.csv") ≡ [])
unfolding choose_path extract_directory
paths_of = (refl, refl, refl)

ensure_directory_exists-call_each_example :
    ensure_directory_exists note_dir (codes "./a/b") []
    ≡ call_each note_dir (codes "./a" ∷ codes "./a/b" ∷ []) []
ensure_directory_exists-call_each_example =
    ensure_directory_exists-call_each note_dir (codes "./a/b") []

-- a disk whose only file is the state
abbrev one_file : Disk ℕ Bytes
one_file = record {
  first_line = λ path f. none;
  open_trunc = λ path f. (true, []);
  open_append = λ path f. (true, f);
  put = λ path text f. (true, f ++ text);
  show_integer = λ n. (b'0' + n % 10) ∷ [];
  show_fixed = λ n. (b'0' + n % 10) ∷ [];
}

abbrev sample : ℕ → DataPacket ℕ
sample n = record { timestamp_ms = n; sequence_id = n; acc_x = 1; acc_y = 2; acc_z = 3 }

abbrev no_formatter : CsvFormatter Bytes
no_formatter = record { initialized = []; disk = codes "old" }

abbrev no_mkdir : Bytes → CsvFormatter Bytes → Bool × CsvFormatter Bytes
no_mkdir dir f = (false, f)

-- two places in the buffer: the third packet is refused
abbrev busy : List (Op (DataPacket ℕ))
busy = arrive (sample 1) ∷ arrive (sample 2) ∷ arrive (sample 3) ∷ tick ∷ arrive (sample 4) ∷ []

abbrev made : StorageManager (DataPacket ℕ) (CsvFormatter Bytes)
made = create (sample 0) no_formatter (codes "x") (codes "a/b.csv") 2

abbrev begun : StorageManager (DataPacket ℕ) (CsvFormatter Bytes)
begun = start (csv one_file (codes ";") (sample 0)) (sample 0) no_mkdir made

abbrev ended : StorageManager (DataPacket ℕ) (CsvFormatter Bytes)
ended =
    stop (csv one_file (codes ";") (sample 0)) (sample 0)
      (run (csv one_file (codes ";") (sample 0)) (sample 0) busy begun)
