-- ===== src/Storage/Csv/File.antt =====
-- What the CSV file holds: the header once, then a row for each packet, in order.
use accel_observer.Prelude.{
  ◌≡◌, refl, sym, ap, ◌∙◌, true, ◌||◌, List, [], ◌∷◌, ◌++◌, append_assoc, append-nil, if◌then◌else◌,
  if_true, if_false, Bytes, Bool-cases, inl, inr,
}
use accel_observer.Prelude.Text.{same_text_refl}
use accel_observer.Storage.Packet.{DataPacket}
use accel_observer.Storage.Csv.{
  Disk, CsvFormatter, contains, is_line, newline, make_header, if_good, create_file, remember,
  write_header, row, put_rows, on_disk, append_rows, write_packets,
}

module _ {D F : Type 0} (disk : Disk D F) (separator path : Bytes) where
  -- The disk works: what is opened and written is good. `content` is the text of the file at `path`.
  pub record Works (content : F → Bytes) : Type 0 where
    pub truncates : (f : F) → (g : F) × (disk.open_trunc path f ≡ (true, g)) × (content g ≡ [])
    pub opens : (f : F) → (g : F) × (disk.open_append path f ≡ (true, g)) × (content g ≡ content f)
    pub puts :
        (text : Bytes) (f : F)
        → (g : F) × (disk.put path text f ≡ (true, g)) × (content g ≡ content f ++ text)

  unfoldable pub rows : List (DataPacket D) → Bytes
  rows [] = []
  rows (p ∷ ps) = row disk separator p ++ rows ps

  pub rows-append : (ps qs : List (DataPacket D)) → rows (ps ++ qs) ≡ rows ps ++ rows qs
  unfolding rows
  rows-append [] qs = refl
  rows-append (p ∷ ps) qs =
      ap (◌++◌ (row disk separator p)) (rows-append ps qs)
      ∙ sym (append_assoc (row disk separator p) (rows ps) (rows qs))

  -- The text that the rows follow: a file whose first line is the header keeps its text, and any
  -- other is replaced by the header.
  unfoldable pub text_before : (F → Bytes) → F → Bytes
  text_before content f =
      if is_line (make_header separator) (disk.first_line path f)
      then content f
      else make_header separator ++ newline

  -- The formatter knows that the file has its header.
  abbrev pub Ready : CsvFormatter F → Type 0
  Ready st = contains st.initialized path ≡ true

  ready_now : (paths : List Bytes) → contains (path ∷ paths) path ≡ true
  ready_now paths = ap (λ t. t || contains paths path) (same_text_refl path)

  put_rows_lem :
      (content : F → Bytes)
      → Works content
      → (ps : List (DataPacket D)) (f : F)
      → (g : F) × (put_rows disk separator path ps f ≡ (true, g))
        × (content g ≡ content f ++ rows ps)
  unfolding put_rows rows
  put_rows_lem content w [] f = (f, refl, sym (append-nil (content f)))
  put_rows_lem content w (p ∷ ps) f =
      let (g, done, text) = w.puts (row disk separator p) f in
      let (h, all, more) = put_rows_lem content w ps g in
      (
        h,
        ap (λ r. if_good r (put_rows disk separator path ps)) done ∙ all,
        more
            ∙ ap (λ t. t ++ rows ps) text
            ∙ append_assoc (content f) (row disk separator p) (rows ps),
      )

  -- On a disk that works, `write_header` succeeds and leaves the file with the header first: kept as
  -- it is when its first line is the header, else the header alone.
  pub write_header_lem :
      (content : F → Bytes)
      → Works content
      → (st : CsvFormatter F)
      → (st' : CsvFormatter F) × (write_header disk separator path st ≡ (true, st'))
        × (content st'.disk ≡ text_before content st.disk)
        × Ready st'
  unfolding write_header text_before
  write_header_lem content w st =
      let header = make_header separator in
      let known = is_line header (disk.first_line path st.disk) in
      let (f1, opened, empty_text) = w.truncates st.disk in
      let (f2, done, text) = w.puts (header ++ newline) f1 in
      let created : create_file disk separator path st.disk ≡ (true, f2) =
        ap (λ r. if_good r (disk.put path (header ++ newline))) opened ∙ done in
      elim (Bool-cases known) [
        | inl e ↦ (
          record { initialized = path ∷ st.initialized; disk = st.disk },
          ap (remember disk separator path st)
              (if_true (true, st.disk) (create_file disk separator path st.disk) e),
          sym (if_true (content st.disk) (header ++ newline) e),
          ready_now st.initialized,
        )
        | inr e ↦ (
          record { initialized = path ∷ st.initialized; disk = f2 },
          ap (remember disk separator path st)
              (if_false (true, st.disk) (create_file disk separator path st.disk) e ∙ created),
          text
              ∙ ap (λ t. t ++ (header ++ newline)) empty_text
              ∙ sym (if_false (content st.disk) (header ++ newline) e),
          ready_now st.initialized,
        )
      ]

  -- On a disk that works, `write_packets` to a file known to have its header succeeds, and appends one
  -- row for each packet, in order.
  pub write_packets_lem :
      (content : F → Bytes)
      → Works content
      → (ps : List (DataPacket D)) (st : CsvFormatter F) → Ready st
      → (st' : CsvFormatter F) × (write_packets disk separator path ps st ≡ (true, st'))
        × (content st'.disk ≡ content st.disk ++ rows ps)
        × Ready st'
  unfolding write_packets rows
  write_packets_lem content w [] st ready = (st, refl, sym (append-nil (content st.disk)), ready)
  write_packets_lem content w (p ∷ ps) st ready =
      let (f1, opened, same) = w.opens st.disk in
      let (f2, done, text) = put_rows_lem content w (p ∷ ps) f1 in
      (
        record st { disk = f2 },
        ap (append_rows disk separator path (p ∷ ps))
              (if_true (true, st) (write_header disk separator path st) ready)
            ∙ ap
                (λ r. on_disk disk separator st (if_good r (put_rows disk separator path (p ∷ ps))))
                opened
            ∙ ap (on_disk disk separator st) done,
        text ∙ ap (λ t. t ++ rows (p ∷ ps)) same,
        ready,
      )
