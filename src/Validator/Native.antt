-- ===== src/Validator/Native.antt =====
-- The client's JSON text is read back by the server's validator.
use accel_observer.Prelude.{
  ℕ, ◌<◌, ◌≤◌, ◌^◌, ◌≡◌, ◌⊎◌, refl, sym, ap, ◌∙◌, true, false, ◌&&◌, ◌||◌, ◌∷◌, ◌++◌, none, some,
  arith, ltb, ◌==◌, if◌then◌else◌, if_true, if_false, Bool-cases, inl, inr, length, Bytes, codes,
}
use accel_observer.Prelude.Text.{
  find_rest, find_rest-skip, Lacks, show_decimal, show_decimal-Lacks, show_decimal-IsNumeral,
  strtoull, strtoull-show_decimal, Ends,
}
use accel_observer.Storage.Packet.{DataPacket}
use accel_observer.Sensor.{native_text, sensor_to_json}
use accel_observer.Validator.{
  Reals, ok, ValidatorConfig, quoted, bind, value_text, some_text, skip_colon, found, value_of,
  extract_uint64, extract_uint32, extract_double, detect_android_format, validate_range,
  check_range, parse_native, parse_android, parse, blank, out_of_range, with_ts, time_stamp,
  host_time, with_seq, with_x, with_y, with_z,
}

module _ (ts seq x y z : Bytes) (ts_plain : Lacks b'"' ts) (seq_plain : Lacks b'"' seq)
    (x_plain : Lacks b'"' x) (y_plain : Lacks b'"' y) (z_plain : Lacks b'"' z) where
  abbrev from_z : Bytes
  from_z = codes ",\"az\":" ++ (z ++ codes "}")

  abbrev from_y : Bytes
  from_y = codes ",\"ay\":" ++ (y ++ from_z)

  abbrev from_x : Bytes
  from_x = codes ",\"ax\":" ++ (x ++ from_y)

  abbrev from_seq : Bytes
  from_seq = codes ",\"seq\":" ++ (seq ++ from_x)

  find_ts : find_rest (codes "\"ts\"") (native_text ts seq x y z) ≡ some (b':' ∷ (ts ++ from_seq))
  find_ts = refl

  find_seq : find_rest (codes "\"seq\"") (native_text ts seq x y z) ≡ some (b':' ∷ (seq ++ from_x))
  find_seq = find_rest-skip b'"' (codes "seq\"") ts from_seq ts_plain

  find_x : find_rest (codes "\"ax\"") (native_text ts seq x y z) ≡ some (b':' ∷ (x ++ from_y))
  find_x =
      find_rest-skip b'"' (codes "ax\"") ts from_seq ts_plain
      ∙ find_rest-skip b'"' (codes "ax\"") seq from_x seq_plain

  find_y : find_rest (codes "\"ay\"") (native_text ts seq x y z) ≡ some (b':' ∷ (y ++ from_z))
  find_y =
      find_rest-skip b'"' (codes "ay\"") ts from_seq ts_plain
      ∙ find_rest-skip b'"' (codes "ay\"") seq from_x seq_plain
      ∙ find_rest-skip b'"' (codes "ay\"") x from_y x_plain

  find_z : find_rest (codes "\"az\"") (native_text ts seq x y z) ≡ some (b':' ∷ (z ++ codes "}"))
  find_z =
      find_rest-skip b'"' (codes "az\"") ts from_seq ts_plain
      ∙ find_rest-skip b'"' (codes "az\"") seq from_x seq_plain
      ∙ find_rest-skip b'"' (codes "az\"") x from_y x_plain
      ∙ find_rest-skip b'"' (codes "az\"") y from_z y_plain

  no_type : find_rest (codes "\"type\"") (native_text ts seq x y z) ≡ none
  no_type =
      find_rest-skip b'"' (codes "type\"") ts from_seq ts_plain
      ∙ find_rest-skip b'"' (codes "type\"") seq from_x seq_plain
      ∙ find_rest-skip b'"' (codes "type\"") x from_y x_plain
      ∙ find_rest-skip b'"' (codes "type\"") y from_z y_plain
      ∙ find_rest-skip b'"' (codes "type\"") z (codes "}") z_plain

  not_android : detect_android_format (native_text ts seq x y z) ≡ false
  unfolding detect_android_format
  not_android =
      let text = native_text ts seq x y z in
      ap
        (λ o.
          found o
          && (found (find_rest (codes "android.sensor.") text)
              && found (find_rest (codes "\"values\"") text)))
        no_type

-- The value begins behind the colon.
begins :
    (text rest others : Bytes) (first : ℕ)
    → text ≡ first ∷ others
    → (first ≡ b'-') ⊎ ((48 ≤ first) × (first ≤ 57))
    → value_text (some (b':' ∷ (text ++ rest))) ≡ some (text ++ rest)
begins text rest others first e lead =
    let ended : ((first == b' ') || ((first == b':') || (first == b'\t'))) ≡ false = ground arith in
    let whole = ap (λ t. t ++ rest) e in
    ap (λ t. some_text (skip_colon t)) whole
    ∙ ap some_text (if_false (skip_colon (others ++ rest)) (first ∷ (others ++ rest)) ended)
    ∙ ap some (sym whole)

read_uint64 :
    (json key rest : Bytes) (n : ℕ)
    → n < 2 ^ 64
    → Ends rest
    → find_rest (quoted key) json ≡ some (b':' ∷ (show_decimal n ++ rest))
    → extract_uint64 json key ≡ some n
unfolding extract_uint64
read_uint64 json key rest n small ends e =
    let t = show_decimal-IsNumeral n in
    ap (λ o. bind (value_text o) strtoull) e
    ∙ ap (λ o. bind o strtoull)
        (begins (show_decimal n) rest t.others t.first t.split (inr (t.from_0, t.to_9)))
    ∙ strtoull-show_decimal n rest small ends

read_uint32 :
    (json key : Bytes) (n : ℕ)
    → n < 2 ^ 32
    → extract_uint64 json key ≡ some n
    → extract_uint32 json key ≡ some n
unfolding extract_uint32
read_uint32 json key n small e =
    let fits : ltb 0xffffffff n ≡ false = ground arith in
    ap (λ o. bind o (λ val. if ltb 0xffffffff val then none else some val)) e
    ∙ if_false none (some n) fits

module _ {D : Type 0} (reals : Reals D) where
  -- A text of `%.6f` that `strtod` reads as `value`: a minus sign or a digit in front, no quotation
  -- mark, and the conversion ends at a comma or a closing brace.
  pub record IsReal (text : Bytes) (value : D) : Type 0 where
    pub plain : Lacks b'"' text
    pub first : ℕ
    pub others : Bytes
    pub split : text ≡ first ∷ others
    pub lead : (first ≡ b'-') ⊎ ((48 ≤ first) × (first ≤ 57))
    pub reads :
        (c : ℕ) (rest : Bytes)
        → (c ≡ b',') ⊎ (c ≡ b'}')
        → reals.strtod (text ++ c ∷ rest) ≡ some (value, c ∷ rest)

  read_double :
      (json key text rest : Bytes) (value : D) (c : ℕ)
      → IsReal text value
      → (c ≡ b',') ⊎ (c ≡ b'}')
      → find_rest (quoted key) json ≡ some (b':' ∷ (text ++ c ∷ rest))
      → extract_double reals json key ≡ some value
  unfolding extract_double
  read_double json key text rest value c r ends e =
      ap (λ o. bind (value_text o) (λ t. value_of reals (reals.strtod t))) e
      ∙ ap (λ o. bind o (λ t. value_of reals (reals.strtod t)))
          (begins text (c ∷ rest) r.others r.first r.split r.lead)
      ∙ ap (value_of reals) (r.reads c rest ends)

  -- What `parse` makes of a text whose five fields can be extracted.
  parse-fields :
      (cfg : ValidatorConfig D) (json : Bytes) (counter : ℕ) (pkt : DataPacket D)
      → detect_android_format json ≡ false
      → 0 < pkt.timestamp_ms
      → extract_uint64 json (codes "ts") ≡ some pkt.timestamp_ms
      → extract_uint32 json (codes "seq") ≡ some pkt.sequence_id
      → extract_double reals json (codes "ax") ≡ some pkt.acc_x
      → extract_double reals json (codes "ay") ≡ some pkt.acc_y
      → extract_double reals json (codes "az") ≡ some pkt.acc_z
      → validate_range reals cfg.max_acc_ms2 pkt ≡ true
      → parse reals cfg json counter ≡ (record { packet = pkt; result = ok }, counter)
  unfolding parse parse_native check_range
  parse-fields cfg json counter pkt native pos ts seq ex ey ez range =
      let given : (pkt.timestamp_ms == 0) ≡ false = ground arith in
      let stamped = record (blank reals) { timestamp_ms = pkt.timestamp_ms } in
      let numbered = record stamped { sequence_id = pkt.sequence_id } in
      let with_two = record numbered { acc_x = pkt.acc_x; acc_y = pkt.acc_y } in
      if_false (parse_android reals cfg json counter) (parse_native reals cfg json, counter) native
      ∙ ap (λ r. (r, counter))
          (ap (λ o. with_ts reals cfg json (time_stamp reals cfg o)) ts
            ∙ ap (with_ts reals cfg json)
                (if_false (host_time reals cfg cfg.timesource) (some pkt.timestamp_ms) given)
            ∙ ap (with_seq reals cfg json stamped) seq
            ∙ ap (with_x reals cfg json numbered) ex
            ∙ ap (with_y reals cfg json (record numbered { acc_x = pkt.acc_x })) ey
            ∙ ap (with_z reals cfg with_two) ez
            ∙ ap (λ b. record { packet = pkt; result = if b then ok else out_of_range }) range)

  printed :
      (show_fixed : D → Bytes) (pkt : DataPacket D) (buf_size : ℕ) (json : Bytes)
      → sensor_to_json show_fixed pkt buf_size ≡ some json
      → native_text
          (show_decimal pkt.timestamp_ms)
          (show_decimal pkt.sequence_id)
          (show_fixed pkt.acc_x)
          (show_fixed pkt.acc_y)
          (show_fixed pkt.acc_z)
        ≡ json
  unfolding sensor_to_json
  printed show_fixed pkt buf_size json e =
      let text =
        native_text (show_decimal pkt.timestamp_ms) (show_decimal pkt.sequence_id)
          (show_fixed pkt.acc_x) (show_fixed pkt.acc_y) (show_fixed pkt.acc_z) in
      elim (Bool-cases (ltb (length text) buf_size)) [
        | inl h ↦ let same = sym (if_true (some text) none h) ∙ e in cc
        | inr h ↦ let never = sym (if_false (some text) none h) ∙ e in cc
      ]

  -- The text of a sample whose axes print as `%.6f` does is read back by `parse`: the same time stamp
  -- and sequence number, the values that `strtod` gives for the axes, and the result OK, if those are
  -- within the limit, the time stamp is not zero, and the numbers fit their fields. The counter of the
  -- Android packets stays as it is.
  pub parse-sensor_to_json :
      (cfg : ValidatorConfig D) (show_fixed : D → Bytes) (pkt : DataPacket D) (x y z : D)
      (buf_size counter : ℕ) (json : Bytes)
      → sensor_to_json show_fixed pkt buf_size ≡ some json
      → 0 < pkt.timestamp_ms
      → pkt.timestamp_ms < 2 ^ 64
      → pkt.sequence_id < 2 ^ 32
      → IsReal (show_fixed pkt.acc_x) x
      → IsReal (show_fixed pkt.acc_y) y
      → IsReal (show_fixed pkt.acc_z) z
      → validate_range reals cfg.max_acc_ms2 (record pkt { acc_x = x; acc_y = y; acc_z = z }) ≡ true
      → parse reals cfg json counter
        ≡ (record { packet = record pkt { acc_x = x; acc_y = y; acc_z = z }; result = ok }, counter)
  parse-sensor_to_json cfg show_fixed pkt x y z buf_size counter json e pos small seq_small rx ry rz
        range =
      let ts = show_decimal pkt.timestamp_ms in
      let seq = show_decimal pkt.sequence_id in
      let tx = show_fixed pkt.acc_x in
      let ty = show_fixed pkt.acc_y in
      let tz = show_fixed pkt.acc_z in
      let text = native_text ts seq tx ty tz in
      let pts = show_decimal-Lacks pkt.timestamp_ms in
      let pseq = show_decimal-Lacks pkt.sequence_id in
      let got_ts : extract_uint64 text (codes "ts") ≡ some pkt.timestamp_ms =
        read_uint64 text (codes "ts") _ pkt.timestamp_ms small refl
          (find_ts ts seq tx ty tz pts pseq rx.plain ry.plain rz.plain) in
      let got_seq : extract_uint32 text (codes "seq") ≡ some pkt.sequence_id =
        read_uint32 text (codes "seq") pkt.sequence_id seq_small (
          read_uint64 text (codes "seq") _ pkt.sequence_id (omega arith) refl
            (find_seq ts seq tx ty tz pts pseq rx.plain ry.plain rz.plain)) in
      ap (λ t. parse reals cfg t counter) (sym (printed show_fixed pkt buf_size json e))
      ∙ parse-fields cfg text counter (record pkt { acc_x = x; acc_y = y; acc_z = z })
          (not_android ts seq tx ty tz pts pseq rx.plain ry.plain rz.plain) pos got_ts got_seq
          (read_double text (codes "ax") tx _ x b',' rx (inl refl)
            (find_x ts seq tx ty tz pts pseq rx.plain ry.plain rz.plain))
          (read_double text (codes "ay") ty _ y b',' ry (inl refl)
            (find_y ts seq tx ty tz pts pseq rx.plain ry.plain rz.plain))
          (read_double text (codes "az") tz _ z b'}' rz (inr refl)
            (find_z ts seq tx ty tz pts pseq rx.plain ry.plain rz.plain))
          range
