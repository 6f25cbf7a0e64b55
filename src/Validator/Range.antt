-- ===== src/Validator/Range.antt =====
-- What the validator guarantees of a packet that it accepts.
use accel_observer.Prelude.{
  ℕ, ◌<◌, ◌^◌, ◌≡◌, refl, sym, subst, zero, suc, Option-cases, Bool, true, false, ◌&&◌, List, [],
  ◌∷◌, Option, none, some, arith, ltb, ◌==◌, if◌then◌else◌, if_either, if_true, if_false,
  Bool-cases, inl, inr, ltb_false→le, Bytes, codes,
}
use accel_observer.Prelude.Text.{strtoull, find_rest, Fits, strtoull-Fits}
use accel_observer.Storage.Packet.{DataPacket}
use accel_observer.Validator.{
  Reals, ok, out_of_range, ParsedPacket, TimeSource, external, host, ValidatorConfig, bind,
  value_text, quoted, extract_uint64, extract_uint32, extract_double, axis_ok, validate_range,
  blank, missing, check_range, with_x, with_y, with_z, with_seq, host_time, time_stamp, with_ts,
  parse_native, with_values, extract_array_doubles, parse_android, parse, detect_android_format,
}

module _ {D : Type 0} (reals : Reals D) (cfg : ValidatorConfig D) where
  -- `acc` is neither below -limit nor above limit, as the comparison of doubles tells it. That is also so
  -- of a value that is not comparable, such as NaN.
  abbrev pub InRange : D → Type 0
  InRange acc =
      (reals.less acc (reals.neg cfg.max_acc_ms2) ≡ false)
      × (reals.less cfg.max_acc_ms2 acc ≡ false)

  -- What holds of an accepted packet, given what holds of its time stamp and sequence number.
  pub record Sound (P : ℕ → ℕ → Type 0) (pkt : DataPacket D) : Type 0 where
    pub x_in : InRange pkt.acc_x
    pub y_in : InRange pkt.acc_y
    pub z_in : InRange pkt.acc_z
    pub numbers : P pkt.timestamp_ms pkt.sequence_id

  -- A result is sound if it is no acceptance, or its packet is sound.
  abbrev pub SoundResult : (ℕ → ℕ → Type 0) → ParsedPacket D → Type 0
  SoundResult P r = r.result ≡ ok → Sound P r.packet

  axis_in : (acc : D) → axis_ok reals cfg.max_acc_ms2 acc ≡ true → InRange acc
  unfolding axis_ok
  axis_in acc h = ground arith

  accepted_range : (b : Bool) → (if b then ok else out_of_range) ≡ ok → b ≡ true
  accepted_range true h = refl
  accepted_range false h = cc

  both_true : (a b : Bool) → (a && b) ≡ true → (a ≡ true) × (b ≡ true)
  both_true true b h = (refl, h)
  both_true false b h = (cc, cc)

  check_range-Sound :
      (P : ℕ → ℕ → Type 0) (pkt : DataPacket D)
      → P pkt.timestamp_ms pkt.sequence_id
      → SoundResult P (check_range reals cfg.max_acc_ms2 pkt)
  unfolding check_range validate_range
  check_range-Sound P pkt p h =
      let x_ok = axis_ok reals cfg.max_acc_ms2 pkt.acc_x in
      let y_ok = axis_ok reals cfg.max_acc_ms2 pkt.acc_y in
      let z_ok = axis_ok reals cfg.max_acc_ms2 pkt.acc_z in
      let (x, yz) = both_true x_ok (y_ok && z_ok) (accepted_range (x_ok && (y_ok && z_ok)) h) in
      let (y, z) = both_true y_ok z_ok yz in
      record {
        x_in = axis_in pkt.acc_x x;
        y_in = axis_in pkt.acc_y y;
        z_in = axis_in pkt.acc_z z;
        numbers = p;
      }

  missing-Sound : (P : ℕ → ℕ → Type 0) (pkt : DataPacket D) → SoundResult P (missing reals pkt)
  missing-Sound P pkt h = absurd (cc)

  with_z-Sound :
      (P : ℕ → ℕ → Type 0) (pkt : DataPacket D) (z : Option D)
      → P pkt.timestamp_ms pkt.sequence_id
      → SoundResult P (with_z reals cfg pkt z)
  with_z-Sound P pkt none p = missing-Sound P pkt
  with_z-Sound P pkt (some z) p = check_range-Sound P (record pkt { acc_z = z }) p

  with_y-Sound :
      (P : ℕ → ℕ → Type 0) (json : Bytes) (pkt : DataPacket D) (y : Option D)
      → P pkt.timestamp_ms pkt.sequence_id
      → SoundResult P (with_y reals cfg json pkt y)
  with_y-Sound P json pkt none p = missing-Sound P pkt
  with_y-Sound P json pkt (some y) p =
      with_z-Sound P (record pkt { acc_y = y }) (extract_double reals json (codes "az")) p

  with_x-Sound :
      (P : ℕ → ℕ → Type 0) (json : Bytes) (pkt : DataPacket D) (x : Option D)
      → P pkt.timestamp_ms pkt.sequence_id
      → SoundResult P (with_x reals cfg json pkt x)
  with_x-Sound P json pkt none p = missing-Sound P pkt
  with_x-Sound P json pkt (some x) p =
      with_y-Sound P json (record pkt { acc_x = x }) (extract_double reals json (codes "ay")) p

  -- The numbers of a packet: both fit their fields, and a time stamp of zero is the clock's.
  abbrev pub Numbers : ℕ → ℕ → Type 0
  Numbers ts seq = (ts < 2 ^ 64) × (seq < 2 ^ 32) × (ts ≡ 0 → cfg.server_time_fn ≡ 0)

  -- a number below the bound, if there is one
  abbrev Below : ℕ → Option ℕ → Type 0
  Below bound none = Unit
  Below bound (some v) = v < bound

  converted : (o : Option Bytes) → Below (2 ^ 64) (bind o strtoull)
  converted none = tt
  converted (some text) = elim (Option-cases (strtoull text)) [
    | inl e ↦ subst (Below (2 ^ 64)) (sym e) tt
    | inr (v, e) ↦ subst (Below (2 ^ 64)) (sym e) (subst Fits e (strtoull-Fits text))
  ]

  narrowed :
      (o : Option ℕ)
      → Below (2 ^ 32) (bind o (λ val. if ltb 0xffffffff val then none else some val))
  narrowed none = tt
  narrowed (some v) = elim (Bool-cases (ltb 0xffffffff v)) [
    | inl e ↦ subst (Below (2 ^ 32)) (sym (if_true none (some v) e)) tt
    | inr e ↦
        let small = ltb_false→le 0xffffffff v e in
        subst (Below (2 ^ 32)) (sym (if_false none (some v) e)) (omega arith)
  ]

  extract_uint64-Below : (json key : Bytes) → Below (2 ^ 64) (extract_uint64 json key)
  unfolding extract_uint64
  extract_uint64-Below json key = converted (value_text (find_rest (quoted key) json))

  extract_uint32-Below : (json key : Bytes) → Below (2 ^ 32) (extract_uint32 json key)
  unfolding extract_uint32
  extract_uint32-Below json key = narrowed (extract_uint64 json key)

  -- a time stamp that a packet may have
  abbrev TimeOk : ℕ → Type 0
  TimeOk ts = (ts < 2 ^ 64) × (ts ≡ 0 → cfg.server_time_fn ≡ 0)

  abbrev TimeOkIfAny : Option ℕ → Type 0
  TimeOkIfAny none = Unit
  TimeOkIfAny (some ts) = TimeOk ts

  module _ (clock : cfg.server_time_fn < 2 ^ 64) where
    host_time_lem : (source : TimeSource) → TimeOkIfAny (host_time reals cfg source)
    host_time_lem external = tt
    host_time_lem host = (clock, λ e. e)

    time_stamp_lem : (o : Option ℕ) → Below (2 ^ 64) o → TimeOkIfAny (time_stamp reals cfg o)
    time_stamp_lem none h = host_time_lem cfg.timesource
    time_stamp_lem (some zero) h = host_time_lem cfg.timesource
    time_stamp_lem (some (suc ts)) h =
        let given : (suc ts == 0) ≡ false = ground arith in
        subst TimeOkIfAny
          (sym (if_false (host_time reals cfg cfg.timesource) (some (suc ts)) given))
          (h, λ e. omega arith)

    with_seq-Sound :
        (json : Bytes) (ts : ℕ) (seq : Option ℕ)
        → TimeOk ts
        → Below (2 ^ 32) seq
        → SoundResult Numbers
            (with_seq reals cfg json (record (blank reals) { timestamp_ms = ts }) seq)
    with_seq-Sound json ts (some seq) (small, stamped) h =
        with_x-Sound Numbers json _ (extract_double reals json (codes "ax")) (small, h, stamped)
    with_seq-Sound json ts none (small, stamped) h =
        if_either (SoundResult Numbers) cfg.seq_optional _ _
          (with_x-Sound Numbers json (record (blank reals) { timestamp_ms = ts; sequence_id = 0 })
            (extract_double reals json (codes "ax")) (small, omega arith, stamped))
          (missing-Sound Numbers (record (blank reals) { timestamp_ms = ts }))

    with_ts-Sound :
        (json : Bytes) (ts : Option ℕ)
        → TimeOkIfAny ts
        → SoundResult Numbers (with_ts reals cfg json ts)
    with_ts-Sound json none h = missing-Sound Numbers (blank reals)
    with_ts-Sound json (some ts) h =
        with_seq-Sound json ts (extract_uint32 json (codes "seq")) h
          (extract_uint32-Below json (codes "seq"))

    with_values-Sound :
        (pkt : DataPacket D) (values : List D)
        → Numbers pkt.timestamp_ms pkt.sequence_id
        → SoundResult Numbers (with_values reals cfg pkt values)
    with_values-Sound pkt [] p = missing-Sound Numbers pkt
    with_values-Sound pkt (x ∷ []) p = missing-Sound Numbers pkt
    with_values-Sound pkt (x ∷ y ∷ []) p = missing-Sound Numbers pkt
    with_values-Sound pkt (x ∷ y ∷ z ∷ more) p =
        check_range-Sound Numbers (record pkt { acc_x = x; acc_y = y; acc_z = z }) p

    -- In a packet that `parse` accepts, in either format, no axis compares as below -limit or as above
    -- limit (a NaN compares as neither, and so passes); the time stamp has 64 bits and is zero only
    -- if the server's clock gave zero, and the sequence number has 32 bits, for a counter of 32 bits and
    -- a clock of 64.
    pub parse-Sound :
        (json : Bytes) (counter : ℕ)
        → counter < 2 ^ 32
        → (parse reals cfg json counter).0.result ≡ ok
        → Sound Numbers (parse reals cfg json counter).0.packet
    unfolding parse parse_native parse_android
    parse-Sound json counter small =
        if_either (λ (r : ParsedPacket D × ℕ). SoundResult Numbers r.0) (detect_android_format json)
          (parse_android reals cfg json counter) (parse_native reals cfg json, counter)
          (with_values-Sound
            (record (blank reals) { timestamp_ms = cfg.server_time_fn; sequence_id = counter })
            (extract_array_doubles reals json (codes "values") 3) (clock, small, λ e. e))
          (with_ts-Sound json (time_stamp reals cfg (extract_uint64 json (codes "ts"))) (
            time_stamp_lem (extract_uint64 json (codes "ts"))
              (extract_uint64-Below json (codes "ts"))))
