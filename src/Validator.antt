-- ===== src/Validator.antt =====
-- server/src/misc/packet_validator.cpp: from a JSON text to a checked packet. `double`, with `strtod`
-- and the comparison, is a parameter; the clock is an argument, and the atomic counter of the Android
-- packets is state. Log lines are left out.
pub mod Range
pub mod Native
mod Tests
use accel_observer.Prelude.{
  ℕ, zero, suc, ◌+◌, ◌%◌, ◌^◌, Bool, true, false, not, ◌&&◌, ◌||◌, List, [], ◌∷◌, ◌++◌, Option,
  none, some, ltb, ◌==◌, if◌then◌else◌, Bytes, codes, u32,
}
use accel_observer.Prelude.Text.{find_rest, strtoull, same_text}
use accel_observer.Storage.Packet.{DataPacket}

-- `strtod` gives the value and the text behind it, if it converts anything and does not overflow.
pub record Reals (D : Type 0) : Type 0 where
  pub zero_d : D
  pub neg : D → D
  pub less : D → D → Bool
  pub strtod : Bytes → Option (D × Bytes)

pub data ParseResult : Type 0 where
  ok invalid_format missing_fields out_of_range : ParseResult

pub record ParsedPacket (D : Type 0) : Type 0 where
  pub packet : DataPacket D
  pub result : ParseResult

pub data TimeSource : Type 0 where
  external host : TimeSource

-- `server_time_fn` is the time that the configured clock gives at the call.
pub record ValidatorConfig (D : Type 0) : Type 0 where
  pub max_acc_ms2 : D
  pub timesource : TimeSource
  pub seq_optional : Bool
  pub server_time_fn : ℕ

-- `none` is a null pointer
unfoldable pub parse_timesource : Option Bytes → TimeSource
parse_timesource none = external
parse_timesource (some s) = if same_text s (codes "host") then host else external

unfoldable pub timesource_str : TimeSource → Bytes
timesource_str host = codes "host"
timesource_str external = codes "external"

abbrev pub quoted : Bytes → Bytes
quoted key = b'"' ∷ (key ++ b'"' ∷ [])

-- the loop over ' ', ':' and tab
abbrev pub skip_colon : Bytes → Bytes
skip_colon [] = []
skip_colon (c ∷ cs) = if (c == b' ') || ((c == b':') || (c == b'\t')) then skip_colon cs else c ∷ cs

-- the loop over ' ', ',' and tab
abbrev pub skip_comma : Bytes → Bytes
skip_comma [] = []
skip_comma (c ∷ cs) = if (c == b' ') || ((c == b',') || (c == b'\t')) then skip_comma cs else c ∷ cs

-- the text of the value of a key; `none` where the extractors return false before converting it
abbrev pub some_text : Bytes → Option Bytes
some_text [] = none
some_text (c ∷ cs) = some (c ∷ cs)

abbrev pub value_text : Option Bytes → Option Bytes
value_text none = none
value_text (some text) = some_text (skip_colon text)

abbrev pub bind : {A B : Type 0} → Option A → (A → Option B) → Option B
bind none next = none
bind (some a) next = next a

unfoldable pub extract_uint64 : Bytes → Bytes → Option ℕ
extract_uint64 json key = bind (value_text (find_rest (quoted key) json)) strtoull

unfoldable pub extract_uint32 : Bytes → Bytes → Option ℕ
unfolding extract_uint64
extract_uint32 json key =
    bind (extract_uint64 json key) (λ val. if ltb 0xffffffff val then none else some val)

abbrev pub found : {A : Type 0} → Option A → Bool
found none = false
found (some a) = true

unfoldable pub detect_android_format : Bytes → Bool
detect_android_format json =
    found (find_rest (codes "\"type\"") json)
    && (found (find_rest (codes "android.sensor.") json)
        && found (find_rest (codes "\"values\"") json))

module _ {D : Type 0} (reals : Reals D) where
  abbrev pub value_of : Option (D × Bytes) → Option D
  value_of none = none
  value_of (some (v, rest)) = some v

  unfoldable pub extract_double : Bytes → Bytes → Option D
  extract_double json key =
      bind (value_text (find_rest (quoted key) json)) (λ text. value_of (reals.strtod text))

  -- The loop over the values, on the places left in `out`.
  abbrev pub keep_value : Option (D × Bytes) → (Bytes → List D) → List D
  keep_value none next = []
  keep_value (some (v, rest)) next = v ∷ next rest

  abbrev pub value_here : Bytes → (Bytes → List D) → List D
  value_here [] next = []
  value_here (c ∷ cs) next = if c == b']' then [] else keep_value (reals.strtod (c ∷ cs)) next

  unfoldable pub array_values : ℕ → Bytes → List D
  array_values zero text = []
  array_values (suc left) text = value_here (skip_comma text) (array_values left)

  abbrev pub in_brackets : ℕ → Option Bytes → List D
  in_brackets max_count none = []
  in_brackets max_count (some []) = []
  in_brackets max_count (some (c ∷ cs)) = if c == b'[' then array_values max_count cs else []

  -- the values that are written to `out`; the function returns their number
  unfoldable pub extract_array_doubles : Bytes → Bytes → ℕ → List D
  unfolding array_values
  extract_array_doubles json key max_count =
      in_brackets max_count (value_text (find_rest (quoted key) json))

  unfoldable pub axis_ok : D → D → Bool
  axis_ok limit acc = not (reals.less acc (reals.neg limit) || reals.less limit acc)

  unfoldable pub validate_range : D → DataPacket D → Bool
  unfolding axis_ok
  validate_range limit pkt =
      axis_ok limit pkt.acc_x && (axis_ok limit pkt.acc_y && axis_ok limit pkt.acc_z)

  -- `ParsedPacket result{}`
  abbrev pub blank : DataPacket D
  blank = record {
    timestamp_ms = 0;
    sequence_id = 0;
    acc_x = reals.zero_d;
    acc_y = reals.zero_d;
    acc_z = reals.zero_d;
  }

  abbrev pub missing : DataPacket D → ParsedPacket D
  missing pkt = record { packet = pkt; result = missing_fields }

  -- the end of both parsers
  unfoldable pub check_range : D → DataPacket D → ParsedPacket D
  unfolding validate_range
  check_range limit pkt = record {
    packet = pkt;
    result = if validate_range limit pkt then ok else out_of_range;
  }

  module _ (cfg : ValidatorConfig D) where
    -- the axes of the native format, in order
    abbrev pub with_z : DataPacket D → Option D → ParsedPacket D
    with_z pkt none = missing pkt
    with_z pkt (some z) = check_range cfg.max_acc_ms2 (record pkt { acc_z = z })

    abbrev pub with_y : Bytes → DataPacket D → Option D → ParsedPacket D
    with_y json pkt none = missing pkt
    with_y json pkt (some y) = with_z (record pkt { acc_y = y }) (extract_double json (codes "az"))

    abbrev pub with_x : Bytes → DataPacket D → Option D → ParsedPacket D
    with_x json pkt none = missing pkt
    with_x json pkt (some x) =
        with_y json (record pkt { acc_x = x }) (extract_double json (codes "ay"))

    -- the sequence number, or 0 where it is optional
    abbrev pub with_seq : Bytes → DataPacket D → Option ℕ → ParsedPacket D
    with_seq json pkt (some seq) =
        with_x json (record pkt { sequence_id = seq }) (extract_double json (codes "ax"))
    with_seq json pkt none =
        if cfg.seq_optional
        then with_x json (record pkt { sequence_id = 0 }) (extract_double json (codes "ax"))
        else missing pkt

    -- the time stamp: one that is absent or zero is replaced where the time source is the host
    abbrev pub host_time : TimeSource → Option ℕ
    host_time external = none
    host_time host = some cfg.server_time_fn

    abbrev pub time_stamp : Option ℕ → Option ℕ
    time_stamp none = host_time cfg.timesource
    time_stamp (some ts) = if ts == 0 then host_time cfg.timesource else some ts

    abbrev pub with_ts : Bytes → Option ℕ → ParsedPacket D
    with_ts json none = missing blank
    with_ts json (some ts) =
        with_seq json (record blank { timestamp_ms = ts }) (extract_uint32 json (codes "seq"))

    -- the part of `parse` for the native format
    unfoldable pub parse_native : Bytes → ParsedPacket D
    unfolding extract_uint64 extract_uint32 extract_double check_range
    parse_native json = with_ts json (time_stamp (extract_uint64 json (codes "ts")))

    -- three values, or missing fields
    abbrev pub with_values : DataPacket D → List D → ParsedPacket D
    with_values pkt (x ∷ y ∷ z ∷ more) =
        check_range cfg.max_acc_ms2 (record pkt { acc_x = x; acc_y = y; acc_z = z })
    with_values pkt _ = missing pkt

    -- The counter goes on whether the packet is accepted or not.
    unfoldable pub parse_android : Bytes → ℕ → ParsedPacket D × ℕ
    unfolding extract_array_doubles check_range
    parse_android json counter = (
      with_values (record blank { timestamp_ms = cfg.server_time_fn; sequence_id = counter })
          (extract_array_doubles json (codes "values") 3),
      u32 (counter + 1),
    )

    unfoldable pub parse : Bytes → ℕ → ParsedPacket D × ℕ
    unfolding detect_android_format parse_native parse_android
    parse json counter =
        if detect_android_format json
        then parse_android json counter
        else (parse_native json, counter)
