-- ===== src/Validator/Tests.antt =====
-- The validator at concrete texts, over one-digit numbers in the place of doubles.
use accel_observer.Prelude.{
  ℕ, ◌+◌, ◌-◌, ◌%◌, ◌<◌, ◌≡◌, refl, false, [], ◌∷◌, Option, none, some, arith, ltb, if◌then◌else◌,
  inr, Bytes, codes,
}
use accel_observer.Prelude.Text.{is_digit, strtoull, show_decimal}
use accel_observer.Storage.Packet.{DataPacket}
use accel_observer.Sensor.{sensor_to_json}
use accel_observer.Validator.{
  Reals, ok, missing_fields, out_of_range, external, ValidatorConfig, parse, extract_uint64,
  validate_range, host, parse_timesource, timesource_str,
}
use accel_observer.Validator.Range.{Sound, Numbers, parse-Sound}
use accel_observer.Validator.Native.{IsReal, parse-sensor_to_json}

abbrev digit_of : Bytes → Option (ℕ × Bytes)
digit_of [] = none
digit_of (c ∷ cs) = if is_digit c then some (c - 48, cs) else none

abbrev digits : Reals ℕ
digits = record { zero_d = 0; neg = λ n. 0; less = ltb; strtod = digit_of }

abbrev cfg : ValidatorConfig ℕ
cfg = record { max_acc_ms2 = 7; timesource = external; seq_optional = false; server_time_fn = 99 }

abbrev sample : DataPacket ℕ
sample = record { timestamp_ms = 1700; sequence_id = 42; acc_x = 1; acc_y = 0; acc_z = 7 }

abbrev show_digit : ℕ → Bytes
show_digit n = (48 + n % 10) ∷ []

abbrev sample_json : Bytes
sample_json = codes "{\"ts\":1700,\"seq\":42,\"ax\":1,\"ay\":0,\"az\":7}"

sample-printed : sensor_to_json show_digit sample 256 ≡ some sample_json
unfolding sensor_to_json show_decimal
sample-printed = refl

sample-parsed : parse digits cfg sample_json 5 ≡ (record { packet = sample; result = ok }, 5)
unfolding parse strtoull
sample-parsed = refl

android_parsed :
    parse digits cfg (codes "{\"type\":\"android.sensor.accelerometer\",\"values\":[1,2,3]}") 5 ≡ (
      record {
        packet = record { timestamp_ms = 99; sequence_id = 5; acc_x = 1; acc_y = 2; acc_z = 3 };
        result = ok;
      },
      6,
    )
unfolding parse strtoull
android_parsed = refl

android_short :
    (parse digits cfg
      (codes "{\"type\":\"android.sensor.accelerometer\",\"values\":[1,2]}")
      5).0.result
    ≡ missing_fields
unfolding parse strtoull
android_short = refl

above_limit :
    (parse digits cfg (codes "{\"ts\":1,\"seq\":2,\"ax\":1,\"ay\":0,\"az\":8}") 5).0.result
    ≡ out_of_range
unfolding parse strtoull
above_limit = refl

-- A minus sign is accepted in front of the time stamp, and wraps it round.
negative_ts : extract_uint64 (codes "{\"ts\":-1}") (codes "ts") ≡ some 18446744073709551615
unfolding extract_uint64 strtoull
negative_ts = refl

digit-IsReal : (n : ℕ) → n < 10 → IsReal digits (show_digit n) n
digit-IsReal n h = record {
  plain = (ground arith, tt);
  first = 48 + n % 10;
  others = [];
  split = refl;
  lead = inr (omega arith, omega arith);
  reads = λ c rest e. ground arith;
}

parse-sensor_to_json_example :
    parse digits cfg sample_json 5 ≡ (record { packet = sample; result = ok }, 5)
parse-sensor_to_json_example =
    parse-sensor_to_json digits cfg show_digit sample 1 0 7 256 5 sample_json sample-printed
      (omega arith) (omega arith) (omega arith) (digit-IsReal 1 (omega arith))
      (digit-IsReal 0 (omega arith)) (digit-IsReal 7 (omega arith)) (unfold validate_range in refl)

parse-Sound_example : Sound digits cfg (Numbers digits cfg) sample
unfolding parse strtoull
parse-Sound_example = parse-Sound digits cfg (omega arith) sample_json 5 (omega arith) refl

timesource_back :
    (parse_timesource (some (timesource_str host)) ≡ host)
    × (parse_timesource (some (timesource_str external)) ≡ external)
unfolding parse_timesource timesource_str
timesource_back = (refl, refl)
