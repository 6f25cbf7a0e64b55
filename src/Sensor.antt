-- ===== src/Sensor.antt =====
-- client/src/sensor/sensor_data_sim.c: the JSON text of a sample. `%.6f` is a parameter; reading the
-- simulated sensor is floating-point noise and is left out.
use accel_observer.Prelude.{ℕ, ◌++◌, Option, none, some, ltb, if◌then◌else◌, length, Bytes, codes}
use accel_observer.Prelude.Text.{show_decimal}
use accel_observer.Storage.Packet.{DataPacket}

-- the format string, with the texts of the five numbers
abbrev pub native_text : Bytes → Bytes → Bytes → Bytes → Bytes → Bytes
native_text ts seq x y z =
    codes "{\"ts\":"
    ++ (ts
        ++ (codes ",\"seq\":"
            ++ (seq
                ++ (codes ",\"ax\":"
                    ++ (x
                        ++ (codes ",\"ay\":" ++ (y ++ (codes ",\"az\":" ++ (z ++ codes "}")))))))))

-- `snprintf` into a buffer of `buf_size` bytes; `none` is the result -1
unfoldable pub sensor_to_json : {D : Type 0} → (D → Bytes) → DataPacket D → ℕ → Option Bytes
sensor_to_json show_fixed pkt buf_size =
    let text =
      native_text (show_decimal pkt.timestamp_ms) (show_decimal pkt.sequence_id)
        (show_fixed pkt.acc_x) (show_fixed pkt.acc_y) (show_fixed pkt.acc_z) in
    if ltb (length text) buf_size then some text else none
