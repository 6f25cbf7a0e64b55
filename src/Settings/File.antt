-- ===== src/Settings/File.antt =====
-- server/src/conf/confloader.cpp: the settings that the configuration file gives.
use Prim.Native.String.{String}
use accel_observer.Prelude.{
  ℕ, Bool, false, [], ◌∷◌, Option, none, some, ◌==◌, if◌then◌else◌, Bytes, codes,
}
use accel_observer.Prelude.Int.{ℤ}
use accel_observer.Conf.{ConfResult}
use accel_observer.Conf.Lookup.{conf_has_key, conf_get_str, conf_get_bool}
use accel_observer.Conf.Numbers.{
  conf_get_int, conf_get_uint16, conf_get_uint32, conf_get_size, conf_get_double,
}
use accel_observer.Settings.{TransportType, Config, Doubles, str_lower, nonempty_or, text_or_old}
use accel_observer.Settings.Arguments.{clamp_qos, transport_of, number_or_old}

-- Both branches for the value 0 keep the old port; they differ in a warning.
unfoldable pub safe_port : ConfResult → Bytes → Bytes → ℕ → ℕ
safe_port conf section key fallback =
    let v = conf_get_uint16 conf section key 0 in
    if v == 0 then (if conf_has_key conf section key then fallback else fallback) else v

-- a key without a fallback
abbrev pub str : ConfResult → String → String → Option Bytes
str conf section key = conf_get_str conf (codes section) (codes key) none

abbrev pub has : ConfResult → String → String → Bool
has conf section key = conf_has_key conf (codes section) (codes key)

abbrev pub bool_or : ConfResult → String → String → Bool → Bool
bool_or conf section key old = conf_get_bool conf (codes section) (codes key) old

abbrev pub int_or : ConfResult → String → String → ℤ → ℤ
int_or conf section key old = conf_get_int conf (codes section) (codes key) old

abbrev pub size_or : ConfResult → String → String → ℕ → ℕ
size_or conf section key old = conf_get_size conf (codes section) (codes key) old

-- `protocol`, where it is there and not empty
abbrev pub protocol_or : TransportType → Option Bytes → TransportType
protocol_or old none = old
protocol_or old (some []) = old
protocol_or old (some (c ∷ cs)) = transport_of old (str_lower (c ∷ cs))

-- an empty text is kept, where the key is there
abbrev pub any_or_old : Bytes → Option Bytes → Bytes
any_or_old old none = old
any_or_old old (some text) = text

-- `conf_get_str(.., "")`, behind a test for the key
abbrev pub empty_if_absent : Option Bytes → Bytes
empty_if_absent none = []
empty_if_absent (some text) = text

module _ {D : Type 0} (doubles : Doubles D) (conf : ConfResult) where
  unfoldable pub conf_transport : Config D → Config D
  conf_transport cfg = record cfg {
    transport = protocol_or cfg.transport (str conf "transport" "protocol");
    web_enabled =
        if has conf "transport" "webinterface"
        then bool_or conf "transport" "webinterface" false
        else cfg.web_enabled;
  }

  -- `std::string h = conf_get_str(..)`: a null pointer is `none`, for which the behaviour of the program
  -- is not defined.
  unfoldable pub conf_connection : Option Bytes → Config D → Option (Config D)
  unfolding safe_port
  conf_connection none cfg = none
  conf_connection (some h) cfg = some (record cfg {
    host = nonempty_or cfg.host h;
    port = safe_port conf (codes "connection") (codes "port") cfg.port;
  })

  unfoldable pub conf_mqtt : Config D → Config D
  unfolding clamp_qos
  conf_mqtt cfg = record cfg {
    mqtt_topic = text_or_old cfg.mqtt_topic (str conf "mqtt" "topic");
    mqtt_client_id = any_or_old cfg.mqtt_client_id (str conf "mqtt" "client_id");
    mqtt_username =
        if has conf "mqtt" "username"
        then empty_if_absent (str conf "mqtt" "username")
        else cfg.mqtt_username;
    mqtt_password =
        if has conf "mqtt" "password"
        then empty_if_absent (str conf "mqtt" "password")
        else cfg.mqtt_password;
    mqtt_qos = clamp_qos (int_or conf "mqtt" "qos" cfg.mqtt_qos);
    mqtt_keepalive = int_or conf "mqtt" "keepalive" cfg.mqtt_keepalive;
  }

  unfoldable pub conf_will : Config D → Config D
  unfolding clamp_qos
  conf_will cfg = record cfg {
    mqtt_will_topic = text_or_old cfg.mqtt_will_topic (str conf "mqtt" "will_topic");
    mqtt_will_payload = text_or_old cfg.mqtt_will_payload (str conf "mqtt" "will_payload");
    mqtt_will_qos =
        if has conf "mqtt" "will_qos"
        then clamp_qos (int_or conf "mqtt" "will_qos" cfg.mqtt_will_qos)
        else cfg.mqtt_will_qos;
    mqtt_will_retain =
        if has conf "mqtt" "will_retain"
        then bool_or conf "mqtt" "will_retain" cfg.mqtt_will_retain
        else cfg.mqtt_will_retain;
  }

  -- A capacity of 0 is refused; any other turns the sizing off.
  unfoldable pub conf_capacity : Config D → Config D
  conf_capacity cfg =
      let cap = size_or conf "storage" "buffer_capacity" 0 in
      if has conf "storage" "buffer_capacity"
      then (if cap == 0 then cfg else record cfg { buffer_capacity = cap; auto_buffer = false })
      else cfg

  unfoldable pub conf_storage : Config D → Config D
  unfolding conf_capacity
  conf_storage cfg =
      let named = record cfg {
        output_file = text_or_old cfg.output_file (str conf "storage" "output");
        store_path = text_or_old cfg.store_path (str conf "storage" "store_path");
      } in
      let sized = conf_capacity named in
      record sized {
        flush_interval_ms =
            number_or_old sized.flush_interval_ms
              (size_or conf "storage" "flush_interval_ms" sized.flush_interval_ms);
        csv_separator = text_or_old sized.csv_separator (str conf "storage" "csv_separator");
      }

  unfoldable pub conf_logging : Config D → Config D
  conf_logging cfg = record cfg {
    log_file = text_or_old cfg.log_file (str conf "logging" "file");
    log_also_stderr = bool_or conf "logging" "also_stderr" cfg.log_also_stderr;
    log_level = text_or_old cfg.log_level (str conf "logging" "level");
  }

  unfoldable pub conf_web : Config D → Config D
  unfolding safe_port
  conf_web cfg = record cfg {
    web_enabled =
        if has conf "web" "enabled"
        then bool_or conf "web" "enabled" cfg.web_enabled
        else cfg.web_enabled;
    web_host = text_or_old cfg.web_host (str conf "web" "host");
    web_port = safe_port conf (codes "web") (codes "port") cfg.web_port;
    web_stats_interval_ms =
        conf_get_uint32 conf (codes "web") (codes "stats_interval_ms") cfg.web_stats_interval_ms;
  }

  unfoldable pub conf_device : Config D → Config D
  conf_device cfg = record cfg {
    device_model = text_or_old cfg.device_model (str conf "device" "model");
    device_range_g =
        if has conf "device" "range_g"
        then doubles.to_float (
            conf_get_double doubles.strtod conf (codes "device") (codes "range_g")
              cfg.device_range_g)
        else cfg.device_range_g;
  }

  unfoldable pub conf_validator : Config D → Config D
  conf_validator cfg = record cfg {
    timesource = text_or_old cfg.timesource (str conf "validator" "timesource");
    max_acc_ms2 =
        if has conf "validator" "max_acc_ms2"
        then conf_get_double doubles.strtod conf (codes "validator") (codes "max_acc_ms2")
            cfg.max_acc_ms2
        else cfg.max_acc_ms2;
    seq_optional =
        if has conf "validator" "seq_optional"
        then bool_or conf "validator" "seq_optional" cfg.seq_optional
        else cfg.seq_optional;
  }

  abbrev pub rest_of_file : Option (Config D) → Option (Config D)
  rest_of_file none = none
  rest_of_file (some cfg) = some (
      conf_validator
        (conf_device (conf_web (conf_logging (conf_storage (conf_will (conf_mqtt cfg)))))))

  unfoldable pub apply_conf : Config D → Option (Config D)
  unfolding conf_transport conf_connection conf_mqtt conf_will conf_storage conf_logging conf_web
      conf_device conf_validator
  apply_conf cfg =
      rest_of_file (conf_connection (str conf "connection" "host") (conf_transport cfg))
