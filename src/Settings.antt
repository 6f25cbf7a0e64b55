-- ===== src/Settings.antt =====
-- server/include/core/servertypes.hpp, `Config`: the settings of the server. The file and then the
-- arguments of the program change the defaults. Doubles are a parameter.
pub mod Arguments
pub mod File
pub mod Start
pub mod Usable
pub mod Numbers
mod Tests
use accel_observer.Prelude.{
  ℕ, Bool, true, false, List, [], ◌∷◌, Option, none, some, map, if◌then◌else◌, Bytes, codes,
}
use accel_observer.Prelude.Int.{ℤ, pos}
use accel_observer.Conf.Strings.{to_lower}

pub data TransportType : Type 0 where
  mqtt web_socket : TransportType

pub record Config (D : Type 0) : Type 0 where
  pub transport : TransportType
  pub host : Bytes
  pub port : ℕ
  pub mqtt_topic : Bytes
  pub mqtt_client_id : Bytes
  pub mqtt_username : Bytes
  pub mqtt_password : Bytes
  pub mqtt_qos : ℤ
  pub mqtt_keepalive : ℤ
  pub mqtt_will_topic : Bytes
  pub mqtt_will_payload : Bytes
  pub mqtt_will_qos : ℤ
  pub mqtt_will_retain : Bool
  pub output_file : Bytes
  pub store_path : Bytes
  pub buffer_capacity : ℕ
  pub flush_interval_ms : ℕ
  pub auto_buffer : Bool
  pub csv_separator : Bytes
  pub log_file : Bytes
  pub log_also_stderr : Bool
  pub log_level : Bytes
  pub web_enabled : Bool
  pub web_host : Bytes
  pub web_port : ℕ
  pub web_stats_interval_ms : ℕ
  pub device_model : Bytes
  pub device_range_g : D
  pub timesource : Bytes
  pub max_acc_ms2 : D
  pub seq_optional : Bool

-- What the settings need of doubles: `strtod`, the cast to `float` and back, and two constants.
pub record Doubles (D : Type 0) : Type 0 where
  pub strtod : Bytes → Option D
  pub to_float : D → D
  pub zero : D
  pub sixteen : D

-- the initial values of the members
unfoldable pub default_config : {D : Type 0} → Doubles D → Config D
default_config doubles = record {
  transport = mqtt;
  host = codes "localhost";
  port = 1883;
  mqtt_topic = codes "sensors/accel";
  mqtt_client_id = codes "data-subscriber";
  mqtt_username = [];
  mqtt_password = [];
  mqtt_qos = pos 0;
  mqtt_keepalive = pos 60;
  mqtt_will_topic = [];
  mqtt_will_payload = codes "{\"status\":\"offline\"}";
  mqtt_will_qos = pos 0;
  mqtt_will_retain = false;
  output_file = [];
  store_path = [];
  buffer_capacity = 4096;
  flush_interval_ms = 500;
  auto_buffer = true;
  csv_separator = codes ";";
  log_file = codes "stderr";
  log_also_stderr = true;
  log_level = codes "INFO";
  web_enabled = true;
  web_host = codes "0.0.0.0";
  web_port = 8088;
  web_stats_interval_ms = 1000;
  device_model = codes "generic";
  device_range_g = doubles.sixteen;
  timesource = codes "external";
  max_acc_ms2 = doubles.zero;
  seq_optional = false;
}

-- `str_lower` and `str_to_lower_copy`
unfoldable pub str_lower : Bytes → Bytes
str_lower s = map to_lower s

-- `if (!v.empty()) cfg.field = v`, and `if (p && p[0]) cfg.field = p`
abbrev pub nonempty_or : Bytes → Bytes → Bytes
nonempty_or old [] = old
nonempty_or old (c ∷ cs) = c ∷ cs

abbrev pub text_or_old : Bytes → Option Bytes → Bytes
text_or_old old none = old
text_or_old old (some text) = nonempty_or old text
