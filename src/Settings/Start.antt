-- ===== src/Settings/Start.antt =====
-- server/src/main.cpp: how `main` comes to its settings, and what it makes of them.
use accel_observer.Prelude.{
  ℕ, ◌*◌, ◌/◌, Bool, true, false, ◌||◌, List, [], ◌∷◌, ◌++◌, Option, none, some, ltb, ◌==◌,
  if◌then◌else◌, Bytes, codes,
}
use accel_observer.Prelude.Text.{same_text}
use accel_observer.Conf.Load.{conf_load}
use accel_observer.Conf.Find.{conf_find_config}
use accel_observer.Mqtt.Subscriber.{SubCall, MqttWill, MqttSubscriber, subscriber}
use accel_observer.Settings.{Config, Doubles, default_config}
use accel_observer.Settings.Arguments.{parse_args}
use accel_observer.Settings.File.{apply_conf}

-- on the arguments behind the program's name
unfoldable pub extract_config_path : List Bytes → Option Bytes
extract_config_path [] = none
extract_config_path (a ∷ []) = none
extract_config_path (a ∷ b ∷ rest) =
    if same_text a (codes "--config") then some b else extract_config_path (b ∷ rest)

unfoldable pub asks_for_dump : List Bytes → Bool
asks_for_dump [] = false
asks_for_dump (a ∷ rest) = same_text a (codes "--dump-config") || asks_for_dump rest

-- `auto_buffer`: room for 200 packets a second over two flush intervals. The product of doubles is
-- exact below the cast, for intervals below 2^45.
abbrev pub min_buffer : ℕ → ℕ
min_buffer flush_interval_ms =
    let min_buf = flush_interval_ms * 2 / 5 in if ltb min_buf 64 then 64 else min_buf

unfoldable pub auto_size : {D : Type 0} → Config D → Config D
auto_size cfg =
    if cfg.auto_buffer
    then (if ltb cfg.buffer_capacity (min_buffer cfg.flush_interval_ms)
        then record cfg { buffer_capacity = min_buffer cfg.flush_interval_ms }
        else cfg)
    else cfg

-- How the first steps of `main` end; `undefined` is a null pointer given to `std::string`.
pub data Start (D : Type 0) : Type 0 where
  exits_ok exits_error undefined : Start D
  runs : Config D → Start D

-- The file system and the user's home directory are parameters.
module _ {D : Type 0} (doubles : Doubles D) (file_exists : Bytes → Bool)
    (read_file : Bytes → Option Bytes) (home : Option Bytes) where
  abbrev pub has_path : Option Bytes → Bool
  has_path none = false
  has_path (some path) = true

  abbrev pub from_args : List Bytes → Option (Config D) → Start D
  from_args args none = exits_ok
  from_args args (some cfg) = if asks_for_dump args then exits_ok else runs (auto_size cfg)

  abbrev pub from_file : List Bytes → Option (Config D) → Start D
  from_file args none = undefined
  from_file args (some cfg) = from_args args (parse_args doubles args cfg)

  -- `explicit_path`, and what `conf_find_config` gives
  abbrev pub with_file : List Bytes → Option Bytes → Bool × Bytes → Start D
  with_file args explicit_path (true, path) =
      from_file args (apply_conf doubles (conf_load (read_file path)) (default_config doubles))
  with_file args explicit_path (false, path) =
      if has_path explicit_path
      then exits_error
      else from_args args (parse_args doubles args (default_config doubles))

  unfoldable pub start : List Bytes → Start D
  unfolding extract_config_path asks_for_dump auto_size
  start args =
      let explicit_path = extract_config_path args in
      with_file args explicit_path
        (conf_find_config file_exists (codes "gaccelserver") explicit_path home 512)

-- `out_path`
abbrev pub ends_in_separator : Bytes → Bool
ends_in_separator [] = false
ends_in_separator (c ∷ []) = (c == b'/') || (c == b'\\')
ends_in_separator (c ∷ d ∷ ds) = ends_in_separator (d ∷ ds)

unfoldable pub output_path : Bytes → Bytes → Bytes
output_path (c ∷ cs) store_path = c ∷ cs
output_path [] [] = []
output_path [] (c ∷ cs) = if ends_in_separator (c ∷ cs) then c ∷ cs else (c ∷ cs) ++ codes "/"

-- the last will, with the default topic
abbrev pub topic_or : Bytes → Bytes → Bytes
topic_or fallback [] = fallback
topic_or fallback (c ∷ cs) = c ∷ cs

unfoldable pub will_of : {D : Type 0} → Config D → MqttWill
will_of cfg = record {
  topic = topic_or (cfg.mqtt_topic ++ codes "/status") cfg.mqtt_will_topic;
  payload = cfg.mqtt_will_payload;
  qos = cfg.mqtt_will_qos;
  retain = cfg.mqtt_will_retain;
}

-- the subscriber for MQTT; `created` is whether the library gives a client
unfoldable pub subscriber_of :
    {D : Type 0} → Config D → Bool → Option (MqttSubscriber × List SubCall)
unfolding will_of
subscriber_of cfg created =
    subscriber cfg.mqtt_client_id cfg.mqtt_topic cfg.mqtt_qos cfg.mqtt_username cfg.mqtt_password
      (will_of cfg) cfg.mqtt_keepalive created
