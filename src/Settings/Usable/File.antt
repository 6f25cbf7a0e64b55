-- ===== src/Settings/Usable/File.antt =====
-- The configuration file keeps the settings in their ranges.
use accel_observer.Prelude.{
  ◌≡◌, true, Option, none, some, arith, ◌==◌, if_cases, if_either, Bytes, codes,
}
use accel_observer.Prelude.Int.{in_range}
use accel_observer.Conf.{ConfResult}
use accel_observer.Settings.{Config, Doubles, text_or_old}
use accel_observer.Settings.File.{
  size_or, int_or, has, str, conf_transport, conf_connection, conf_mqtt, conf_will, conf_capacity,
  conf_storage, conf_logging, conf_web, conf_device, conf_validator, rest_of_file, apply_conf,
}
use accel_observer.Settings.Usable.{
  IsUsable, IfUsable, clamp_qos-in_range, number_or_old-pos, safe_port-IsPort,
}

module _ {D : Type 0} (doubles : Doubles D) (conf : ConfResult) where
  conf_capacity-IsUsable :
      (cfg : Config D) → IsUsable cfg → IsUsable (conf_capacity doubles conf cfg)
  unfolding conf_capacity
  conf_capacity-IsUsable cfg h =
      if_either IsUsable (has conf "storage" "buffer_capacity") _ cfg
        (if_cases IsUsable (size_or conf "storage" "buffer_capacity" 0 == 0) cfg _ (λ e. h)
          (λ e. record {
            port = h.port;
            web_port = h.web_port;
            qos = h.qos;
            will_qos = h.will_qos;
            flushes = h.flushes;
            has_room = ground arith;
          }))
        h

  conf_storage-IsUsable : (cfg : Config D) → IsUsable cfg → IsUsable (conf_storage doubles conf cfg)
  unfolding conf_storage
  conf_storage-IsUsable cfg h =
      let named = record cfg {
        output_file = text_or_old cfg.output_file (str conf "storage" "output");
        store_path = text_or_old cfg.store_path (str conf "storage" "store_path");
      } in
      let sized : IsUsable (conf_capacity doubles conf named) =
        conf_capacity-IsUsable named (record {
          port = h.port;
          web_port = h.web_port;
          qos = h.qos;
          will_qos = h.will_qos;
          flushes = h.flushes;
          has_room = h.has_room;
        }) in
      let old = (conf_capacity doubles conf named).flush_interval_ms in
      record {
        port = sized.port;
        web_port = sized.web_port;
        qos = sized.qos;
        will_qos = sized.will_qos;
        flushes =
            number_or_old-pos old (size_or conf "storage" "flush_interval_ms" old) sized.flushes;
        has_room = sized.has_room;
      }

  conf_mqtt-IsUsable : (cfg : Config D) → IsUsable cfg → IsUsable (conf_mqtt doubles conf cfg)
  unfolding conf_mqtt
  conf_mqtt-IsUsable cfg h = record {
    port = h.port;
    web_port = h.web_port;
    qos = clamp_qos-in_range (int_or conf "mqtt" "qos" cfg.mqtt_qos);
    will_qos = h.will_qos;
    flushes = h.flushes;
    has_room = h.has_room;
  }

  conf_will-IsUsable : (cfg : Config D) → IsUsable cfg → IsUsable (conf_will doubles conf cfg)
  unfolding conf_will
  conf_will-IsUsable cfg h = record {
    port = h.port;
    web_port = h.web_port;
    qos = h.qos;
    will_qos =
        if_either (λ q. in_range 2 q ≡ true) (has conf "mqtt" "will_qos") _ cfg.mqtt_will_qos
          (clamp_qos-in_range (int_or conf "mqtt" "will_qos" cfg.mqtt_will_qos)) h.will_qos;
    flushes = h.flushes;
    has_room = h.has_room;
  }

  conf_web-IsUsable : (cfg : Config D) → IsUsable cfg → IsUsable (conf_web doubles conf cfg)
  unfolding conf_web
  conf_web-IsUsable cfg h = record {
    port = h.port;
    web_port = safe_port-IsPort conf (codes "web") (codes "port") cfg.web_port h.web_port;
    qos = h.qos;
    will_qos = h.will_qos;
    flushes = h.flushes;
    has_room = h.has_room;
  }

  -- The sections that leave the numbers alone.
  others-IsUsable :
      (cfg : Config D)
      → IsUsable cfg
      → IsUsable (conf_validator doubles conf (conf_device doubles conf cfg))
        × IsUsable (conf_logging doubles conf cfg)
        × IsUsable (conf_transport doubles conf cfg)
  unfolding conf_validator conf_device conf_logging conf_transport
  others-IsUsable cfg h = (grind arith, grind arith, grind arith)

  conf_connection-IsUsable :
      (host : Option Bytes) (cfg : Config D)
      → IsUsable cfg
      → IfUsable doubles (conf_connection doubles conf host cfg)
  unfolding conf_connection
  conf_connection-IsUsable none cfg h = tt
  conf_connection-IsUsable (some name) cfg h = record {
    port = safe_port-IsPort conf (codes "connection") (codes "port") cfg.port h.port;
    web_port = h.web_port;
    qos = h.qos;
    will_qos = h.will_qos;
    flushes = h.flushes;
    has_room = h.has_room;
  }

  rest_of_file-IsUsable :
      (o : Option (Config D)) → IfUsable doubles o → IfUsable doubles (rest_of_file doubles conf o)
  rest_of_file-IsUsable none h = tt
  rest_of_file-IsUsable (some cfg) h =
      let c1 = conf_mqtt doubles conf cfg in
      let c2 = conf_will doubles conf c1 in
      let c3 = conf_storage doubles conf c2 in
      let h3 = conf_storage-IsUsable c2 (conf_will-IsUsable c1 (conf_mqtt-IsUsable cfg h)) in
      let c4 = conf_logging doubles conf c3 in
      let h4 = (others-IsUsable c3 h3).1 in
      (others-IsUsable (conf_web doubles conf c4) (conf_web-IsUsable c4 h4)).0

  pub apply_conf-IsUsable :
      (cfg : Config D) → IsUsable cfg → IfUsable doubles (apply_conf doubles conf cfg)
  unfolding apply_conf
  apply_conf-IsUsable cfg h =
      let host = str conf "connection" "host" in
      let first = conf_transport doubles conf cfg in
      rest_of_file-IsUsable (conf_connection doubles conf host first)
        (conf_connection-IsUsable host first (others-IsUsable cfg h).2)
