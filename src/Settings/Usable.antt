-- ===== src/Settings/Usable.antt =====
-- The ranges that the parts of the server need of its settings, and the command line, which keeps them.
pub mod File
pub mod Started
use accel_observer.Prelude.{
  ℕ, zero, suc, ◌+◌, ◌*◌, ◌/◌, ◌<◌, ◌≤◌, ◌≡◌, refl, sym, subst, ap, ◌∙◌, Bool, true, false, ◌&&◌,
  ◌||◌, List, [], ◌∷◌, Option, none, some, arith, ltb, leb, leb→le, ◌==◌, if◌then◌else◌, if_cases,
  if_either, Bool-cases, inl, inr, Bytes, codes,
}
use accel_observer.Prelude.Int.{ℤ, pos, negsuc, in_range}
use accel_observer.Prelude.Number.{Number, read_number, long_value, ulong_value, atoi}
use accel_observer.Conf.{ConfResult}
use accel_observer.Conf.Load.{conf_load}
use accel_observer.Conf.Lookup.{conf_has_key, conf_get_str}
use accel_observer.Conf.Find.{conf_find_config}
use accel_observer.Conf.Numbers.{conf_get_uint16, conf_get_uint16-le}
use accel_observer.Settings.{Config, Doubles, default_config}
use accel_observer.Settings.Arguments
use accel_observer.Settings.Arguments.{
  parse_port, parse_size, port_of, whole, number_or_old, clamp_qos, peek_bool, set_buffer, Flag,
  flag_of, value_of, apply_flag, Effect, go_on, parse_args,
}
use accel_observer.Settings.File.{
  safe_port, size_or, has, str, conf_transport, conf_connection, conf_mqtt, conf_will,
  conf_capacity, conf_storage, conf_logging, conf_web, conf_device, conf_validator, rest_of_file,
  apply_conf,
}
use accel_observer.Settings.Start.{
  auto_size, min_buffer, Start, exits_ok, exits_error, undefined, runs, asks_for_dump, from_args,
  from_file, with_file, extract_config_path, start,
}

-- a port number
abbrev pub IsPort : ℕ → Type 0
IsPort n = (0 < n) × (n ≤ 65535)

pub record IsUsable {D : Type 0} (cfg : Config D) : Type 0 where
  pub port : IsPort cfg.port
  pub web_port : IsPort cfg.web_port
  pub qos : in_range 2 cfg.mqtt_qos ≡ true
  pub will_qos : in_range 2 cfg.mqtt_will_qos ≡ true
  pub flushes : 0 < cfg.flush_interval_ms
  pub has_room : 0 < cfg.buffer_capacity

pub clamp_qos-in_range : (qos : ℤ) → in_range 2 (clamp_qos qos) ≡ true
unfolding clamp_qos
clamp_qos-in_range qos =
    if_cases (λ q. in_range 2 q ≡ true) (in_range 2 qos) qos (pos 0) (λ e. e) (λ e. refl)

-- 0 or a port
port_of-le : (v : ℤ) → port_of v ≤ 65535
port_of-le (pos n) =
    if_cases (λ r. r ≤ 65535) (leb n 65535) n 0 (λ e. leb→le n 65535 e) (λ e. omega arith)
port_of-le (negsuc n) = omega arith

whole-le :
    (value : Number → ℕ) (bound : ℕ) (o : Option Number)
    → ((n : Number) → value n ≤ bound)
    → whole value o ≤ bound
whole-le value bound none h = omega arith
whole-le value bound (some n) h = split n.rest
  where
    split : (rest : Bytes) → elim rest [ [] ↦ value n | c ∷ cs ↦ 0 ] ≤ bound
    split [] = h n
    split (c ∷ cs) = omega arith

parse_port-le : (s : Bytes) → parse_port s ≤ 65535
unfolding parse_port
parse_port-le s =
    whole-le (λ n. port_of (long_value n)) 65535 (read_number false s)
      (λ n. port_of-le (long_value n))

pub number_or_old-IsPort : (old n : ℕ) → IsPort old → n ≤ 65535 → IsPort (number_or_old old n)
number_or_old-IsPort old zero h k = h
number_or_old-IsPort old (suc n) h k = (omega arith, k)

pub number_or_old-pos : (old n : ℕ) → 0 < old → 0 < number_or_old old n
number_or_old-pos old zero h = h
number_or_old-pos old (suc n) h = omega arith

pub safe_port-IsPort :
    (conf : ConfResult) (section key : Bytes) (fallback : ℕ)
    → IsPort fallback
    → IsPort (safe_port conf section key fallback)
unfolding safe_port
safe_port-IsPort conf section key fallback h =
    let v = conf_get_uint16 conf section key 0 in
    let small = conf_get_uint16-le conf section key 0 (omega arith) in
    if_cases IsPort (v == 0) _ v
      (λ e. if_either IsPort (conf_has_key conf section key) fallback fallback h h)
      (λ e. ground arith)

module _ {D : Type 0} (doubles : Doubles D) where
  -- what an effect leaves, if the program goes on
  abbrev Keeps : Option (Effect D) → Type 0
  Keeps none = Unit
  Keeps (some (cfg, used)) = IsUsable cfg

  set_buffer-IsUsable : (n : ℕ) (cfg : Config D) → IsUsable cfg → IsUsable (set_buffer n cfg)
  set_buffer-IsUsable zero cfg h = h
  set_buffer-IsUsable (suc n) cfg h = ground arith

  apply_flag-IsUsable :
      (flag : Flag) (next : Option Bytes) (cfg : Config D)
      → IsUsable cfg
      → Keeps (apply_flag doubles flag next cfg)
  unfolding apply_flag
  apply_flag-IsUsable Flag.help next cfg h = tt
  apply_flag-IsUsable Flag.port next cfg h = record {
    port =
        number_or_old-IsPort cfg.port (parse_port (value_of next)) h.port
          (parse_port-le (value_of next));
    web_port = h.web_port;
    qos = h.qos;
    will_qos = h.will_qos;
    flushes = h.flushes;
    has_room = h.has_room;
  }
  apply_flag-IsUsable Flag.webport next cfg h = record {
    port = h.port;
    web_port =
        number_or_old-IsPort cfg.web_port (parse_port (value_of next)) h.web_port
          (parse_port-le (value_of next));
    qos = h.qos;
    will_qos = h.will_qos;
    flushes = h.flushes;
    has_room = h.has_room;
  }
  apply_flag-IsUsable Flag.mqtt_qos next cfg h = record {
    port = h.port;
    web_port = h.web_port;
    qos = clamp_qos-in_range (atoi (value_of next));
    will_qos = h.will_qos;
    flushes = h.flushes;
    has_room = h.has_room;
  }
  apply_flag-IsUsable Flag.will_qos next cfg h = record {
    port = h.port;
    web_port = h.web_port;
    qos = h.qos;
    will_qos = clamp_qos-in_range (atoi (value_of next));
    flushes = h.flushes;
    has_room = h.has_room;
  }
  apply_flag-IsUsable Flag.buf next cfg h = set_buffer-IsUsable (parse_size (value_of next)) cfg h
  apply_flag-IsUsable Flag.flush_ms next cfg h = record {
    port = h.port;
    web_port = h.web_port;
    qos = h.qos;
    will_qos = h.will_qos;
    flushes = number_or_old-pos cfg.flush_interval_ms (parse_size (value_of next)) h.flushes;
    has_room = h.has_room;
  }
  apply_flag-IsUsable _ next cfg h = record {
    port = h.port;
    web_port = h.web_port;
    qos = h.qos;
    will_qos = h.will_qos;
    flushes = h.flushes;
    has_room = h.has_room;
  }

  abbrev pub IfUsable : Option (Config D) → Type 0
  IfUsable none = Unit
  IfUsable (some cfg) = IsUsable cfg

  go_on-IsUsable :
      (behind past : Config D → Option (Config D)) (effect : Option (Effect D))
      → ((cfg : Config D) → IsUsable cfg → IfUsable (behind cfg))
      → ((cfg : Config D) → IsUsable cfg → IfUsable (past cfg))
      → Keeps effect
      → IfUsable (go_on doubles behind past effect)
  go_on-IsUsable behind past none f g h = tt
  go_on-IsUsable behind past (some (cfg, true)) f g h = g cfg h
  go_on-IsUsable behind past (some (cfg, false)) f g h = f cfg h

  pub parse_args-IsUsable :
      (args : List Bytes) (cfg : Config D) → IsUsable cfg → IfUsable (parse_args doubles args cfg)
  unfolding parse_args
  parse_args-IsUsable [] cfg h = h
  parse_args-IsUsable (a ∷ []) cfg h =
      go_on-IsUsable some some (apply_flag doubles (flag_of a) none cfg) (λ c k. k) (λ c k. k)
        (apply_flag-IsUsable (flag_of a) none cfg h)
  parse_args-IsUsable (a ∷ b ∷ rest) cfg h =
      go_on-IsUsable (parse_args doubles (b ∷ rest)) (parse_args doubles rest)
        (apply_flag doubles (flag_of a) (some b) cfg) (λ c. parse_args-IsUsable (b ∷ rest) c)
        (λ c. parse_args-IsUsable rest c) (apply_flag-IsUsable (flag_of a) (some b) cfg h)
