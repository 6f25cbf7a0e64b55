-- ===== src/Settings/Usable/Started.antt =====
-- The settings that the server starts with are in these ranges, whatever the file and the arguments say.
use accel_observer.Prelude.{
  ℕ, ◌+◌, ◌*◌, ◌<◌, ◌≤◌, ◌≡◌, refl, subst, Bool, true, false, List, Option, none, some, arith, ltb,
  ltb_false→le, if_cases, if_either, Bytes, codes,
}
use accel_observer.Conf.Load.{conf_load}
use accel_observer.Conf.Find.{conf_find_config}
use accel_observer.Settings.{Config, Doubles, default_config}
use accel_observer.Settings.Arguments.{parse_args}
use accel_observer.Settings.File.{apply_conf}
use accel_observer.Settings.Start.{
  auto_size, min_buffer, Start, exits_ok, exits_error, undefined, runs, asks_for_dump, from_args,
  has_path, from_file, with_file, extract_config_path, start,
}
use accel_observer.Settings.Usable.File.{apply_conf-IsUsable}
use accel_observer.Settings.Usable.{IsUsable, IfUsable, parse_args-IsUsable}

default-IsUsable : {D : Type 0} (doubles : Doubles D) → IsUsable (default_config doubles)
unfolding default_config
default-IsUsable doubles = record {
  port = omega arith;
  web_port = omega arith;
  qos = refl;
  will_qos = refl;
  flushes = omega arith;
  has_room = omega arith;
}

-- The buffer has room: any number of packets, or, where it is sized by the server, at least 64 and those
-- of two flush intervals at 200 packets a second.
abbrev pub HasRoom : {D : Type 0} → Config D → Type 0
HasRoom cfg =
    cfg.auto_buffer ≡ true
    → (64 ≤ cfg.buffer_capacity) × (2 * cfg.flush_interval_ms < 5 * (cfg.buffer_capacity + 1))

auto_size-HasRoom :
    {D : Type 0} (cfg : Config D)
    → IsUsable cfg
    → IsUsable (auto_size cfg) × HasRoom (auto_size cfg)
unfolding auto_size
auto_size-HasRoom {D} cfg h =
    let need = min_buffer cfg.flush_interval_ms in
    if_cases (λ (c : Config D). IsUsable c × HasRoom c) cfg.auto_buffer _ cfg
      (λ auto.
        if_cases (λ (c : Config D). IsUsable c × HasRoom c) (ltb cfg.buffer_capacity need) _ cfg
          (λ less. (
            record {
              port = h.port;
              web_port = h.web_port;
              qos = h.qos;
              will_qos = h.will_qos;
              flushes = h.flushes;
              has_room = omega (arith, (enough cfg.flush_interval_ms).0);
            },
            λ _. enough cfg.flush_interval_ms,
          ))
          (λ big. (
            h,
            λ _. (
              omega (
                arith,
                (enough cfg.flush_interval_ms).0,
                ltb_false→le cfg.buffer_capacity need big,
              ),
              omega (
                arith,
                (enough cfg.flush_interval_ms).1,
                ltb_false→le cfg.buffer_capacity need big,
              ),
            ),
          )))
      (λ manual. (h, λ auto. absurd (cc)))
  where
    enough : (f : ℕ) → (64 ≤ min_buffer f) × (2 * f < 5 * (min_buffer f + 1))
    enough f = (ground arith, ground arith)

-- A start that leads to running settings has usable ones, with room.
abbrev IfRuns : {D : Type 0} → Start D → Type 0
IfRuns exits_ok = Unit
IfRuns exits_error = Unit
IfRuns undefined = Unit
IfRuns (runs cfg) = IsUsable cfg × HasRoom cfg

module _ {D : Type 0} (doubles : Doubles D) where
  from_args-IfRuns :
      (file_exists : Bytes → Bool) (read_file : Bytes → Option Bytes) (home : Option Bytes)
      (args : List Bytes) (o : Option (Config D))
      → IfUsable doubles o
      → IfRuns (from_args doubles file_exists read_file home args o)
  from_args-IfRuns file_exists read_file home args none h = tt
  from_args-IfRuns file_exists read_file home args (some cfg) h =
      if_either IfRuns (asks_for_dump args) exits_ok (runs (auto_size cfg)) tt
        (auto_size-HasRoom cfg h)

  from_file-IfRuns :
      (file_exists : Bytes → Bool) (read_file : Bytes → Option Bytes) (home : Option Bytes)
      (args : List Bytes) (o : Option (Config D))
      → IfUsable doubles o
      → IfRuns (from_file doubles file_exists read_file home args o)
  from_file-IfRuns file_exists read_file home args none h = tt
  from_file-IfRuns file_exists read_file home args (some cfg) h =
      from_args-IfRuns file_exists read_file home args (parse_args doubles args cfg)
        (parse_args-IsUsable doubles args cfg h)

  with_file-IfRuns :
      (file_exists : Bytes → Bool) (read_file : Bytes → Option Bytes) (home : Option Bytes)
      (args : List Bytes) (path : Option Bytes) (found : Bool × Bytes)
      → IfRuns (with_file doubles file_exists read_file home args path found)
  with_file-IfRuns file_exists read_file home args path (true, file) =
      let conf = conf_load (read_file file) in
      from_file-IfRuns file_exists read_file home args
        (apply_conf doubles conf (default_config doubles))
        (apply_conf-IsUsable doubles conf (default_config doubles) (default-IsUsable doubles))
  with_file-IfRuns file_exists read_file home args path (false, file) =
      if_either IfRuns (has_path doubles file_exists read_file home path) exits_error _ tt (
        from_args-IfRuns file_exists read_file home args
          (parse_args doubles args (default_config doubles))
          (parse_args-IsUsable doubles args (default_config doubles) (default-IsUsable doubles)))

  -- Whatever the files hold and the arguments say: if the server comes to run, the two port numbers are
  -- from 1 to 65535, both QoS values from 0 to 2, the flush interval and the capacity of the buffer
  -- are not 0, and a buffer that is sized by the server holds at least 64 packets, and the packets of two
  -- flush intervals at 200 a second, rounded down.
  pub start-IsUsable :
      (file_exists : Bytes → Bool) (read_file : Bytes → Option Bytes) (home : Option Bytes)
      (args : List Bytes) (cfg : Config D)
      → start doubles file_exists read_file home args ≡ runs cfg
      → IsUsable cfg × HasRoom cfg
  unfolding start
  start-IsUsable file_exists read_file home args cfg e =
      let path = extract_config_path args in
      subst IfRuns e (
        with_file-IfRuns file_exists read_file home args path
          (conf_find_config file_exists (codes "gaccelserver") path home 512))
