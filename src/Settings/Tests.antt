-- ===== src/Settings/Tests.antt =====
-- A start of the server from a file and arguments.
use accel_observer.Prelude.{
  ℕ, ◌<◌, ◌≤◌, ◌^◌, ◌≡◌, refl, Bool, true, false, List, [], ◌∷◌, Option, none, some, arith,
  if◌then◌else◌, Bytes, codes,
}
use accel_observer.Prelude.Int.{pos, negsuc}
use accel_observer.Prelude.Text.{show_decimal, same_text}
use accel_observer.Prelude.Number.{atoi}
use accel_observer.Conf.Load.{conf_load}
use accel_observer.Settings.{Config, Doubles, web_socket, default_config}
use accel_observer.Settings.Arguments.{parse_args}
use accel_observer.Settings.File.{apply_conf}
use accel_observer.Settings.Numbers.{parse_args-numbers}
use accel_observer.Settings.Start.{undefined, runs, start}
use accel_observer.Settings.Usable.{IsUsable}
use accel_observer.Settings.Usable.Started.{HasRoom, start-IsUsable}

-- No text is a double here.
abbrev no_doubles : Doubles ℕ
no_doubles = record { strtod = λ _. none; to_float = λ d. d; zero = 0; sixteen = 16 }

numbers :
    (atoi (codes " -12x") ≡ negsuc 11)
    × (atoi (codes "4294967298") ≡ pos 2)
    × (atoi (codes "x") ≡ pos 0)
unfolding atoi
numbers = (refl, refl, refl)

abbrev the_path : Bytes
the_path = codes "./gaccelserver.conf"

abbrev exists : Bytes → Bool
exists path = same_text path the_path

abbrev contents : Bytes → Option Bytes
contents path = some (
    codes
      "[connection]\nhost = h\nport = 0x10\n[mqtt]\nqos = 9\n[storage]\nflush_interval_ms = 1000\n[web]\nport = 99999\n")

abbrev arguments : List Bytes
arguments =
    codes "--webiface"
    ∷ codes "No"
    ∷ codes "--protocol"
    ∷ codes "WS"
    ∷ codes "--port"
    ∷ codes "0"
    ∷ []

abbrev settings : Config ℕ
settings = record (default_config no_doubles) {
  transport = web_socket;
  host = codes "h";
  port = 16;
  mqtt_qos = pos 0;
  buffer_capacity = 4096;
  flush_interval_ms = 1000;
  web_enabled = false;
}

started : start no_doubles exists contents none arguments ≡ runs settings
unfolding start accel_observer.Conf.Find.conf_find_config apply_conf
    accel_observer.Conf.Lookup.conf_get_str conf_load accel_observer.Conf.Strings.str_trim
    accel_observer.Conf.conf_push accel_observer.Conf.Strings.str_tolower parse_args
    accel_observer.Settings.str_lower accel_observer.Conf.Lookup.conf_has_key default_config
    accel_observer.Conf.Numbers.conf_get_size accel_observer.Conf.Strings.str_unquote
    accel_observer.Prelude.Number.long_value accel_observer.Conf.Numbers.conf_get_int
    accel_observer.Conf.Lookup.conf_get_bool accel_observer.Conf.Numbers.conf_get_uint16
    accel_observer.Conf.Numbers.conf_get_uint32
started = refl

-- Without a host in the file a null pointer is given to `std::string`.
no_host : start no_doubles exists (λ path. some (codes "[mqtt]\nqos = 1\n")) none [] ≡ undefined
unfolding start accel_observer.Conf.Find.conf_find_config apply_conf
    accel_observer.Conf.Lookup.conf_get_str conf_load accel_observer.Conf.Strings.str_trim
    accel_observer.Conf.conf_push accel_observer.Conf.Strings.str_tolower
no_host = refl

start-IsUsable_example : IsUsable settings × HasRoom settings
start-IsUsable_example = start-IsUsable no_doubles exists contents none arguments settings started

parse_args-numbers_example :
    (parse_args no_doubles (codes "--port" ∷ show_decimal 8080 ∷ arguments) settings
      ≡ parse_args no_doubles arguments (record settings { port = 8080 }))
    × (parse_args no_doubles (codes "--webport" ∷ show_decimal 8080 ∷ arguments) settings
        ≡ parse_args no_doubles arguments (record settings { web_port = 8080 }))
    × (parse_args no_doubles (codes "--flush-ms" ∷ show_decimal 5000000000 ∷ arguments) settings
        ≡ parse_args no_doubles arguments (record settings { flush_interval_ms = 5000000000 }))
    × (parse_args no_doubles (codes "--buf" ∷ show_decimal 5000000000 ∷ arguments) settings
        ≡ parse_args no_doubles arguments
            (record settings { buffer_capacity = 5000000000; auto_buffer = false }))
parse_args-numbers_example =
    parse_args-numbers no_doubles 8080 5000000000 arguments settings (omega arith) (omega arith)
      (omega arith) (omega arith)
