-- ===== src/Settings/Arguments.antt =====
-- server/src/conf/cliargsparser.cpp: the command line.
use accel_observer.Prelude.{
  ℕ, zero, suc, Bool, true, false, ◌||◌, List, [], ◌∷◌, Option, none, some, leb, ◌==◌,
  if◌then◌else◌, Bytes, codes,
}
use accel_observer.Prelude.Int.{ℤ, pos, negsuc, in_range}
use accel_observer.Prelude.Text.{same_text}
use accel_observer.Prelude.Number.{Number, read_number, long_value, ulong_value, atoi}
use accel_observer.Settings.{
  TransportType, mqtt, web_socket, Config, Doubles, str_lower, nonempty_or,
}

-- a number that is the whole text; 0 stands for anything else
abbrev pub whole : (Number → ℕ) → Option Number → ℕ
whole value none = 0
whole value (some n) = elim n.rest [ [] ↦ value n | c ∷ cs ↦ 0 ]

abbrev pub port_of : ℤ → ℕ
port_of (pos n) = if leb n 65535 then n else 0
port_of (negsuc n) = 0

-- 0 stands for "ignore", also for an empty text
unfoldable pub parse_port : Bytes → ℕ
parse_port s = whole (λ n. port_of (long_value n)) (read_number false s)

unfoldable pub parse_size : Bytes → ℕ
parse_size s = whole ulong_value (read_number false s)

abbrev pub number_or_old : ℕ → ℕ → ℕ
number_or_old old zero = old
number_or_old old (suc n) = suc n

unfoldable pub clamp_qos : ℤ → ℤ
clamp_qos qos = if in_range 2 qos then qos else pos 0

-- The value, and whether the next token is consumed.
abbrev pub bool_word : Bool → Bytes → Bool × Bool
bool_word default_val lv =
    if same_text lv (codes "true")
      || (same_text lv (codes "1") || (same_text lv (codes "yes") || same_text lv (codes "on")))
    then (true, true)
    else if same_text lv (codes "false")
        || (same_text lv (codes "0") || (same_text lv (codes "no") || same_text lv (codes "off")))
    then (false, true)
    else (default_val, false)

unfoldable pub peek_bool : Option Bytes → Bool → Bool × Bool
peek_bool none default_val = (default_val, false)
peek_bool (some []) default_val = bool_word default_val (str_lower [])
peek_bool (some (c ∷ cs)) default_val =
    if c == b'-' then (default_val, false) else bool_word default_val (str_lower (c ∷ cs))

-- `cfg.transport` for the value of `--protocol`, lowered
unfoldable pub transport_of : TransportType → Bytes → TransportType
transport_of old p =
    if same_text p (codes "mqtt")
    then mqtt
    else if same_text p (codes "ws") || same_text p (codes "websocket")
    then web_socket
    else old

-- the options, as the chain of comparisons in `parse_args` tells them apart
pub data Flag : Type 0 where
  help config dump_config ws mqtt_flag protocol host port topic mqtt_id mqtt_user mqtt_pass mqtt_qos
        will_topic will_payload will_qos will_retain output storepath buf flush_ms csv_sep log
        no_log_stderr log_level webiface webhost webport timesource max_acc seq_optional unknown :
      Flag

unfoldable pub flag_of : Bytes → Flag
flag_of a =
    if same_text a (codes "--help") || same_text a (codes "-h")
    then help
    else if same_text a (codes "--config")
    then config
    else if same_text a (codes "--dump-config")
    then dump_config
    else if same_text a (codes "--ws")
    then ws
    else if same_text a (codes "--mqtt")
    then mqtt_flag
    else if same_text a (codes "--protocol")
    then protocol
    else if same_text a (codes "--host")
    then host
    else if same_text a (codes "--port")
    then port
    else if same_text a (codes "--topic")
    then topic
    else if same_text a (codes "--mqtt-id")
    then mqtt_id
    else if same_text a (codes "--mqtt-user")
    then mqtt_user
    else if same_text a (codes "--mqtt-pass")
    then mqtt_pass
    else if same_text a (codes "--mqtt-qos")
    then mqtt_qos
    else if same_text a (codes "--mqtt-will-topic")
    then will_topic
    else if same_text a (codes "--mqtt-will-payload")
    then will_payload
    else if same_text a (codes "--mqtt-will-qos")
    then will_qos
    else if same_text a (codes "--mqtt-will-retain")
    then will_retain
    else if same_text a (codes "--output")
    then output
    else if same_text a (codes "--storepath")
    then storepath
    else if same_text a (codes "--buf")
    then buf
    else if same_text a (codes "--flush-ms")
    then flush_ms
    else if same_text a (codes "--csv-sep")
    then csv_sep
    else if same_text a (codes "--log")
    then log
    else if same_text a (codes "--no-log-stderr")
    then no_log_stderr
    else if same_text a (codes "--log-level")
    then log_level
    else if same_text a (codes "--webiface")
    then webiface
    else if same_text a (codes "--webhost")
    then webhost
    else if same_text a (codes "--webport")
    then webport
    else if same_text a (codes "--timesource")
    then timesource
    else if same_text a (codes "--max-acc")
    then max_acc
    else if same_text a (codes "--seq-optional")
    then seq_optional
    else unknown

-- what an option does; the Boolean is whether it consumes the next token, if there is one
abbrev pub Effect : Type 0 → Type 0
Effect D = Config D × Bool

abbrev pub value_of : Option Bytes → Bytes
value_of none = []
value_of (some v) = v

abbrev pub or_zero : {D : Type 0} → D → Option D → D
or_zero zero_d none = zero_d
or_zero zero_d (some d) = d

abbrev pub set_buffer : {D : Type 0} → ℕ → Config D → Config D
set_buffer zero cfg = cfg
set_buffer (suc n) cfg = record cfg { buffer_capacity = suc n; auto_buffer = false }

module _ {D : Type 0} (doubles : Doubles D) where
  -- `none`: the usage is printed and the program exits
  unfoldable pub apply_flag : Flag → Option Bytes → Config D → Option (Effect D)
  unfolding parse_port parse_size clamp_qos peek_bool transport_of
  apply_flag help next cfg = none
  apply_flag config next cfg = some (cfg, true)
  apply_flag dump_config next cfg = some (cfg, false)
  apply_flag ws next cfg = some (record cfg { transport = web_socket }, false)
  apply_flag mqtt_flag next cfg = some (record cfg { transport = mqtt }, false)
  apply_flag protocol next cfg =
      some (record cfg { transport = transport_of cfg.transport (str_lower (value_of next)) }, true)
  apply_flag host next cfg = some (record cfg { host = nonempty_or cfg.host (value_of next) }, true)
  apply_flag port next cfg =
      some (record cfg { port = number_or_old cfg.port (parse_port (value_of next)) }, true)
  apply_flag topic next cfg =
      some (record cfg { mqtt_topic = nonempty_or cfg.mqtt_topic (value_of next) }, true)
  apply_flag mqtt_id next cfg = some (record cfg { mqtt_client_id = value_of next }, true)
  apply_flag mqtt_user next cfg = some (record cfg { mqtt_username = value_of next }, true)
  apply_flag mqtt_pass next cfg = some (record cfg { mqtt_password = value_of next }, true)
  apply_flag mqtt_qos next cfg =
      some (record cfg { mqtt_qos = clamp_qos (atoi (value_of next)) }, true)
  apply_flag will_topic next cfg =
      some (record cfg { mqtt_will_topic = nonempty_or cfg.mqtt_will_topic (value_of next) }, true)
  apply_flag will_payload next cfg = some (record cfg { mqtt_will_payload = value_of next }, true)
  apply_flag will_qos next cfg =
      some (record cfg { mqtt_will_qos = clamp_qos (atoi (value_of next)) }, true)
  apply_flag will_retain next cfg =
      let (value, used) = peek_bool next true in
      some (record cfg { mqtt_will_retain = value }, used)
  apply_flag output next cfg = some (record cfg { output_file = value_of next }, true)
  apply_flag storepath next cfg = some (record cfg { store_path = value_of next }, true)
  apply_flag buf next cfg = some (set_buffer (parse_size (value_of next)) cfg, true)
  apply_flag flush_ms next cfg = some (
    record cfg {
      flush_interval_ms = number_or_old cfg.flush_interval_ms (parse_size (value_of next));
    },
    true,
  )
  apply_flag csv_sep next cfg = some (record cfg { csv_separator = value_of next }, true)
  apply_flag log next cfg =
      some (record cfg { log_file = nonempty_or cfg.log_file (value_of next) }, true)
  apply_flag no_log_stderr next cfg = some (record cfg { log_also_stderr = false }, false)
  apply_flag log_level next cfg =
      some (record cfg { log_level = nonempty_or cfg.log_level (value_of next) }, true)
  apply_flag webiface next cfg =
      let (value, used) = peek_bool next true in some (record cfg { web_enabled = value }, used)
  apply_flag webhost next cfg =
      some (record cfg { web_host = nonempty_or cfg.web_host (value_of next) }, true)
  apply_flag webport next cfg =
      some (record cfg { web_port = number_or_old cfg.web_port (parse_port (value_of next)) }, true)
  apply_flag timesource next cfg =
      some (record cfg { timesource = nonempty_or cfg.timesource (value_of next) }, true)
  apply_flag max_acc next cfg =
      some
        (record cfg { max_acc_ms2 = or_zero doubles.zero (doubles.strtod (value_of next)) }, true)
  apply_flag seq_optional next cfg = some (record cfg { seq_optional = true }, false)
  apply_flag unknown next cfg = some (cfg, false)

  -- the loop goes on behind the option, or behind the token that it has consumed
  abbrev pub go_on :
      (Config D → Option (Config D))
      → (Config D → Option (Config D))
      → Option (Effect D)
      → Option (Config D)
  go_on behind past none = none
  go_on behind past (some (cfg, true)) = past cfg
  go_on behind past (some (cfg, false)) = behind cfg

  -- `parse_args`, on the arguments behind the program's name; `none` is the exit after `--help`
  unfoldable pub parse_args : List Bytes → Config D → Option (Config D)
  unfolding apply_flag flag_of
  parse_args [] cfg = some cfg
  parse_args (a ∷ []) cfg = go_on some some (apply_flag (flag_of a) none cfg)
  parse_args (a ∷ b ∷ rest) cfg =
      go_on (parse_args (b ∷ rest)) (parse_args rest) (apply_flag (flag_of a) (some b) cfg)
