-- ===== src/Mqtt/Connect.antt =====
-- client/src/transport/mqtt/mqtt_client.c: `mqtt_connect`, and the calls that end a client.
pub mod Handle
pub mod Wait
use accel_observer.Prelude.{
  ℕ, zero, suc, ◌+◌, ◌%◌, ◌^◌, Bool, true, false, not, ◌||◌, List, [], ◌∷◌, ◌++◌, Option, none,
  some, ltb, leb, ◌==◌, if◌then◌else◌, length, take, Bytes, codes, u64,
}
use accel_observer.Prelude.Int.{ℤ, pos, is_int, to_int}
use accel_observer.Prelude.Text.{show_decimal}
use accel_observer.Mqtt.Client.{
  MqttError, ok, param, alloc, connect, connack, timeout, auth, tls, lib, MqttClient, fresh_client,
  Store, apply_stores, MosqCode, is_success,
}

-- `mqtt_tls_config_t`, `mqtt_will_config_t` and `mqtt_config_t`; `none` is a null pointer
pub record TlsConfig : Type 0 where
  pub enabled : Bool
  pub cafile : Option Bytes
  pub capath : Option Bytes
  pub certfile : Option Bytes
  pub keyfile : Option Bytes
  pub ciphers : Option Bytes
  pub insecure : Bool
  pub tls_version : ℤ

pub record WillConfig : Type 0 where
  pub topic : Option Bytes
  pub payload : Option Bytes
  pub qos : ℤ
  pub retain : Bool

pub record MqttConfig : Type 0 where
  pub host : Option Bytes
  pub port : ℕ
  pub client_id : Option Bytes
  pub clean_session : Bool
  pub keepalive_sec : ℤ
  pub username : Option Bytes
  pub password : Option Bytes
  pub tls : TlsConfig
  pub will : WillConfig
  pub connect_timeout_ms : ℕ
  pub reconnect_delay_min_sec : ℕ
  pub reconnect_delay_max_sec : ℕ
  pub reconnect_exponential : Bool

-- A call of the library, with its arguments. `new` has whether it gives a client, `loop_start` what
-- it returns.
pub data Call : Type 0 where
  new : Bytes → Bool → Bool → Call
  username_pw_set : Option Bytes → Option Bytes → Call
  tls_set : Option Bytes → Option Bytes → Option Bytes → Option Bytes → Call
  tls_opts_set : ℕ → Option Bytes → Option Bytes → Call
  tls_insecure_set : Call
  will_set : Bytes → ℤ → Bytes → ℤ → Bool → Call
  reconnect_delay_set : ℕ → ℕ → Bool → Call
  connect_to : Bytes → ℕ → ℤ → Call
  loop_start : MosqCode → Call
  loop_stop : Bool → Call
  disconnect destroy : Call

-- What the system answers in one run of `mqtt_connect`: each call is made once at most.
pub record Answers : Type 0 where
  pub allocated : Bool
  pub created : Bool
  pub username_pw_set_rc : MosqCode
  pub tls_set_rc : MosqCode
  pub tls_opts_set_rc : MosqCode
  pub connect_rc : MosqCode
  pub loop_start_rc : MosqCode
  pub pid : ℕ
  pub id_ms : ℕ
  pub start_ms : ℕ

-- A round of the loop that waits: what the library's thread stores before the flag is loaded, and the
-- clock when it is compared with the deadline.
pub record Round : Type 0 where
  pub stores : List Store
  pub now_ms : ℕ

abbrev pub is_set : Option Bytes → Bool
is_set none = false
is_set (some []) = false
is_set (some (c ∷ cs)) = true

-- A part of `mqtt_connect`: the code that it fails with, or `ok`, and the calls that it makes.
abbrev pub Part : Type 0
Part = MqttError × List Call

infixl 5 ◌>>◌
abbrev pub ◌>>◌ : Part → Part → Part
(ok, calls) >> next = (next.0, calls ++ next.1)
(code, calls) >> next = (code, calls)

abbrev pub checked : MosqCode → MqttError → Call → Part
checked rc code call = (if is_success rc then ok else code, call ∷ [])

abbrev pub done : Part
done = (ok, [])

-- `generate_client_id`, into 64 bytes
unfoldable pub generate_client_id : ℕ → ℕ → Bytes
generate_client_id pid now_ms =
    take 63 (codes "mqtt-client-" ++ (show_decimal pid ++ (codes "-" ++ show_decimal now_ms)))

abbrev pub id_or : Bytes → Option Bytes → Bytes
id_or auto_id none = auto_id
id_or auto_id (some []) = auto_id
id_or auto_id (some (c ∷ cs)) = c ∷ cs

unfoldable pub authenticate : MqttConfig → Answers → Part
authenticate cfg ans =
    if is_set cfg.username
    then checked ans.username_pw_set_rc auth (username_pw_set cfg.username cfg.password)
    else done

-- `ver_str`
unfoldable pub tls_version_str : ℤ → Option Bytes
tls_version_str version =
    if is_int 1 version
    then some (codes "tlsv1")
    else if is_int 2 version
    then some (codes "tlsv1.1")
    else if is_int 3 version
    then some (codes "tlsv1.2")
    else none

-- A failure of `mosquitto_tls_insecure_set` is only printed.
unfoldable pub set_tls : TlsConfig → Answers → Part
unfolding tls_version_str
set_tls t ans =
    if t.enabled
    then checked ans.tls_set_rc tls (tls_set t.cafile t.capath t.certfile t.keyfile)
      >> checked ans.tls_opts_set_rc tls
          (tls_opts_set (if t.insecure then 0 else 1) (tls_version_str t.tls_version) t.ciphers)
      >> (if t.insecure then (ok, tls_insecure_set ∷ []) else done)
    else done

abbrev pub text_or_empty : Option Bytes → Bytes
text_or_empty none = []
text_or_empty (some text) = text

-- A failure of `mosquitto_will_set` is only printed.
unfoldable pub set_will : WillConfig → Part
set_will w =
    if is_set w.topic
    then (
      ok,
      will_set (text_or_empty w.topic) (to_int (length (text_or_empty w.payload)))
            (text_or_empty w.payload) w.qos w.retain
          ∷ [],
    )
    else done

abbrev pub positive_or : ℕ → ℕ → ℕ
positive_or fallback n = if ltb 0 n then n else fallback

abbrev pub keepalive_of : ℤ → ℤ
keepalive_of (pos n) = pos (positive_or 60 n)
keepalive_of other = pos 60

unfoldable pub start_session : MqttConfig → Bytes → Answers → Part
start_session cfg host ans =
    (
      ok,
      reconnect_delay_set (positive_or 1 cfg.reconnect_delay_min_sec)
            (positive_or 30 cfg.reconnect_delay_max_sec) cfg.reconnect_exponential
          ∷ [],
    )
    >> checked ans.connect_rc connect (connect_to host cfg.port (keepalive_of cfg.keepalive_sec))
    >> checked ans.loop_start_rc lib (loop_start ans.loop_start_rc)

-- The loop that waits for the CONNACK, over the rounds that happen. `none`: it is still waiting after
-- the last one. The Boolean is false at a timeout.
unfoldable pub wait_connack : ℕ → List Round → MqttClient → Option (Bool × MqttClient)
unfolding apply_stores
wait_connack deadline [] c = none
wait_connack deadline (r ∷ rs) c =
    let seen = apply_stores r.stores c in
    let later = wait_connack deadline rs seen in
    if seen.connack_received
    then some (true, seen)
    else if leb deadline r.now_ms
    then some (false, seen)
    else later

-- the code for a return code of the broker that is not 0
unfoldable pub refused_code : ℤ → MqttError
refused_code rc = if is_int 4 rc || is_int 5 rc then auth else connack

-- what is left of `mqtt_connect` once the wait has ended
unfoldable pub after_wait : Bool × MqttClient → Part
unfolding refused_code
after_wait (false, c) = (timeout, loop_stop true ∷ [])
after_wait (true, c) =
    if is_int 0 c.connack_rc then done else (refused_code c.connack_rc, loop_stop true ∷ [])

-- the end of `mqtt_connect`, with the label `fail_destroy`
abbrev pub Outcome : Type 0
Outcome = MqttError × Option MqttClient × List Call

abbrev pub finish : Part → MqttClient → Outcome
finish (ok, calls) c = (ok, some c, calls)
finish (code, calls) c = (code, none, calls ++ destroy ∷ [])

unfoldable pub set_up : MqttConfig → Bytes → Bytes → Answers → Part
unfolding authenticate set_tls set_will start_session
set_up cfg host cid ans =
    (ok, new cid cfg.clean_session true ∷ [])
    >> authenticate cfg ans
    >> set_tls cfg.tls ans
    >> set_will cfg.will
    >> start_session cfg host ans

abbrev pub waited : Part → Option (Bool × MqttClient) → Option Outcome
waited before none = none
waited before (some (received, c)) = some (finish (before >> after_wait (received, c)) c)

-- after the set-up: a failure ends the call, else the wait begins
abbrev pub then_wait : ℕ → List Round → Part → Option Outcome
then_wait deadline rounds (ok, calls) =
    waited (ok, calls) (wait_connack deadline rounds fresh_client)
then_wait deadline rounds (code, calls) = some (finish (code, calls) fresh_client)

-- `timeout_ms` is a `uint32_t`
abbrev pub deadline_of : MqttConfig → Answers → ℕ
deadline_of cfg ans = u64 (ans.start_ms + positive_or 10000 cfg.connect_timeout_ms)

-- `cid`
abbrev pub chosen_id : MqttConfig → Answers → Bytes
chosen_id cfg ans = id_or (generate_client_id ans.pid ans.id_ms) cfg.client_id

abbrev pub connect_host : MqttConfig → Answers → List Round → Option Bytes → Option Outcome
connect_host cfg ans rounds none = some (param, none, [])
connect_host cfg ans rounds (some host) =
    if cfg.port == 0
    then some (param, none, [])
    else if not ans.allocated
    then some (alloc, none, [])
    else if not ans.created
    then some (alloc, none, new (chosen_id cfg ans) cfg.clean_session false ∷ [])
    else then_wait (deadline_of cfg ans) rounds (set_up cfg host (chosen_id cfg ans) ans)

-- `mqtt_connect` with a configuration and `err_out` that are no null pointers. `none`: it still waits.
unfoldable pub mqtt_connect : MqttConfig → Answers → List Round → Option Outcome
unfolding set_up wait_connack after_wait generate_client_id
mqtt_connect cfg ans rounds = connect_host cfg ans rounds cfg.host

-- `mqtt_disconnect` and `mqtt_destroy`, on a client that `mqtt_connect` has returned
unfoldable pub mqtt_disconnect : List Call
mqtt_disconnect = disconnect ∷ loop_stop false ∷ destroy ∷ []

unfoldable pub mqtt_destroy : List Call
mqtt_destroy = loop_stop true ∷ destroy ∷ []
