-- ===== src/Mqtt/Client.antt =====
-- client/src/transport/mqtt/mqtt_client.c: the client's state, the callbacks and publishing.
use accel_observer.Prelude.{
  ℕ, ◌+◌, Bool, true, false, not, ◌&&◌, List, [], ◌∷◌, Option, none, some, ltb, ◌==◌, if◌then◌else◌,
  length, Bytes, u64,
}
use accel_observer.Prelude.Int.{ℤ, pos, is_int, in_range, to_int}
use accel_observer.Conf.Strings.{before_first}

-- `mqtt_error_code_t`
pub data MqttError : Type 0 where
  ok param alloc connect connack timeout auth tls publish disconnected lib : MqttError

-- `struct mqtt_client_t`, its atomic fields; `client_id_buf` and `default_qos` are never set
pub record MqttClient : Type 0 where
  pub connected : Bool
  pub connack_rc : ℤ
  pub connack_received : Bool
  pub disconnecting : Bool
  pub stat_published : ℕ
  pub stat_confirmed : ℕ
  pub stat_errors : ℕ
  pub stat_reconnects : ℕ

-- the state after `calloc` and the `atomic_init` calls
unfoldable pub fresh_client : MqttClient
fresh_client = record {
  connected = false;
  connack_rc = pos 0;
  connack_received = false;
  disconnecting = false;
  stat_published = 0;
  stat_confirmed = 0;
  stat_errors = 0;
  stat_reconnects = 0;
}

-- One atomic store of a callback. The library's thread runs the callbacks, so another thread may look
-- at the state between any two of them.
pub data Store : Type 0 where
  set_rc : ℤ → Store
  set_received set_connected : Bool → Store
  add_confirmed add_reconnects : Store

unfoldable pub apply_store : Store → MqttClient → MqttClient
apply_store (set_rc rc) c = record c { connack_rc = rc }
apply_store (set_received b) c = record c { connack_received = b }
apply_store (set_connected b) c = record c { connected = b }
apply_store add_confirmed c = record c { stat_confirmed = u64 (c.stat_confirmed + 1) }
apply_store add_reconnects c = record c { stat_reconnects = u64 (c.stat_reconnects + 1) }

unfoldable pub apply_stores : List Store → MqttClient → MqttClient
unfolding apply_store
apply_stores [] c = c
apply_stores (st ∷ sts) c = apply_stores sts (apply_store st c)

-- the callbacks, as the stores that they make, in order
unfoldable pub on_connect : ℤ → List Store
on_connect rc = set_rc rc ∷ set_received true ∷ set_connected (is_int 0 rc) ∷ []

-- `disconnecting` is what the load of that flag gives
unfoldable pub on_disconnect : Bool → ℤ → List Store
on_disconnect disconnecting rc =
    set_connected false
    ∷ (if not (is_int 0 rc) && not disconnecting
        then add_reconnects ∷ set_received false ∷ []
        else [])

unfoldable pub on_publish : List Store
on_publish = add_confirmed ∷ []

-- the arguments of a call of `mosquitto_publish`
pub record Published : Type 0 where
  pub topic : Bytes
  pub payloadlen : ℤ
  pub payload : Bytes
  pub qos : ℤ
  pub retain : Bool

-- what a call of libmosquitto returns: `MOSQ_ERR_SUCCESS`, `MOSQ_ERR_NO_CONN`, `MOSQ_ERR_CONN_LOST` or
-- another error
pub data MosqCode : Type 0 where
  success no_conn conn_lost other : MosqCode

abbrev pub is_success : MosqCode → Bool
is_success success = true
is_success _ = false

-- what follows the call of the library, which has returned `rc`
unfoldable pub after_publish : MosqCode → MqttClient → MqttError × MqttClient
after_publish success c = (ok, record c { stat_published = u64 (c.stat_published + 1) })
after_publish no_conn c = (disconnected, record c { stat_errors = u64 (c.stat_errors + 1) })
after_publish conn_lost c = (disconnected, record c { stat_errors = u64 (c.stat_errors + 1) })
after_publish other c = (publish, record c { stat_errors = u64 (c.stat_errors + 1) })

-- The payload's memory, and its length or 0 for a C string.
unfoldable pub payload_len : ℕ → Bytes → ℤ
payload_len len payload =
    if ltb 0 len then to_int len else to_int (length (before_first (λ c. c == 0) payload))

-- `mqtt_publish` on a client that is no null pointer; topic and payload may be one. `rc` is what the
-- library would answer. The result has the library's call, if one is made.
unfoldable pub mqtt_publish :
    Option Bytes
    → Option Bytes
    → ℕ
    → ℤ
    → Bool
    → MosqCode
    → MqttClient
    → MqttError × Option Published × MqttClient
unfolding after_publish payload_len
mqtt_publish none payload len qos retain rc c = (param, none, c)
mqtt_publish (some topic) none len qos retain rc c = (param, none, c)
mqtt_publish (some topic) (some payload) len qos retain rc c =
    if not (in_range 2 qos)
    then (param, none, c)
    else if not c.connected
    then (disconnected, none, c)
    else (let (code, c') = after_publish rc c in
        (
          code,
          some (record {
            topic = topic;
            payloadlen = payload_len len payload;
            payload = payload;
            qos = qos;
            retain = retain;
          }),
          c',
        ))

-- `mqtt_is_connected`; `none` is a null pointer
unfoldable pub mqtt_is_connected : Option MqttClient → Bool
mqtt_is_connected none = false
mqtt_is_connected (some c) = c.connected

-- `mqtt_stats_t`
pub record MqttStats : Type 0 where
  pub published : ℕ
  pub confirmed : ℕ
  pub errors : ℕ
  pub reconnects : ℕ

unfoldable pub mqtt_get_stats : MqttClient → MqttStats
mqtt_get_stats c = record {
  published = c.stat_published;
  confirmed = c.stat_confirmed;
  errors = c.stat_errors;
  reconnects = c.stat_reconnects;
}
