-- ===== src/Mqtt/Subscriber.antt =====
-- server/src/transport/mqtt/mqtt_subscriber.cpp: the set-up, the callbacks, and the library's loop.
pub mod Loop
use accel_observer.Prelude.{
  ℕ, suc, ◌+◌, ◌≡◌, refl, ap, ap₂, ◌∙◌, Bool, true, false, not, List, [], ◌∷◌, ◌++◌, Option, none,
  some, arith, if◌then◌else◌, Bool-cases, if_cases, inl, inr, sym, subst, length, take, Bytes,
}
use accel_observer.Prelude.Int.{ℤ, pos, negsuc, is_int, in_range, to_int}
use accel_observer.Mqtt.Client.{MosqCode, is_success}

-- a call of the library, with its arguments; `none` is a null pointer
pub data SubCall : Type 0 where
  new : Option Bytes → SubCall
  username_pw_set : Bytes → Option Bytes → SubCall
  will_set : Bytes → ℤ → Option Bytes → ℤ → Bool → SubCall
  reconnect_delay_set : ℕ → ℕ → SubCall
  connect_async : Bytes → ℕ → ℤ → SubCall
  subscribe : Bytes → ℤ → SubCall
  disconnect destroy : SubCall

-- `MqttWill`
pub record MqttWill : Type 0 where
  pub topic : Bytes
  pub payload : Bytes
  pub qos : ℤ
  pub retain : Bool

-- the data members of `MqttSubscriber`; `has_library` is `mosq_ != nullptr`
pub record MqttSubscriber : Type 0 where
  pub client_id : Bytes
  pub topic : Bytes
  pub qos : ℤ
  pub username : Bytes
  pub password : Bytes
  pub will : MqttWill
  pub keepalive : ℤ
  pub connected_host : Bytes
  pub connected_port : ℕ
  pub has_callback : Bool
  pub running : Bool
  pub connected : Bool
  pub has_library : Bool

unfoldable pub validate_qos : ℤ → ℤ
validate_qos qos = if in_range 2 qos then qos else pos 0

abbrev pub or_null : Bytes → Option Bytes
or_null [] = none
or_null (c ∷ cs) = some (c ∷ cs)

unfoldable pub user_calls : Bytes → Bytes → List SubCall
user_calls [] password = []
user_calls (c ∷ cs) password = username_pw_set (c ∷ cs) (or_null password) ∷ []

unfoldable pub will_calls : Bytes → MqttWill → List SubCall
unfolding validate_qos
will_calls [] will = []
will_calls (c ∷ cs) will =
    will_set (c ∷ cs) (to_int (length will.payload)) (or_null will.payload) (validate_qos will.qos)
      will.retain
    ∷ []

-- Failures of the calls after the first are only printed. `none` is the exception of a null client;
-- `created` is whether the library gives one.
unfoldable pub init_mosquitto : Bool → MqttSubscriber → Option (MqttSubscriber × List SubCall)
unfolding user_calls will_calls
init_mosquitto created s =
    if not created
    then none
    else some (
      record s { has_library = true },
      new (or_null s.client_id)
          ∷ (user_calls s.username s.password
              ++ (will_calls s.will.topic s.will ++ reconnect_delay_set 1 30 ∷ [])),
    )

-- the full constructor
unfoldable pub subscriber :
    Bytes → Bytes → ℤ → Bytes → Bytes → MqttWill → ℤ → Bool → Option (MqttSubscriber × List SubCall)
unfolding init_mosquitto validate_qos
subscriber client_id topic qos username password will keepalive created =
    init_mosquitto created (record {
      client_id = client_id;
      topic = topic;
      qos = validate_qos qos;
      username = username;
      password = password;
      will = will;
      keepalive = keepalive;
      connected_host = [];
      connected_port = 0;
      has_callback = false;
      running = false;
      connected = false;
      has_library = false;
    })

-- `connect`; `rc` is what `mosquitto_connect_async` returns
unfoldable pub connect :
    Bytes → ℕ → MosqCode → MqttSubscriber → Bool × MqttSubscriber × List SubCall
connect host port rc s = (
  is_success rc,
  record s { connected_host = host; connected_port = port },
  connect_async host port s.keepalive ∷ [],
)

unfoldable pub set_callback : MqttSubscriber → MqttSubscriber
set_callback s = record s { has_callback = true }

-- `stop`
unfoldable pub stop : MqttSubscriber → MqttSubscriber × List SubCall
stop s = (record s { running = false }, if s.has_library then disconnect ∷ [] else [])

-- the destructor
unfoldable pub destroy_subscriber : MqttSubscriber → MqttSubscriber × List SubCall
unfolding stop
destroy_subscriber s =
    let (stopped, calls) = stop s in
    if s.has_library
    then (record stopped { has_library = false }, calls ++ destroy ∷ [])
    else (stopped, calls)

-- `on_connect`; `rc` is the code of the CONNACK
unfoldable pub on_connect : ℤ → MqttSubscriber → MqttSubscriber × List SubCall
on_connect rc s =
    if not (is_int 0 rc)
    then (s, [])
    else (record s { connected = true }, subscribe s.topic s.qos ∷ [])

unfoldable pub on_disconnect : MqttSubscriber → MqttSubscriber
on_disconnect s = record s { connected = false }

-- `struct mosquitto_message`, of which the callback reads two fields
pub record Message : Type 0 where
  pub payload : Option Bytes
  pub payloadlen : ℤ

-- the text given to the callback; `none`: the callback is not called
abbrev pub text_of : ℤ → Option Bytes → Option Bytes
text_of len none = none
text_of (negsuc n) (some memory) = none
text_of (pos n) (some memory) = if is_int 0 (pos n) then none else some (take n memory)

abbrev pub if_callback : Bool → Option Bytes → Option Bytes
if_callback true text = text
if_callback false text = none

unfoldable pub on_message : Option Message → MqttSubscriber → Option Bytes
on_message none s = none
on_message (some msg) s = if_callback s.has_callback (text_of msg.payloadlen msg.payload)

-- what the library's loop calls back, in order
pub data Event : Type 0 where
  connacks : ℤ → Event
  disconnects : Event
  delivers : Option Message → Event

-- the texts handed to the callback, and the calls made, over a run of the loop
abbrev pub with_text : Option Bytes → List Bytes → List Bytes
with_text none texts = texts
with_text (some text) texts = text ∷ texts

unfoldable pub run_loop : List Event → MqttSubscriber → List Bytes × List SubCall × MqttSubscriber
unfolding on_connect on_disconnect on_message
run_loop [] s = ([], [], s)
run_loop (connacks rc ∷ es) s =
    let (s', calls) = on_connect rc s in
    let (texts, more, last) = run_loop es s' in (texts, calls ++ more, last)
run_loop (disconnects ∷ es) s = run_loop es (on_disconnect s)
run_loop (delivers msg ∷ es) s =
    let (texts, calls, last) = run_loop es s in (with_text (on_message msg s) texts, calls, last)
