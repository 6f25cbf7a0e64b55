-- ===== src/Mqtt/Tests.antt =====
-- A client and a subscriber, run.
use accel_observer.Prelude.{
  ◌≡◌, refl, inl, inr, true, false, List, [], ◌∷◌, ◌++◌, none, some, arith, codes,
}
use accel_observer.Prelude.Int.{pos, negsuc}
use accel_observer.Mqtt.Client.{
  fresh_client, mqtt_get_stats, MqttError, ok, auth, disconnected, MqttClient, Store, set_rc,
  set_received, set_connected, on_connect, MosqCode, success, no_conn, mqtt_publish,
}
use accel_observer.Mqtt.Connect.{
  MqttConfig, Call, new, username_pw_set, will_set, reconnect_delay_set, connect_to, loop_start,
  loop_stop, destroy, Answers, Round, Outcome, set_up, mqtt_connect,
}
use accel_observer.Mqtt.Connect.Handle.{IsKept, mqtt_connect-IsKept}
use accel_observer.Mqtt.Connect.Wait.{IsSetUp, mqtt_connect-returns}
use accel_observer.Mqtt.Counts.{Event, publishes, stores, AllQosOk, run_events}
use accel_observer.Mqtt.Subscriber.{
  MqttWill, MqttSubscriber, SubCall, subscriber, set_callback, Message, connacks, disconnects,
  delivers, run_loop,
}
use accel_observer.Mqtt.Subscriber
use accel_observer.Mqtt.Subscriber.Loop.{
  Incoming, connack, lost, carried, no_bytes, all_given, subscriptions, link_after, run_loop-texts,
  subscriber-AllQosOk,
}
use accel_observer.Mqtt.Subscriber.Loop

abbrev config : MqttConfig
config = record {
  host = some (codes "broker");
  port = 1883;
  client_id = some (codes "sensor");
  clean_session = true;
  keepalive_sec = pos 0;
  username = some (codes "me");
  password = none;
  tls = record {
    enabled = false;
    cafile = none;
    capath = none;
    certfile = none;
    keyfile = none;
    ciphers = none;
    insecure = false;
    tls_version = pos 0;
  };
  will = record { topic = some (codes "gone"); payload = none; qos = pos 1; retain = true };
  connect_timeout_ms = 0;
  reconnect_delay_min_sec = 0;
  reconnect_delay_max_sec = 60;
  reconnect_exponential = true;
}

abbrev answers : Answers
answers = record {
  allocated = true;
  created = true;
  username_pw_set_rc = success;
  tls_set_rc = success;
  tls_opts_set_rc = success;
  connect_rc = success;
  loop_start_rc = success;
  pid = 7;
  id_ms = 100;
  start_ms = 200;
}

abbrev set_up_calls : List Call
set_up_calls =
    new (codes "sensor") true true
    ∷ username_pw_set (some (codes "me")) none
    ∷ will_set (codes "gone") (pos 0) [] (pos 1) true
    ∷ reconnect_delay_set 1 60 true
    ∷ connect_to (codes "broker") 1883 (pos 60)
    ∷ loop_start success
    ∷ []

-- the broker refuses the password: the answer is cut by the rounds
abbrev refused_rounds : List Round
refused_rounds =
    record { stores = set_rc (pos 5) ∷ []; now_ms = 220 }
    ∷ record { stores = set_received true ∷ []; now_ms = 240 }
    ∷ []

refused :
    mqtt_connect config answers refused_rounds
    ≡ some (auth, none, set_up_calls ++ (loop_stop true ∷ destroy ∷ []))
unfolding mqtt_connect set_up fresh_client
refused = refl

IsSetUp-config : IsSetUp config answers
unfolding set_up
IsSetUp-config = record {
  host = codes "broker";
  has_host = refl;
  has_port = refl;
  has_memory = refl;
  has_library = refl;
  calls = set_up_calls;
  succeeds = refl;
}

mqtt_connect-IsKept_example : IsKept (auth, none, set_up_calls ++ (loop_stop true ∷ destroy ∷ []))
mqtt_connect-IsKept_example =
    mqtt_connect-IsKept config answers refused_rounds
      (auth, none, set_up_calls ++ (loop_stop true ∷ destroy ∷ [])) refused

-- the broker accepts
abbrev accepted_rounds : List Round
accepted_rounds =
    record { stores = on_connect (pos 0); now_ms = 220 }
    ∷ record { stores = []; now_ms = 10200 }
    ∷ []

abbrev ready : MqttClient
ready = record {
  connected = true;
  connack_rc = pos 0;
  connack_received = true;
  disconnecting = false;
  stat_published = 0;
  stat_confirmed = 0;
  stat_errors = 0;
  stat_reconnects = 0;
}

accepted : mqtt_connect config answers accepted_rounds ≡ some (ok, some ready, set_up_calls)
unfolding mqtt_connect set_up fresh_client on_connect
accepted = refl

mqtt_connect-returns_example :
    (outcome : Outcome) × (mqtt_connect config answers accepted_rounds ≡ some outcome)
mqtt_connect-returns_example =
    mqtt_connect-returns config answers accepted_rounds IsSetUp-config (inr (inl (omega arith)))

-- A publication too early, two after the CONNACK of which one fails, and a confirmation.
abbrev history : List Event
history =
    publishes (some (codes "t")) (some (codes "a")) 1 (pos 1) false success
    ∷ stores (set_connected true)
    ∷ publishes (some (codes "t")) (some (codes "b")) 0 (pos 1) false success
    ∷ publishes (some (codes "t")) (some (codes "c")) 1 (pos 1) false no_conn
    ∷ publishes (some (codes "t")) (some (codes "d")) 1 (pos 3) false success
    ∷ stores accel_observer.Mqtt.Client.add_confirmed
    ∷ []

counted :
    mqtt_get_stats (run_events history fresh_client).1
    ≡ record { published = 1; confirmed = 1; errors = 1; reconnects = 0 }
unfolding mqtt_get_stats run_events fresh_client mqtt_publish accel_observer.Mqtt.Client.apply_store
counted = refl

abbrev no_will : MqttWill
no_will = record { topic = codes "s/status"; payload = codes "off"; qos = pos 7; retain = true }

abbrev sub : MqttSubscriber
sub = record {
  client_id = codes "srv";
  topic = codes "s";
  qos = pos 0;
  username = [];
  password = [];
  will = no_will;
  keepalive = pos 60;
  connected_host = [];
  connected_port = 0;
  has_callback = false;
  running = false;
  connected = false;
  has_library = true;
}

abbrev sub_calls : List SubCall
sub_calls =
    Subscriber.SubCall.new (some (codes "srv"))
    ∷ Subscriber.SubCall.will_set (codes "s/status") (pos 3) (some (codes "off")) (pos 0) true
    ∷ Subscriber.SubCall.reconnect_delay_set 1 30
    ∷ []

made :
    subscriber (codes "srv") (codes "s") (negsuc 0) [] [] no_will (pos 60) true
    ≡ some (sub, sub_calls)
unfolding subscriber
made = refl

-- The link is lost once; a message of no bytes is not handed on.
abbrev loop_events : List Subscriber.Event
loop_events =
    connacks (pos 0)
    ∷ delivers (some (record { payload = some (codes "xyz"); payloadlen = pos 2 }))
    ∷ disconnects
    ∷ connacks (pos 3)
    ∷ connacks (pos 0)
    ∷ delivers (some (record { payload = some []; payloadlen = pos 0 }))
    ∷ []

abbrev incomings : List Incoming
incomings =
    connack (pos 0)
    ∷ carried b'x' (codes "y") (codes "z")
    ∷ lost
    ∷ no_bytes (codes "q")
    ∷ carried b'u' [] []
    ∷ []

run_loop-texts_example :
    let (texts, calls, last) =
      run_loop (all_given incomings) (record sub { has_callback = true }) in
    (texts ≡ codes "xy" ∷ codes "u" ∷ [])
    × (calls ≡ subscriptions sub.topic sub.qos (all_given incomings))
    × (last.connected ≡ link_after sub.connected (all_given incomings))
run_loop-texts_example = run_loop-texts incomings (record sub { has_callback = true }) refl

subscriber-AllQosOk_example :
    Loop.AllQosOk sub_calls × Loop.AllQosOk (run_loop loop_events (set_callback sub)).1
subscriber-AllQosOk_example =
    subscriber-AllQosOk (codes "srv") (codes "s") (negsuc 0) [] [] no_will (pos 60) loop_events sub
      sub_calls made
