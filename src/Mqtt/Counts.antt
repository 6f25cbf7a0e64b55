-- ===== src/Mqtt/Counts.antt =====
-- What the statistics of the MQTT client count, over any interleaving of publications and callbacks.
use accel_observer.Prelude.{
  ℕ, suc, ◌+◌, ◌≡◌, Bool, true, List, [], ◌∷◌, Option, none, some, Bytes, u64,
}
use accel_observer.Prelude.Int.{ℤ, in_range}
use accel_observer.Mqtt.Client.{
  MqttError, ok, MqttClient, Store, add_confirmed, add_reconnects, apply_store, MosqCode, Published,
  mqtt_publish,
}

-- A publication with what the library answers, or a store of the library's thread.
pub data Event : Type 0 where
  publishes : Option Bytes → Option Bytes → ℕ → ℤ → Bool → MosqCode → Event
  stores : Store → Event

-- what a publication answers, and the call of the library that it makes
abbrev pub Answer : Type 0
Answer = MqttError × Option Published

abbrev pub noted :
    MqttError × Option Published × MqttClient
    → (MqttClient → List Answer × MqttClient)
    → List Answer × MqttClient
noted (code, call, c) rest = ((code, call) ∷ (rest c).0, (rest c).1)

unfoldable pub run_events : List Event → MqttClient → List Answer × MqttClient
run_events [] c = ([], c)
run_events (publishes topic payload len qos retain rc ∷ es) c =
    noted (mqtt_publish topic payload len qos retain rc c) (run_events es)
run_events (stores st ∷ es) c = run_events es (apply_store st c)

-- the publications that were answered by `MQTT_OK`
abbrev pub add_ok : MqttError → ℕ → ℕ
add_ok ok n = suc n
add_ok _ n = n

abbrev pub published_ok : List Answer → ℕ
published_ok [] = 0
published_ok ((code, call) ∷ rest) = add_ok code (published_ok rest)

-- the calls of the library
abbrev pub add_call : Option Published → ℕ → ℕ
add_call none n = n
add_call (some call) n = suc n

abbrev pub library_calls : List Answer → ℕ
library_calls [] = 0
library_calls ((code, call) ∷ rest) = add_call call (library_calls rest)

-- the callbacks of a kind
abbrev pub add_confirm : Store → ℕ → ℕ
add_confirm add_confirmed n = suc n
add_confirm _ n = n

abbrev pub confirmations : List Event → ℕ
confirmations [] = 0
confirmations (stores st ∷ es) = add_confirm st (confirmations es)
confirmations (_ ∷ es) = confirmations es

abbrev pub add_reconnect : Store → ℕ → ℕ
add_reconnect add_reconnects n = suc n
add_reconnect _ n = n

abbrev pub reconnections : List Event → ℕ
reconnections [] = 0
reconnections (stores st ∷ es) = add_reconnect st (reconnections es)
reconnections (_ ∷ es) = reconnections es

-- Each call of the library has a quality of service from 0 to 2.
abbrev pub QosOk : Option Published → Type 0
QosOk none = Unit
QosOk (some call) = in_range 2 call.qos ≡ true

abbrev pub AllQosOk : List Answer → Type 0
AllQosOk [] = Unit
AllQosOk ((code, call) ∷ rest) = QosOk call × AllQosOk rest

-- the state after `p` publications, `e` failures, `k` confirmations and `r` reconnections
pub record HasCounted (c : MqttClient) (p e k r : ℕ) : Type 0 where
  pub published : c.stat_published ≡ u64 p
  pub errors : c.stat_errors ≡ u64 e
  pub confirmed : c.stat_confirmed ≡ u64 k
  pub reconnects : c.stat_reconnects ≡ u64 r

-- one publication: the code and the call that it makes fit the counts
abbrev Fits : MqttClient → ℕ → ℕ → ℕ → ℕ → MqttError × Option Published × MqttClient → Type 0
Fits c p e k r (code, call, c') =
    QosOk call
    × ((x : ℕ) × (x + add_ok code 0 ≡ add_call call 0)
        × HasCounted c' (p + add_ok code 0) (e + x) k r)

-- the counts of a run that starts with some
abbrev Counted : ℕ → ℕ → ℕ → ℕ → List Event → List Answer × MqttClient → Type 0
Counted p e k r es (answers, c) =
    AllQosOk answers
    × ((x : ℕ) × (x + published_ok answers ≡ library_calls answers)
        × HasCounted c (p + published_ok answers) (e + x) (confirmations es + k)
            (reconnections es + r))
