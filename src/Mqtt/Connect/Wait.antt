-- ===== src/Mqtt/Connect/Wait.antt =====
-- The wait of `mqtt_connect` for the CONNACK, while the library's thread stores what the broker said.
use accel_observer.Prelude.{
  ℕ, ◌≤◌, ◌≡◌, refl, ap, ◌∙◌, ◌⊎◌, inl, inr, Bool, true, false, List, [], ◌∷◌, ◌++◌, Option, none,
  some, arith, leb, ◌==◌, if◌then◌else◌, if_false, if_not-true, Bool-cases, Bytes,
}
use accel_observer.Prelude.Int.{ℤ, pos, is_int, in_range}
use accel_observer.Mqtt.Client.{
  MqttError, ok, timeout, disconnected, MqttClient, fresh_client, Store, set_rc, set_received,
  apply_store, apply_stores, MosqCode, mqtt_publish,
}
use accel_observer.Mqtt.Connect.{
  MqttConfig, Answers, Round, Call, ◌>>◌, connect_host, set_up, after_wait, refused_code, Outcome,
  finish, waited, then_wait, wait_connack, deadline_of, chosen_id, mqtt_connect,
}

-- all that is stored during the wait
abbrev pub all_stores : List Round → List Store
all_stores [] = []
all_stores (r ∷ rs) = r.stores ++ all_stores rs

-- Some round of the wait comes after the deadline.
abbrev pub IsLate : ℕ → List Round → Type 0
IsLate deadline [] = ⊥
IsLate deadline (r ∷ rs) = (deadline ≤ r.now_ms) ⊎ IsLate deadline rs

-- How the wait ends: with the broker's code in the state, or late.
abbrev Ended : ℤ → ℕ → List Round → Option (Bool × MqttClient) → Type 0
Ended rc deadline rounds none = Unit
Ended rc deadline rounds (some (true, c)) = c.connack_rc ≡ rc
Ended rc deadline rounds (some (false, c)) = IsLate deadline rounds

-- the code for what the broker has answered
abbrev pub broker_code : ℤ → MqttError
broker_code rc = if is_int 0 rc then ok else refused_code rc

abbrev Answered : ℤ → ℕ → List Round → Option Outcome → Type 0
Answered rc deadline rounds none = Unit
Answered rc deadline rounds (some outcome) =
    (outcome.0 ≡ broker_code rc) ⊎ ((outcome.0 ≡ timeout) × IsLate deadline rounds)

-- The set-up succeeds for a host, a port and answers of the library.
pub record IsSetUp (cfg : MqttConfig) (ans : Answers) : Type 0 where
  pub host : Bytes
  pub has_host : cfg.host ≡ some host
  pub has_port : (cfg.port == 0) ≡ false
  pub has_memory : ans.allocated ≡ true
  pub has_library : ans.created ≡ true
  pub calls : List Call
  pub succeeds : set_up cfg host (chosen_id cfg ans) ans ≡ (ok, calls)

-- After the set-up, `mqtt_connect` is the wait and what follows it.
connect-wait :
    (cfg : MqttConfig) (ans : Answers) (rounds : List Round) (up : IsSetUp cfg ans)
    → mqtt_connect cfg ans rounds
      ≡ waited (ok, up.calls) (wait_connack (deadline_of cfg ans) rounds fresh_client)
unfolding mqtt_connect
connect-wait cfg ans rounds up =
    ap (connect_host cfg ans rounds) up.has_host
    ∙ if_false _ _ up.has_port
    ∙ if_not-true ans.allocated _ _ up.has_memory
    ∙ if_not-true ans.created _ _ up.has_library
    ∙ ap (then_wait (deadline_of cfg ans) rounds) up.succeeds

wait_returns :
    (deadline : ℕ) (rounds : List Round) (c : MqttClient)
    → IsLate deadline rounds
    → (r : Bool × MqttClient) × (wait_connack deadline rounds c ≡ some r)
unfolding wait_connack
wait_returns deadline [] c h = elim h [ ]
wait_returns deadline (r ∷ rs) c h = elim (Bool-cases (apply_stores r.stores c).connack_received) [
  | inl e ↦ ((true, apply_stores r.stores c), rw e refl)
  | inr e ↦ elim (Bool-cases (leb deadline r.now_ms)) [
    | inl late ↦ ((false, apply_stores r.stores c), rw (e, late) refl)
    | inr early ↦ elim h [
      | inl now ↦ absurd (ground arith)
      | inr later ↦
          let (res, ran) = wait_returns deadline rs (apply_stores r.stores c) later in
          (res, rw (e, early) ran)
    ]
  ]
]

-- `mqtt_connect` never waits past the deadline: whatever the broker does, if some round comes after the
-- deadline then the call has returned.
pub mqtt_connect-returns :
    (cfg : MqttConfig) (ans : Answers) (rounds : List Round)
    → IsSetUp cfg ans
    → IsLate (deadline_of cfg ans) rounds
    → (outcome : Outcome) × (mqtt_connect cfg ans rounds ≡ some outcome)
mqtt_connect-returns cfg ans rounds up late =
    let (r, ran) = wait_returns (deadline_of cfg ans) rounds fresh_client late in
    (
      finish ((ok, up.calls) >> after_wait r) r.1,
      connect-wait cfg ans rounds up ∙ ap (waited (ok, up.calls)) ran,
    )

-- The flag that ends the wait is stored before `connected`. When it is seen at once between the two,
-- `mqtt_connect` answers `MQTT_OK`, and a publication right after it, with every argument valid, is
-- refused as `MQTT_ERR_DISCONNECTED`, with no call of the library.
pub mqtt_connect-too_early :
    (cfg : MqttConfig) (ans : Answers) (now : ℕ) (rounds : List Round) (topic payload : Bytes)
    (len : ℕ) (qos : ℤ) (retain : Bool) (rc : MosqCode)
    → IsSetUp cfg ans
    → in_range 2 qos ≡ true
    → (c : MqttClient) × (calls : List Call) × (mqtt_connect cfg ans
          (record { stores = set_rc (pos 0) ∷ set_received true ∷ []; now_ms = now } ∷ rounds)
        ≡ some (ok, some c, calls))
      × (mqtt_publish (some topic) (some payload) len qos retain rc c ≡ (disconnected, none, c))
unfolding wait_connack after_wait mqtt_publish apply_stores apply_store fresh_client
mqtt_connect-too_early cfg ans now rounds topic payload len qos retain rc up q = (
  record fresh_client { connack_received = true },
  up.calls ++ [],
  connect-wait cfg ans
      (record { stores = set_rc (pos 0) ∷ set_received true ∷ []; now_ms = now } ∷ rounds) up,
  rw q refl,
)
