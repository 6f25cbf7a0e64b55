-- ===== src/ClientMain/Tests.antt =====
-- The client and the server over two samples, and a round without one.
use accel_observer.Prelude.{
  ℕ, zero, suc, ◌+◌, ◌<◌, ◌≡◌, refl, Bool, true, false, List, [], ◌∷◌, ◌++◌, append-nil, Option,
  none, some, arith, leb, length, Bytes, codes,
}
use accel_observer.Net.Line.{OneLine_lem}
use accel_observer.Net.Loopback.{Wire, loopback, loopback-Delivers, loopback-Accepts}
use accel_observer.Storage.Packet.{DataPacket}
use accel_observer.WebSocket.Client.{prng_seed}
use accel_observer.WebSocket.Handshake.{key_of_line, response}
use accel_observer.WebSocket.Upgrade.Agrees.{key_sent, request_sent}
use accel_observer.WebSocket.Upgrade.Joined.{host_line}
use accel_observer.WebSocket.Connect.{WsConfig, System}
use accel_observer.ClientMain.{SampleRound, run_client}
use accel_observer.ClientMain.Session.{texts, faults, rounds_run}
use accel_observer.ClientMain.Whole.{sent_by, Arrives, client-Arrives}

abbrev digit_text : ℕ → Bytes
digit_text n = (48 + n) ∷ []

abbrev sample : ℕ → DataPacket ℕ
sample n = record { timestamp_ms = 9; sequence_id = n; acc_x = 1; acc_y = 2; acc_z = 3 }

-- The last round comes too late.
abbrev some_rounds : List (SampleRound ℕ)
some_rounds =
    record { running = true; elapsed_ms = 0; sample = some (sample 0) }
    ∷ record { running = true; elapsed_ms = 10; sample = none }
    ∷ record { running = true; elapsed_ms = 20; sample = some (sample 1) }
    ∷ record { running = true; elapsed_ms = 99; sample = some (sample 2) }
    ∷ []

abbrev time_up : ℕ → Bool
time_up ms = leb 50 ms

two_texts : length (texts digit_text time_up (rounds_run digit_text time_up some_rounds)) ≡ 2
unfolding texts rounds_run accel_observer.Sensor.sensor_to_json
    accel_observer.Prelude.Text.show_decimal
two_texts = refl

abbrev client_wire : Wire
client_wire = record { arrivals = response (key_sent (prng_seed 1700000000 42)) ∷ []; sent = [] }

abbrev config : WsConfig
config = record { host = some (codes "server"); port = 8080; path = none }

abbrev system : System Wire
system = record { allocates = true; time = 1700000000; pid = 42; connection = some client_wire }

abbrev all_sent : Bytes
all_sent =
    sent_by loopback (run_client loopback digit_text time_up 4 (some config) system some_rounds)

abbrev server_wire : Wire
server_wire = record { arrivals = all_sent ∷ []; sent = [] }

request_size : (seed : ℕ) → length (request_sent seed (codes "server") 8080 (codes "/")) ≡ 150
unfolding accel_observer.WebSocket.Upgrade.upgrade_request accel_observer.WebSocket.Upgrade.nonce
    accel_observer.Crypto.Base64.base64_encode accel_observer.Prelude.Text.show_decimal
request_size seed = refl

no_key : key_of_line [] (host_line (codes "server") 8080) ≡ []
unfolding key_of_line accel_observer.Prelude.Text.show_decimal
no_key = refl

client-Arrives_example :
    Arrives loopback
      (texts digit_text time_up (rounds_run digit_text time_up some_rounds))
      (faults digit_text time_up (rounds_run digit_text time_up some_rounds))
      (run_client loopback digit_text time_up 4 (some config) system some_rounds)
      server_wire
client-Arrives_example =
    client-Arrives loopback loopback-Delivers loopback-Accepts loopback loopback-Delivers
      loopback-Accepts digit_text time_up (codes "server") 8080 none 1700000000 42 some_rounds []
      client_wire server_wire (OneLine_lem (codes "/") refl) (OneLine_lem (codes "server") refl)
      no_key (omega (arith, request_size (prng_seed 1700000000 42))) refl refl (append-nil all_sent)
