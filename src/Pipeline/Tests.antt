-- ===== src/Pipeline/Tests.antt =====
-- The callback on three payloads, over one-digit numbers in the place of doubles.
use accel_observer.Prelude.{
  ℕ, ◌+◌, ◌-◌, ◌*◌, ◌/◌, ◌≡◌, refl, false, List, [], ◌∷◌, Option, none, some, arith, ltb,
  if◌then◌else◌, length, Bytes, codes,
}
use accel_observer.Prelude.Text.{is_digit, strtoull}
use accel_observer.RingBuffer
use accel_observer.RingBuffer.Inv.{init-IsValid}
use accel_observer.Storage.Packet.{DataPacket}
use accel_observer.Storage.{create}
use accel_observer.Stats
use accel_observer.Stats.{Doubles}
use accel_observer.Validator.{Reals, external, ValidatorConfig, parse}
use accel_observer.Pipeline.{Server, Call, callbacks}
use accel_observer.Net.Loopback.{Wire, loopback, loopback-Accepts, loopback-Refuses}
use accel_observer.WebIf.Hub.{WebInterface}
use accel_observer.Pipeline.Dashboard.{callbacks_shown}
use accel_observer.Pipeline.Dashboard.Frames.{accepted_of, texts, Showing}
use accel_observer.Pipeline.Dashboard.Run.{callbacks_shown-frames}
use accel_observer.Pipeline.Accepts.{valid_packets, Accounts, callbacks-Accounts}

abbrev whole : Doubles ℕ
whole = record {
  of_u64 = λ n. n;
  zero_d = 0;
  huge = 1000000;
  nearly_huge = 999999;
  hundred = 100;
  thousand = 1000;
  add = λ a b. a + b;
  sub = λ a b. a - b;
  mul = λ a b. a * b;
  div = λ a b. a / b;
  abs = λ a. a;
  less = ltb;
}

abbrev digit_of : Bytes → Option (ℕ × Bytes)
digit_of [] = none
digit_of (c ∷ cs) = if is_digit c then some (c - 48, cs) else none

abbrev digits : Reals ℕ
digits = record { zero_d = 0; neg = λ n. 0; less = ltb; strtod = digit_of }

abbrev cfg : ValidatorConfig ℕ
cfg = record { max_acc_ms2 = 7; timesource = external; seq_optional = false; server_time_fn = 99 }

abbrev call : Bytes → Call ℕ
call payload = record { payload = payload; recv_ms = 50; cfg = cfg }

abbrev calls : List (Call ℕ)
calls =
    call (codes "{\"ts\":9,\"seq\":1,\"ax\":1,\"ay\":2,\"az\":3}")
    ∷ call (codes "{\"ts\":9,\"seq\":2,\"ax\":9,\"ay\":2,\"az\":3}")
    ∷ call (codes "{\"type\":\"android.sensor.x\",\"values\":[1,2,3]}")
    ∷ []

abbrev no_packet : DataPacket ℕ
no_packet = record { timestamp_ms = 0; sequence_id = 0; acc_x = 0; acc_y = 0; acc_z = 0 }

abbrev server : Server ℕ ℕ
server = record {
  counter = 0;
  stats = Stats.init whole 10 1000;
  storage = create no_packet 0 (codes "x") [] 1;
}

two_valid : length (valid_packets digits calls 0) ≡ 2
unfolding valid_packets parse strtoull
two_valid = refl

callbacks-Accounts_example :
    Accounts whole digits no_packet server
      (callbacks whole digits calls server)
      (valid_packets digits calls 0)
unfolding create Stats.init RingBuffer.init
callbacks-Accounts_example =
    callbacks-Accounts whole digits no_packet calls server (init-IsValid no_packet 1 (omega arith))
      (omega arith) (omega arith)

-- two browsers, and the statistics every 10 milliseconds
abbrev browsers : WebInterface Wire ℕ
browsers = record {
  client_fds = 5 ∷ 8 ∷ [];
  device_model = [];
  device_range_g = 0;
  wires = λ n. record { arrivals = []; sent = [] };
  calls = [];
}

abbrev digit_text : ℕ → ℕ → Bytes
digit_text places n = (48 + n) ∷ []

callbacks_shown-frames_example :
    ((callbacks_shown loopback whole digit_text 10 digits calls
        (server, record { webif = some browsers; last_stats_ms = 45 })).0
      ≡ callbacks whole digits calls server)
    × ((w : WebInterface Wire ℕ) × ((callbacks_shown loopback whole digit_text 10 digits calls
            (server, record { webif = some browsers; last_stats_ms = 45 })).1.webif
          ≡ some w)
        × Showing loopback
            (texts whole digit_text 10 (accepted_of whole digits calls server) 45)
            browsers
            w)
callbacks_shown-frames_example =
    callbacks_shown-frames loopback loopback-Refuses loopback-Accepts whole digit_text 10 digits
      calls server browsers 45 (refl, (refl, tt))
