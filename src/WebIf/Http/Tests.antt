-- ===== src/WebIf/Http/Tests.antt =====
-- Requests of browsers.
use accel_observer.Prelude.{ℕ, ◌+◌, ◌≡◌, refl, true, [], ◌∷◌, ◌++◌, arith, take, drop, Bytes, codes}
use accel_observer.Net.Loopback.{Wire, loopback, loopback-Delivers, loopback-Accepts}
use accel_observer.WebIf.Hub.{WebInterface}
use accel_observer.WebIf.Http.{extract_path, find_header_value, open_client}
use accel_observer.WebIf.Messages.{upgrade_answer}
use accel_observer.WebSocket.Handshake.{compute_accept_key}
use accel_observer.WebIf.Http.Request.{IsRequest}
use accel_observer.WebIf.Http.Answers.{Outcome, open_client-Outcome}
use accel_observer.WebIf.Http.Texts.{greeting}

health_path : extract_path (codes "GET /health HTTP/1.1\r\n\r\n") ≡ codes "/health"
unfolding extract_path
health_path = refl

-- The key is found in small letters too.
small_letters :
    find_header_value
      (codes "GET / HTTP/1.1\r\nsec-websocket-key:  Abc= \r\n\r\n")
      (codes "Sec-WebSocket-Key: ")
    ≡ codes "Abc="
unfolding find_header_value
small_letters = refl

abbrev upgrade : Bytes
upgrade = codes "GET / HTTP/1.1\r\nUpgrade: websocket\r\nSec-WebSocket-Key: Abc=\r\n\r\n"

upgrade-IsRequest : IsRequest upgrade
upgrade-IsRequest = record { ends = refl; not_before = refl; fits = omega arith }

-- The request comes in two parts.
abbrev web : WebInterface Wire ℕ
web = record {
  client_fds = 4 ∷ [];
  device_model = codes "adxl345";
  device_range_g = 6;
  wires = λ n. record { arrivals = take 20 upgrade ∷ drop 20 upgrade ∷ []; sent = [] };
  calls = [];
}

abbrev digit_text : ℕ → ℕ → Bytes
digit_text places n = (48 + n) ∷ []

open_client-Outcome_example :
    Outcome loopback 7 true
      (upgrade_answer (compute_accept_key (codes "Abc="))
        ++ greeting digit_text (codes "adxl345") 6)
      web
      (open_client loopback [] 8088 digit_text 7 web)
unfolding find_header_value
open_client-Outcome_example =
    open_client-Outcome loopback [] 8088 digit_text loopback-Accepts loopback-Delivers 7 upgrade web
      upgrade-IsRequest refl (omega arith)
