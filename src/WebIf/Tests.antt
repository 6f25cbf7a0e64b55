-- ===== src/WebIf/Tests.antt =====
-- The browser interface on concrete connections.
use accel_observer.Prelude.{◌≡◌, refl, arith, [], ◌∷◌, some, codes}
use accel_observer.Prelude.{ℕ, true, false, List, ◌++◌}
use accel_observer.Net.Loopback.{
  Wire, flat, loopback, loopback-Delivers, loopback-Accepts, loopback-Refuses,
}
use accel_observer.WebSocket.Server.Data.{masked_header}
use accel_observer.WebIf.Send.{is_ok}
use accel_observer.WebIf.Discard.{ws_discard_frame, discard_loop}
use accel_observer.WebIf.Discard.Frames.{Frame, all_bytes, discard_loop-replies}
use accel_observer.WebIf.Hub.{WebInterface, mem, put, ws_broadcast}
use accel_observer.WebIf.Hub.Broadcast.{Broadcasts, ws_broadcast-Broadcasts}
use accel_observer.WebIf.Hub.Threads.{
  no_thread, WebServer, idle, accepts, registers, begins, breaks, closes, Reach, here, later,
}
use accel_observer.WebIf.Hub.Threads.Owned.{IsOwned}
use accel_observer.WebIf.Hub.Threads.Safe.{Reach-IsOwned}
use accel_observer.WebSocket.Server.{read_frame}
use accel_observer.WebIf.{ws_encode_frame}
use accel_observer.WebIf.Frame.{read_frame-ws_encode_frame}

hi_frame : ws_encode_frame (codes "hi") ≡ 0x81 ∷ 2 ∷ 104 ∷ 105 ∷ []
unfolding ws_encode_frame
hi_frame = refl

abbrev frame_wire : Wire
frame_wire = record { arrivals = (0x81 ∷ []) ∷ (2 ∷ 104 ∷ []) ∷ (105 ∷ 9 ∷ []) ∷ []; sent = [] }

read_frame-ws_encode_frame_example :
    (w : Wire) × (read_frame loopback frame_wire ≡ (some (codes "hi"), w))
    × (flat w.arrivals ≡ 9 ∷ [])
    × (w.sent ≡ [])
unfolding ws_encode_frame
read_frame-ws_encode_frame_example =
    read_frame-ws_encode_frame loopback loopback-Delivers (codes "hi") (9 ∷ []) frame_wire
      (omega arith) refl

abbrev quiet_wire : Wire
quiet_wire = record { arrivals = []; sent = [] }

-- two browsers, and a third connection that is not registered
abbrev two_browsers : WebInterface Wire ℕ
two_browsers = record {
  client_fds = 5 ∷ 8 ∷ [];
  device_model = codes "adxl345";
  device_range_g = 16;
  wires = λ n. quiet_wire;
  calls = [];
}

ws_broadcast-Broadcasts_example :
    Broadcasts loopback
      (ws_encode_frame (codes "hi"))
      two_browsers
      (ws_broadcast loopback (codes "hi") two_browsers)
ws_broadcast-Broadcasts_example =
    ws_broadcast-Broadcasts loopback loopback-Refuses (codes "hi") two_browsers (refl, (refl, tt))

-- a ping and a text, then a close frame
abbrev ping_and_text : List Frame
ping_and_text =
    record { first = 0x89; mask = 1 ∷ 2 ∷ 3 ∷ 4 ∷ []; payload = codes "hi" }
    ∷ record { first = 0x81; mask = 9 ∷ 9 ∷ 9 ∷ 9 ∷ []; payload = codes "text" }
    ∷ []

abbrev browser_wire : Wire
browser_wire = record { arrivals = all_bytes ping_and_text ∷ masked_header 0x88 2 ∷ []; sent = [] }

discard_loop-replies_example :
    (w : Wire) × (discard_loop loopback 3 browser_wire ≡ (some tt, w))
    × (w.sent ≡ [] ++ (0x8a ∷ 2 ∷ 104 ∷ 105 ∷ []))
discard_loop-replies_example =
    discard_loop-replies loopback loopback-Delivers loopback-Accepts ping_and_text 3 2 []
      browser_wire (omega arith) ((refl, refl, omega arith), ((refl, refl, omega arith), tt))
      (omega arith) refl

-- A browser is accepted, registers, and goes away during a broadcast.
abbrev no_browsers : WebServer Wire ℕ
no_browsers = record {
  web = record two_browsers { client_fds = [] };
  running = true;
  threads = λ n. no_thread;
  caster = idle;
}

broken : is_ok (ws_discard_frame loopback quiet_wire).0 ≡ false
unfolding ws_discard_frame accel_observer.WebIf.Discard.recv_exact_webif
    accel_observer.Net.recv_loop
broken = refl

abbrev ran : (u : WebServer Wire ℕ) × Reach loopback no_browsers u
unfolding accel_observer.WebIf.Hub.register_fd
ran = (
  _,
  later
      (later
        (later (later (later here (accepts 5 quiet_wire refl refl)) (registers 5 refl))
          (begins (codes "hi") refl))
        (breaks 5 refl broken))
      (closes 5 refl),
)

Reach-IsOwned_example : IsOwned ran.0
unfolding accel_observer.WebIf.Hub.register_fd
Reach-IsOwned_example = Reach-IsOwned loopback no_browsers ran.0 refl refl (λ n. refl) ran.1
