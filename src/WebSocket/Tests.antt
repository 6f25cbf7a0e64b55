-- ===== src/WebSocket/Tests.antt =====
-- The theorems on the WebSocket ends, at short messages over a stream that arrives in pieces.
use accel_observer.Prelude.{
  ◌≡◌, refl, arith, true, List, [], ◌∷◌, ◌++◌, append-nil, some, none, Bytes, codes,
}
use accel_observer.Net.Loopback.{Wire, flat, loopback, loopback-Delivers, loopback-Accepts}
use accel_observer.WebSocket.Mask.{xor_mask}
use accel_observer.WebSocket.Client.{
  ws_ok, WsClient, prng_next, mask_bytes, ws_send_text, be_bytes, text_header,
}
use accel_observer.WebSocket.Client.Frame.{text_frame, ws_send_text-frame}
use accel_observer.WebSocket.Server.{read_frame, serve}
use accel_observer.WebSocket.Server.Data.{masked_header, read_frame-text}
use accel_observer.WebSocket.Server.Control.{pong_frame, read_frame-ping, read_frame-close}
use accel_observer.WebSocket.Connect.{WsConfig, System, ws_connect}
use accel_observer.WebSocket.Connect.Kept.{IsKept, ws_connect-IsKept}
use accel_observer.WebSocket.Session.{send_all, session}

abbrev idle : WsClient Wire
idle = record { valid = true; sock = record { arrivals = []; sent = [] }; rng_state = 1 }

abbrev mask : Bytes
mask = 1 ∷ 2 ∷ 3 ∷ 4 ∷ []

-- a masked text frame "hi", then one byte more, in two segments
abbrev text_wire : Wire
text_wire = record {
  arrivals = (0x81 ∷ []) ∷ (0x82 ∷ 1 ∷ 2 ∷ 3 ∷ 4 ∷ 105 ∷ 107 ∷ 9 ∷ []) ∷ [];
  sent = [];
}

text_wire-frame : flat text_wire.arrivals ≡ text_frame mask (codes "hi") ++ (9 ∷ [])
unfolding text_header be_bytes xor_mask
text_wire-frame = refl

read_frame-text_example :
    (w : Wire) × (read_frame loopback text_wire ≡ (some (codes "hi"), w))
    × (flat w.arrivals ≡ 9 ∷ [])
    × (w.sent ≡ [])
read_frame-text_example =
    read_frame-text loopback loopback-Delivers mask (codes "hi") (9 ∷ []) text_wire refl
      (omega arith) text_wire-frame

abbrev ping_wire : Wire
ping_wire = record {
  arrivals = (0x89 ∷ 0x82 ∷ []) ∷ (1 ∷ 2 ∷ 3 ∷ 4 ∷ 105 ∷ 107 ∷ []) ∷ [];
  sent = [];
}

ping_wire-frame :
    flat ping_wire.arrivals ≡ masked_header 0x89 2 ++ (mask ++ (xor_mask mask 0 (codes "hi") ++ []))
unfolding be_bytes xor_mask
ping_wire-frame = refl

read_frame-ping_example :
    (w : Wire) × (read_frame loopback ping_wire ≡ (some [], w))
    × (flat w.arrivals ≡ [])
    × (w.sent ≡ [] ++ pong_frame (codes "hi"))
read_frame-ping_example =
    read_frame-ping loopback loopback-Delivers loopback-Accepts mask (codes "hi") [] ping_wire refl
      (omega arith) ping_wire-frame

abbrev close_wire : Wire
close_wire = record { arrivals = (0x88 ∷ 0x82 ∷ 1 ∷ 2 ∷ 3 ∷ 4 ∷ 2 ∷ 234 ∷ []) ∷ []; sent = [] }

close_wire-frame : flat close_wire.arrivals ≡ masked_header 0x88 2 ++ (mask ++ (2 ∷ 234 ∷ []))
unfolding be_bytes
close_wire-frame = refl

read_frame-close_example :
    (w : Wire) × (read_frame loopback close_wire ≡ (none, w))
    × (flat w.arrivals ≡ 2 ∷ 234 ∷ [])
    × (w.sent ≡ [])
read_frame-close_example =
    read_frame-close loopback loopback-Delivers 2 mask (2 ∷ 234 ∷ []) close_wire (omega arith) refl
      close_wire-frame

ws_send_text-frame_example :
    (w : Wire) × (ws_send_text loopback (some (codes "hi")) idle
      ≡ (ws_ok, record idle { sock = w; rng_state = prng_next 1 }))
    × (w.sent ≡ [] ++ text_frame (mask_bytes (prng_next 1)) (codes "hi"))
    × (flat w.arrivals ≡ [])
ws_send_text-frame_example = ws_send_text-frame loopback loopback-Accepts (codes "hi") idle refl

-- the client's bytes, in one segment at the server
abbrev script : List Bytes
script = codes "a" ∷ [] ∷ codes "bc" ∷ []

abbrev carried_wire : Wire
carried_wire = record { arrivals = (send_all loopback script idle).1.sock.sent ∷ []; sent = [] }

carried_wire-sent : flat carried_wire.arrivals ≡ (send_all loopback script idle).1.sock.sent
carried_wire-sent = append-nil (send_all loopback script idle).1.sock.sent

session_example :
    ((send_all loopback script idle).0 ≡ ws_ok ∷ ws_ok ∷ ws_ok ∷ [])
    × ((serve loopback 3 carried_wire).0 ≡ codes "a" ∷ codes "bc" ∷ [])
    × (flat (serve loopback 3 carried_wire).1.arrivals ≡ [])
    × ((serve loopback 3 carried_wire).1.sent ≡ [])
session_example =
    session loopback loopback loopback-Accepts loopback-Delivers script idle carried_wire refl
      (omega arith, (omega arith, (omega arith, tt))) refl carried_wire-sent

-- a server that never answers
abbrev silent : System Wire
silent = record {
  allocates = true;
  time = 1700000000;
  pid = 42;
  connection = some (record { arrivals = []; sent = [] });
}

abbrev to_server : WsConfig
to_server = record { host = some (codes "server"); port = 8080; path = none }

ws_connect-IsKept_example : IsKept (ws_connect loopback 4 (some to_server) silent)
ws_connect-IsKept_example = ws_connect-IsKept loopback 4 (some to_server) silent
