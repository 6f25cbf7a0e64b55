-- ===== src/WebSocket/Upgrade/Tests.antt =====
-- The HTTP upgrade on concrete connections.
use accel_observer.Prelude.{
  ℕ, zero, suc, ◌+◌, ◌<◌, ◌≡◌, refl, Bool, true, List, [], ◌∷◌, ◌++◌, Option, some, arith, Bytes,
  codes, length, subst, sym,
}
use accel_observer.Net.Line.{OneLine_lem}
use accel_observer.Net.Loopback.{Wire, flat, loopback, loopback-Delivers, loopback-Accepts}
use accel_observer.WebSocket.Client.{ws_ok, WsClient}
use accel_observer.WebSocket.Handshake.{key_of_line, response}
use accel_observer.WebSocket.Handshake
use accel_observer.WebSocket.Upgrade.{nonce, do_handshake}
use accel_observer.WebSocket.Upgrade.Agrees.{key_sent, request_sent}
use accel_observer.WebSocket.Upgrade.Joined.{host_line, upgrade-joined}

abbrev request : Bytes
request = request_sent 7 (codes "server") 8080 (codes "/accel")

abbrev client_wire : Wire
client_wire = record { arrivals = response (key_sent 7) ∷ []; sent = [] }

abbrev ready : WsClient Wire
ready = record { valid = true; sock = client_wire; rng_state = 7 }

abbrev server_wire : Wire
server_wire = record { arrivals = request ∷ []; sent = [] }

request_size : length request ≡ 155
unfolding accel_observer.WebSocket.Upgrade.upgrade_request nonce
    accel_observer.WebSocket.Client.prng_next accel_observer.Crypto.Base64.base64_encode
    accel_observer.Prelude.Text.show_decimal
request_size = refl

no_key : key_of_line [] (host_line (codes "server") 8080) ≡ []
unfolding key_of_line accel_observer.Prelude.Text.show_decimal
no_key = refl

upgrade-joined_example :
    ((t : Wire) × (Handshake.do_handshake loopback 1024 6 server_wire ≡ (some tt, t))
      × (flat t.arrivals ≡ [])
      × (t.sent ≡ [] ++ response (key_sent 7)))
    × ((s : Wire) × (do_handshake loopback 4 (codes "server") 8080 (codes "/accel") ready
          ≡ (ws_ok, record { valid = true; sock = s; rng_state = (nonce 16 7).1 }))
        × (flat s.arrivals ≡ [])
        × (s.sent ≡ [] ++ request))
upgrade-joined_example =
    upgrade-joined loopback loopback-Delivers loopback-Accepts loopback loopback-Delivers
      loopback-Accepts (codes "server") 8080 (codes "/accel") [] [] ready server_wire
      (OneLine_lem (codes "/accel") refl) (OneLine_lem (codes "server") refl) no_key
      (omega (arith, request_size)) refl refl
