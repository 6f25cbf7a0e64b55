-- ===== src/WebSocket/Connect/Kept.antt =====
-- What `ws_connect` leaves behind, on every path.
use accel_observer.Prelude.{
  ℕ, zero, suc, ◌≡◌, refl, ap, Bool, true, false, List, [], ◌∷◌, ◌++◌, Option, none, some,
  if◌then◌else◌, if_either, Bytes,
}
use accel_observer.Net.Stream.{Socket}
use accel_observer.WebSocket.Client.{
  WsError, ws_ok, net_error, handshake_error, frame_error, closed, alloc_error, param_error,
  WsClient, prng_seed,
}
use accel_observer.WebSocket.Upgrade.{do_handshake}
use accel_observer.WebSocket.Connect.{
  WsConfig, SocketCall, opens, closes, System, path_of, Connected, after_handshake, with_connection,
  with_host, ws_connect, ws_destroy,
}

-- how many sockets the calls leave open
abbrev pub open_after : ℕ → List SocketCall → Option ℕ
open_after n [] = some n
open_after n (opens ∷ calls) = open_after (suc n) calls
open_after zero (closes ∷ calls) = none
open_after (suc n) (closes ∷ calls) = open_after n calls

abbrev pub is_ws_ok : WsError → Bool
is_ws_ok ws_ok = true
is_ws_ok net_error = false
is_ws_ok handshake_error = false
is_ws_ok frame_error = false
is_ws_ok closed = false
is_ws_ok alloc_error = false
is_ws_ok param_error = false

-- A client is there exactly with `WS_OK`. Without one no socket is open; with one, one socket is, which
-- `ws_destroy` closes.
abbrev pub IsKept : {S : Type 0} → Connected S → Type 0
IsKept (code, none, calls) = (is_ws_ok code ≡ false) × (open_after 0 calls ≡ some 0)
IsKept (code, some ws, calls) =
    (is_ws_ok code ≡ true)
    × (open_after 0 calls ≡ some 1)
    × (open_after 0 (calls ++ ws_destroy ws) ≡ some 0)

module _ {S : Type 0} (net : Socket S) where
  handshake_keeps :
      (fuel : ℕ) (host : Bytes) (port : ℕ) (path : Bytes) (ws : WsClient S)
      → (do_handshake net fuel host port path ws).1.valid ≡ ws.valid
  unfolding do_handshake
  handshake_keeps fuel host port path ws =
      if_either (λ (r : WsError × WsClient S). r.1.valid ≡ ws.valid) _ _ _ refl refl

  after_handshake-IsKept :
      (r : WsError × WsClient S) → r.1.valid ≡ true → IsKept (after_handshake r)
  unfolding ws_destroy
  after_handshake-IsKept (ws_ok, ws) v =
      (refl, refl, ap (λ b. open_after 0 (opens ∷ (if b then closes ∷ [] else []))) v)
  after_handshake-IsKept (net_error, ws) v = (refl, refl)
  after_handshake-IsKept (handshake_error, ws) v = (refl, refl)
  after_handshake-IsKept (frame_error, ws) v = (refl, refl)
  after_handshake-IsKept (closed, ws) v = (refl, refl)
  after_handshake-IsKept (alloc_error, ws) v = (refl, refl)
  after_handshake-IsKept (param_error, ws) v = (refl, refl)

  connection-IsKept :
      (fuel : ℕ) (host : Bytes) (cfg : WsConfig) (seed : ℕ) (connection : Option S)
      → IsKept (with_connection net fuel host cfg seed connection)
  connection-IsKept fuel host cfg seed none = (refl, refl)
  connection-IsKept fuel host cfg seed (some s) = after_handshake-IsKept _ (
      handshake_keeps fuel host cfg.port (path_of cfg.path)
        (record { valid = true; sock = s; rng_state = seed }))

  host-IsKept :
      (fuel : ℕ) (cfg : WsConfig) (system : System S) (host : Option Bytes)
      → IsKept (with_host net fuel cfg system host)
  host-IsKept fuel cfg system none = (refl, refl)
  host-IsKept fuel cfg system (some host) =
      if_either IsKept system.allocates _ _
        (connection-IsKept fuel host cfg (prng_seed system.time system.pid) system.connection)
        (refl, refl)

  -- Whatever the arguments, the system and the peer do: `ws_connect` gives a client exactly when its code is
  -- WS_OK; the socket of a client is open, and `ws_destroy` closes it; without a client, no socket is
  -- left open; and none is closed twice.
  pub ws_connect-IsKept :
      (fuel : ℕ) (cfg : Option WsConfig) (system : System S)
      → IsKept (ws_connect net fuel cfg system)
  unfolding ws_connect
  ws_connect-IsKept fuel none system = (refl, refl)
  ws_connect-IsKept fuel (some cfg) system = host-IsKept fuel cfg system cfg.host
