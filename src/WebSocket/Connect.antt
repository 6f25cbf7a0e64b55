-- ===== src/WebSocket/Connect.antt =====
-- client/src/transport/websocket/ws_client.c: `ws_connect` and `ws_destroy`.
pub mod Kept
use accel_observer.Prelude.{
  ℕ, Bool, true, List, [], ◌∷◌, Option, none, some, if◌then◌else◌, Bytes, codes,
}
use accel_observer.Net.Stream.{Socket}
use accel_observer.WebSocket.Client.{
  WsError, ws_ok, net_error, handshake_error, frame_error, closed, alloc_error, param_error,
  WsClient, prng_seed,
}
use accel_observer.WebSocket.Upgrade.{do_handshake}

-- `ws_config_t`, without the timeouts; `none` is a null pointer
pub record WsConfig : Type 0 where
  pub host : Option Bytes
  pub port : ℕ
  pub path : Option Bytes

-- what becomes of the socket
pub data SocketCall : Type 0 where
  opens closes : SocketCall

-- What the system gives: whether `malloc` succeeds, the clock and the process id, and the connected socket,
-- if `net_connect_tcp` succeeds.
pub record System (S : Type 0) : Type 0 where
  pub allocates : Bool
  pub time : ℕ
  pub pid : ℕ
  pub connection : Option S

abbrev pub path_of : Option Bytes → Bytes
path_of none = codes "/"
path_of (some []) = codes "/"
path_of (some (c ∷ cs)) = c ∷ cs

-- the error code, the client, and the calls on the socket
abbrev pub Connected : Type 0 → Type 0
Connected S = WsError × Option (WsClient S) × List SocketCall

abbrev pub give_up : {S : Type 0} → WsError → Connected S
give_up code = (code, none, opens ∷ closes ∷ [])

abbrev pub after_handshake : {S : Type 0} → WsError × WsClient S → Connected S
after_handshake (ws_ok, ws) = (ws_ok, some ws, opens ∷ [])
after_handshake (net_error, ws) = give_up net_error
after_handshake (handshake_error, ws) = give_up handshake_error
after_handshake (frame_error, ws) = give_up frame_error
after_handshake (closed, ws) = give_up closed
after_handshake (alloc_error, ws) = give_up alloc_error
after_handshake (param_error, ws) = give_up param_error

module _ {S : Type 0} (net : Socket S) where
  abbrev pub with_connection : ℕ → Bytes → WsConfig → ℕ → Option S → Connected S
  with_connection fuel host cfg seed none = (net_error, none, [])
  with_connection fuel host cfg seed (some s) = after_handshake (
      do_handshake net fuel host cfg.port (path_of cfg.path)
        (record { valid = true; sock = s; rng_state = seed }))

  abbrev pub with_host : ℕ → WsConfig → System S → Option Bytes → Connected S
  with_host fuel cfg system none = (param_error, none, [])
  with_host fuel cfg system (some host) =
      if system.allocates
      then with_connection fuel host cfg (prng_seed system.time system.pid) system.connection
      else (alloc_error, none, [])

  -- `cfg` is `none` for a null pointer; `fuel` is for the header lines
  unfoldable pub ws_connect : ℕ → Option WsConfig → System S → Connected S
  unfolding do_handshake
  ws_connect fuel none system = (param_error, none, [])
  ws_connect fuel (some cfg) system = with_host fuel cfg system cfg.host

-- the calls on the socket of a client that is freed
unfoldable pub ws_destroy : {S : Type 0} → WsClient S → List SocketCall
ws_destroy ws = if ws.valid then closes ∷ [] else []
