-- ===== src/ClientMain.antt =====
-- client/src/main.c: the client over a WebSocket.
pub mod Session
pub mod Whole
mod Tests
use accel_observer.Prelude.{
  ℕ, zero, suc, ◌+◌, Bool, true, false, not, List, [], ◌∷◌, ◌++◌, Option, none, some, ltb,
  if◌then◌else◌, Bytes,
}
use accel_observer.Net.Stream.{Socket}
use accel_observer.Sensor.{sensor_to_json}
use accel_observer.Storage.Packet.{DataPacket}
use accel_observer.WebSocket.Client.{
  WsError, ws_ok, net_error, handshake_error, frame_error, closed, alloc_error, param_error,
  WsClient, ws_send_text,
}
use accel_observer.WebSocket.Connect.{WsConfig, SocketCall, System, Connected, ws_connect}

-- One round of the loop: `g_running`, the milliseconds since the start, and what `sensor_read` gives.
pub record SampleRound (D : Type 0) : Type 0 where
  pub running : Bool
  pub elapsed_ms : ℕ
  pub sample : Option (DataPacket D)

-- The client and the two counters, which are far from the bound of `long`.
pub record Sender (S : Type 0) : Type 0 where
  pub ws : WsClient S
  pub sent : ℕ
  pub errors : ℕ

-- whether the loop goes on behind a step, and the state
abbrev pub Going : Type 0 → Type 0
Going S = Bool × Sender S

abbrev pub one_error : {S : Type 0} → Sender S → Sender S
one_error t = record t { errors = t.errors + 1 }

abbrev pub after_send : {S : Type 0} → Sender S → WsError × WsClient S → Going S
after_send t (ws_ok, ws) = (true, record t { ws = ws; sent = t.sent + 1 })
after_send t (net_error, ws) = (false, one_error (record t { ws = ws }))
after_send t (closed, ws) = (false, one_error (record t { ws = ws }))
after_send t (handshake_error, ws) = (true, one_error (record t { ws = ws }))
after_send t (frame_error, ws) = (true, one_error (record t { ws = ws }))
after_send t (alloc_error, ws) = (true, one_error (record t { ws = ws }))
after_send t (param_error, ws) = (true, one_error (record t { ws = ws }))

-- `json_buf` holds 256 bytes. The printing of doubles is a parameter, and so is the test of the time,
-- `elapsed_ms >= duration_sec * 1000.0` on doubles.
module _ {S D : Type 0} (net : Socket S) (show_fixed : D → Bytes) (time_up : ℕ → Bool) where
  abbrev pub send_json : Sender S → Option Bytes → Going S
  send_json t none = (true, one_error t)
  send_json t (some text) = after_send t (ws_send_text net (some text) t.ws)

  unfoldable pub send_sample : Sender S → Option (DataPacket D) → Going S
  send_sample t none = (true, one_error t)
  send_sample t (some pkt) = send_json t (sensor_to_json show_fixed pkt 256)

  abbrev pub go_on : Going S → (Sender S → Bool × Sender S) → Bool × Sender S
  go_on (false, t) next = (true, t)
  go_on (true, t) next = next t

  -- The loop over the rounds that there are; the Boolean is whether it has ended. The pace, which only
  -- sleeps, and the progress texts are left out.
  unfoldable pub client_loop : List (SampleRound D) → Sender S → Bool × Sender S
  unfolding send_sample
  client_loop [] t = (false, t)
  client_loop (r ∷ rounds) t =
      let rest = go_on (send_sample t r.sample) (client_loop rounds) in
      if not r.running then (true, t) else if time_up r.elapsed_ms then (true, t) else rest

  -- behind `ws_connect`; `none` is the exit with the code 1
  abbrev pub connected_loop : List (SampleRound D) → Connected S → Option (Bool × Sender S)
  connected_loop rounds (code, none, calls) = none
  connected_loop rounds (code, some ws, calls) =
      some (client_loop rounds (record { ws = ws; sent = 0; errors = 0 }))

  -- the part of `main` for the protocol "ws", up to `ws_close`; `fuel` is for the header lines
  unfoldable pub run_client :
      ℕ → Option WsConfig → System S → List (SampleRound D) → Option (Bool × Sender S)
  unfolding ws_connect client_loop
  run_client fuel cfg system rounds = connected_loop rounds (ws_connect net fuel cfg system)

-- the exit code
unfoldable pub exit_code : {S : Type 0} → Sender S → ℕ
exit_code t = if ltb 0 t.errors then 2 else 0
