-- ===== src/WebIf/Hub.antt =====
-- server/src/webif/web_interface.cpp: the connections to the browsers, and what is sent to all of them.
pub mod Broadcast
pub mod Threads
use accel_observer.Prelude.{
  ℕ, zero, suc, Bool, true, false, List, [], ◌∷◌, ◌++◌, Option, none, some, ◌==◌, if◌then◌else◌,
  length, map, take, Bytes, codes,
}
use accel_observer.Prelude.Text.{show_decimal}
use accel_observer.Net.Stream.{Socket}
use accel_observer.Storage.Packet.{DataPacket}
use accel_observer.Stats.{StatsSnapshot}
use accel_observer.Stats.Json.{joined, to_json}
use accel_observer.WebIf.{ws_encode_frame}
use accel_observer.WebIf.Send.{is_ok, send_raw}

-- Calls on a descriptor besides sending and receiving.
pub data FdCall : Type 0 where
  accepted shut closed : ℕ → FdCall

-- What the methods read and write: the registered browsers, the device, the connection behind each
-- descriptor, and the calls so far. `D` is the type of doubles.
pub record WebInterface (S D : Type 0) : Type 0 where
  pub client_fds : List ℕ
  pub device_model : Bytes
  pub device_range_g : D
  pub wires : ℕ → S
  pub calls : List FdCall

abbrev pub mem : ℕ → List ℕ → Bool
mem fd [] = false
mem fd (x ∷ xs) = if x == fd then true else mem fd xs

-- `erase(remove(..))`
unfoldable pub erase : ℕ → List ℕ → List ℕ
erase fd [] = []
erase fd (x ∷ xs) = if x == fd then erase fd xs else x ∷ erase fd xs

-- what a client thread does to the list, and at its end
unfoldable pub register_fd : {S D : Type 0} → ℕ → WebInterface S D → WebInterface S D
register_fd fd w = record w { client_fds = w.client_fds ++ fd ∷ [] }

unfoldable pub unregister_fd : {S D : Type 0} → ℕ → WebInterface S D → WebInterface S D
unfolding erase
unregister_fd fd w = record w { client_fds = erase fd w.client_fds }

abbrev pub close_fd : {S D : Type 0} → ℕ → WebInterface S D → WebInterface S D
close_fd fd w = record w { calls = w.calls ++ closed fd ∷ [] }

-- `stop`: every registered browser is shut down, and the list is cleared.
unfoldable pub shut_all : {S D : Type 0} → WebInterface S D → WebInterface S D
shut_all w = record w { client_fds = []; calls = w.calls ++ map shut w.client_fds }

abbrev pub put : {S : Type 0} → ℕ → S → (ℕ → S) → ℕ → S
put fd s wires n = if n == fd then s else wires n

abbrev pub dead_if : Bool → ℕ → List ℕ → List ℕ
dead_if true fd dead = dead
dead_if false fd dead = fd ∷ dead

unfoldable pub client_count : {S D : Type 0} → WebInterface S D → ℕ
client_count w = length w.client_fds

unfoldable pub set_device_info : {S D : Type 0} → Bytes → D → WebInterface S D → WebInterface S D
set_device_info model range_g w = record w { device_model = model; device_range_g = range_g }

-- the message about the device, in `char buf[128]`
unfoldable pub device_json : {D : Type 0} → (ℕ → D → Bytes) → Bytes → D → Bytes
device_json show_fixed model range_g = take 127 (
    joined (
      codes "{\"type\":\"device\",\"model\":\""
      ∷ model
      ∷ codes "\",\"range_g\":"
      ∷ show_fixed 1 range_g
      ∷ codes "}"
      ∷ []))

-- the message about a packet, in `char buf[256]`
unfoldable pub data_json : {D : Type 0} → (ℕ → D → Bytes) → DataPacket D → D → D → Bytes
data_json show_fixed pkt latency_ms jitter_ms = take 255 (
    joined (
      codes "{\"type\":\"data\",\"ts\":"
      ∷ show_decimal pkt.timestamp_ms
      ∷ codes ",\"seq\":"
      ∷ show_decimal pkt.sequence_id
      ∷ codes ",\"ax\":"
      ∷ show_fixed 6 pkt.acc_x
      ∷ codes ",\"ay\":"
      ∷ show_fixed 6 pkt.acc_y
      ∷ codes ",\"az\":"
      ∷ show_fixed 6 pkt.acc_z
      ∷ codes ",\"lat\":"
      ∷ show_fixed 3 latency_ms
      ∷ codes ",\"jitter\":"
      ∷ show_fixed 3 jitter_ms
      ∷ codes "}"
      ∷ []))

-- Each descriptor that is dead is taken out of the list, and shut down, but not closed.
unfoldable pub bury : {S D : Type 0} → List ℕ → WebInterface S D → WebInterface S D
unfolding erase
bury [] w = w
bury (fd ∷ dead) w =
    bury dead (record w { client_fds = erase fd w.client_fds; calls = w.calls ++ shut fd ∷ [] })

-- The frame is sent to each descriptor of the snapshot; the result is `dead`.
unfoldable pub send_each : {S : Type 0} → Socket S → List ℕ → Bytes → (ℕ → S) → List ℕ × (ℕ → S)
send_each net [] frame wires = ([], wires)
send_each net (fd ∷ snapshot) frame wires =
    let (sent, s) = send_raw net frame (wires fd) in
    let (dead, wires') = send_each net snapshot frame (put fd s wires) in
    (dead_if (is_ok sent) fd dead, wires')

module _ {S D : Type 0} (net : Socket S) where
  unfoldable pub ws_send_one : ℕ → Bytes → WebInterface S D → WebInterface S D
  unfolding ws_encode_frame
  ws_send_one fd json w = record w {
    wires = put fd (send_raw net (ws_encode_frame json) (w.wires fd)).1 w.wires;
  }

  unfoldable pub ws_broadcast : Bytes → WebInterface S D → WebInterface S D
  unfolding send_each bury
  ws_broadcast json w =
      let (dead, wires) = send_each net w.client_fds (ws_encode_frame json) w.wires in
      bury dead (record w { wires = wires })

  unfoldable pub broadcast_data :
      (ℕ → D → Bytes) → DataPacket D → D → D → WebInterface S D → WebInterface S D
  unfolding client_count ws_broadcast
  broadcast_data show_fixed pkt latency_ms jitter_ms w =
      if client_count w == 0
      then w
      else ws_broadcast (data_json show_fixed pkt latency_ms jitter_ms) w

  unfoldable pub broadcast_stats :
      (ℕ → D → Bytes) → StatsSnapshot D → WebInterface S D → WebInterface S D
  unfolding client_count ws_broadcast
  broadcast_stats show_fixed snap w =
      if client_count w == 0 then w else ws_broadcast (to_json show_fixed snap) w
