-- ===== src/Pipeline/Dashboard.antt =====
-- server/src/main.cpp: what the callback sends to the browsers.
pub mod Frames
pub mod Run
use accel_observer.Prelude.{
  ℕ, ◌+◌, ◌-◌, ◌^◌, ◌%◌, Bool, true, false, List, [], ◌∷◌, ◌++◌, Option, none, some, leb,
  if◌then◌else◌, Bytes,
}
use accel_observer.Net.Stream.{Socket}
use accel_observer.Storage.Packet.{DataPacket}
use accel_observer.Stats.{Doubles, StatsSnapshot, snapshot}
use accel_observer.Validator.{
  Reals, ParseResult, ok, invalid_format, missing_fields, out_of_range, ParsedPacket, parse,
}
use accel_observer.WebIf.Hub.{WebInterface, broadcast_data, broadcast_stats}
use accel_observer.Pipeline.{Server, Call, on_parsed}

-- `webif`, which is null if the interface is disabled, and `last_stats_ms`
pub record Dashboard (S D : Type 0) : Type 0 where
  pub webif : Option (WebInterface S D)
  pub last_stats_ms : ℕ

-- `now - last_stats_ms >= web_stats_interval_ms`, on unsigned numbers of 64 bits
abbrev pub is_due : ℕ → ℕ → ℕ → Bool
is_due interval now last = leb interval ((now + 2 ^ 64 - last) % 2 ^ 64)

-- The socket, the arithmetic and the printing of doubles, and `web_stats_interval_ms`.
module _ {S D : Type 0} (net : Socket S) (fp : Doubles D) (show_fixed : ℕ → D → Bytes)
    (interval : ℕ) where
  abbrev pub with_stats : ℕ → StatsSnapshot D → ℕ → WebInterface S D → Dashboard S D
  with_stats now snap last w =
      if is_due interval now last
      then record { webif = some (broadcast_stats net show_fixed snap w); last_stats_ms = now }
      else record { webif = some w; last_stats_ms = last }

  -- `if (webif)`
  abbrev pub show_in :
      ℕ → DataPacket D → StatsSnapshot D → ℕ → Option (WebInterface S D) → Dashboard S D
  show_in recv_ms pkt snap last none = record { webif = none; last_stats_ms = last }
  show_in recv_ms pkt snap last (some w) =
      let lat = fp.sub (fp.of_u64 recv_ms) (fp.of_u64 pkt.timestamp_ms) in
      with_stats recv_ms snap last (broadcast_data net show_fixed pkt lat snap.avg_jitter_ms w)

  unfoldable pub show_packet : ℕ → DataPacket D → StatsSnapshot D → Dashboard S D → Dashboard S D
  show_packet recv_ms pkt snap dash = show_in recv_ms pkt snap dash.last_stats_ms dash.webif

  abbrev pub shown_if_ok :
      ℕ → ParseResult → DataPacket D → StatsSnapshot D → Dashboard S D → Dashboard S D
  shown_if_ok recv_ms ok pkt snap dash = show_packet recv_ms pkt snap dash
  shown_if_ok recv_ms invalid_format pkt snap dash = dash
  shown_if_ok recv_ms missing_fields pkt snap dash = dash
  shown_if_ok recv_ms out_of_range pkt snap dash = dash

  module _ {F : Type 0} (reals : Reals D) where
    -- The whole callback, with the browser interface: the snapshot is taken behind `record`.
    unfoldable pub callback_shown : Call D → Server D F × Dashboard S D → Server D F × Dashboard S D
    unfolding show_packet
    callback_shown call (server, dash) =
        let (parsed, counter) = parse reals call.cfg call.payload server.counter in
        let server' =
          on_parsed fp reals call.recv_ms parsed.result parsed.packet
            (record server { counter = counter }) in
        (
          server',
          shown_if_ok call.recv_ms parsed.result parsed.packet (snapshot fp server'.stats) dash,
        )

    unfoldable pub callbacks_shown :
        List (Call D) → Server D F × Dashboard S D → Server D F × Dashboard S D
    unfolding callback_shown
    callbacks_shown [] both = both
    callbacks_shown (call ∷ calls) both = callbacks_shown calls (callback_shown call both)
