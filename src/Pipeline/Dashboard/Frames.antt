-- ===== src/Pipeline/Dashboard/Frames.antt =====
-- Every packet that is accepted reaches every registered browser.
use accel_observer.Prelude.{
  ℕ, ◌+◌, ◌-◌, ◌^◌, leb, u64, take, codes, ◌≡◌, refl, sym, ap, ◌∙◌, Bool, true, false, List, [],
  ◌∷◌, ◌++◌, append_assoc, append-nil, arith, ◌==◌, if◌then◌else◌, if_false, if_cases, length,
  Bytes,
}
use accel_observer.Net.Stream.{Socket, Accepts, Refuses}
use accel_observer.Storage.Packet.{DataPacket}
use accel_observer.Stats.{Doubles, StatsSnapshot, snapshot}
use accel_observer.Prelude.Text.{show_decimal}
use accel_observer.Validator.{
  Reals, ParseResult, ok, invalid_format, missing_fields, out_of_range, parse,
}
use accel_observer.WebIf.{ws_encode_frame}
use accel_observer.WebIf.Hub.{WebInterface, mem, ws_broadcast}
use accel_observer.WebIf.Messages.{object, in_quotes}
use accel_observer.WebIf.Hub.Broadcast.{Distinct, ws_broadcast-all}
use accel_observer.Pipeline.{Server, Call, on_parsed}

-- the frames of messages, one behind the other
abbrev pub frames : List Bytes → Bytes
frames [] = []
frames (text ∷ texts) = ws_encode_frame text ++ frames texts

frames-append : (xs ys : List Bytes) → frames (xs ++ ys) ≡ frames xs ++ frames ys
frames-append [] ys = refl
frames-append (x ∷ xs) ys =
    ap (◌++◌ (ws_encode_frame x)) (frames-append xs ys)
    ∙ sym (append_assoc (ws_encode_frame x) (frames xs) (frames ys))

-- what a descriptor is sent, by whether it is registered
sent_none : (b : Bool) → (if b then frames [] else []) ≡ []
sent_none true = refl
sent_none false = refl

sent_append :
    (b : Bool) (xs ys : List Bytes)
    → (if b then frames (xs ++ ys) else [])
      ≡ (if b then frames xs else []) ++ (if b then frames ys else [])
sent_append true xs ys = frames-append xs ys
sent_append false xs ys = refl

sent_one :
    (b : Bool) (text : Bytes)
    → (if b then ws_encode_frame text else []) ≡ (if b then frames (text ∷ []) else [])
sent_one true text = sym (append-nil (ws_encode_frame text))
sent_one false text = refl

-- a packet that is accepted, when it came, and the statistics behind it
pub record Shown (D : Type 0) : Type 0 where
  pub recv_ms : ℕ
  pub packet : DataPacket D
  pub snap : StatsSnapshot D

module _ {D : Type 0} (fp : Doubles D) (reals : Reals D) where
  abbrev pub shown_of : ℕ → ParseResult → DataPacket D → StatsSnapshot D → List (Shown D)
  shown_of recv_ms ok pkt snap = record { recv_ms = recv_ms; packet = pkt; snap = snap } ∷ []
  shown_of recv_ms invalid_format pkt snap = []
  shown_of recv_ms missing_fields pkt snap = []
  shown_of recv_ms out_of_range pkt snap = []

  -- the accepted packets of a sequence of calls, in order
  unfoldable pub accepted_of : {F : Type 0} → List (Call D) → Server D F → List (Shown D)
  accepted_of [] server = []
  accepted_of (call ∷ calls) server =
      let (parsed, counter) = parse reals call.cfg call.payload server.counter in
      let server' =
        on_parsed fp reals call.recv_ms parsed.result parsed.packet
          (record server { counter = counter }) in
      shown_of call.recv_ms parsed.result parsed.packet (snapshot fp server'.stats)
      ++ accepted_of calls server'

module _ {D : Type 0} (fp : Doubles D) (show_fixed : ℕ → D → Bytes) (interval : ℕ) where
  -- The message about a packet: its time stamp, its number, its axes, the time from the stamp to the
  -- arrival, and the mean jitter; cut at 255 bytes.
  abbrev pub data_text : Shown D → Bytes
  data_text x =
      let latency = fp.sub (fp.of_u64 x.recv_ms) (fp.of_u64 x.packet.timestamp_ms) in
      take 255 (
        object (
          (codes "type", in_quotes (codes "data"))
          ∷ (codes "ts", show_decimal x.packet.timestamp_ms)
          ∷ (codes "seq", show_decimal x.packet.sequence_id)
          ∷ (codes "ax", show_fixed 6 x.packet.acc_x)
          ∷ (codes "ay", show_fixed 6 x.packet.acc_y)
          ∷ (codes "az", show_fixed 6 x.packet.acc_z)
          ∷ (codes "lat", show_fixed 3 latency)
          ∷ (codes "jitter", show_fixed 3 x.snap.avg_jitter_ms)
          ∷ []))

  -- the message about the statistics, cut at 511 bytes
  abbrev pub stats_text : StatsSnapshot D → Bytes
  stats_text snap = take 511 (
      object (
        (codes "type", in_quotes (codes "stats"))
        ∷ (codes "rx", show_decimal snap.packets_received)
        ∷ (codes "lost", show_decimal snap.packets_lost)
        ∷ (codes "loss_pct", show_fixed 3 snap.loss_rate_pct)
        ∷ (codes "lat_min", show_fixed 3 snap.min_latency_ms)
        ∷ (codes "lat_avg", show_fixed 3 snap.avg_latency_ms)
        ∷ (codes "lat_max", show_fixed 3 snap.max_latency_ms)
        ∷ (codes "jitter_avg", show_fixed 3 snap.avg_jitter_ms)
        ∷ (codes "jitter_max", show_fixed 3 snap.max_jitter_ms)
        ∷ (codes "rate_hz", show_fixed 2 snap.rx_rate_hz)
        ∷ (codes "last_seq", show_decimal snap.last_seq)
        ∷ []))

  -- The messages: one for each packet, and the statistics behind it when the time that has passed since
  -- they were last sent, modulo 2^64, is the interval at least.
  unfoldable pub texts : List (Shown D) → ℕ → List Bytes
  texts [] last = []
  texts (x ∷ xs) last =
      data_text x
      ∷ (if leb interval (u64 (x.recv_ms + 2 ^ 64 - last))
          then stats_text x.snap ∷ texts xs x.recv_ms
          else texts xs last)

module _ {S D : Type 0} (net : Socket S) where
  open net use {outgoing}

  -- From one state of the interface to another, exactly these messages are sent to the registered
  -- browsers, which stay the same, and nothing to other descriptors.
  pub record Showing (messages : List Bytes) (w w' : WebInterface S D) : Type 0 where
    pub same_fds : w'.client_fds ≡ w.client_fds
    pub same_calls : w'.calls ≡ w.calls
    pub wire :
        (n : ℕ)
        → outgoing (w'.wires n)
          ≡ outgoing (w.wires n) ++ (if mem n w.client_fds then frames messages else [])

  pub Showing-none : (w : WebInterface S D) → Showing [] w w
  Showing-none w = record {
    same_fds = refl;
    same_calls = refl;
    wire = λ n.
        sym (append-nil (outgoing (w.wires n)))
        ∙ ap (◌++◌ (outgoing (w.wires n))) (sym (sent_none (mem n w.client_fds)));
  }

  pub Showing-append :
      (xs ys : List Bytes) (u v w : WebInterface S D)
      → Showing xs u v
      → Showing ys v w
      → Showing (xs ++ ys) u w
  Showing-append xs ys u v w p q = record {
    same_fds = q.same_fds ∙ p.same_fds;
    same_calls = q.same_calls ∙ p.same_calls;
    wire = λ n.
        q.wire n
        ∙ ap (λ fds. outgoing (v.wires n) ++ (if mem n fds then frames ys else [])) p.same_fds
        ∙ ap (λ o. o ++ (if mem n u.client_fds then frames ys else [])) (p.wire n)
        ∙ append_assoc (outgoing (u.wires n)) _ _
        ∙ ap (◌++◌ (outgoing (u.wires n))) (sym (sent_append (mem n u.client_fds) xs ys));
  }

  module _ (refuses : Refuses net) (takes : Accepts net) where
    ws_broadcast-Showing :
        (text : Bytes) (w : WebInterface S D)
        → Distinct w.client_fds
        → Showing (text ∷ []) w (ws_broadcast net text w)
    ws_broadcast-Showing text w d =
        let (fds, log, wires) = ws_broadcast-all net refuses takes text w d in
        record {
          same_fds = fds;
          same_calls = log;
          wire =
              λ n. wires n ∙ ap (◌++◌ (outgoing (w.wires n))) (sent_one (mem n w.client_fds) text);
        }

    -- Nobody is there to be sent anything.
    empty-Showing :
        (text : Bytes) (w : WebInterface S D) → length w.client_fds ≡ 0 → Showing (text ∷ []) w w
    empty-Showing text w e = record {
      same_fds = refl;
      same_calls = refl;
      wire = λ n.
          sym (append-nil (outgoing (w.wires n)))
          ∙ ap (◌++◌ (outgoing (w.wires n)))
              (sym (if_false (frames (text ∷ [])) [] (no_member n w.client_fds e)));
    }
      where
        no_member : (n : ℕ) (fds : List ℕ) → length fds ≡ 0 → mem n fds ≡ false
        no_member n [] z = refl
        no_member n (x ∷ xs) z = absurd (omega arith)

    -- A broadcast that is left out when nobody is registered.
    pub guarded-Showing :
        (text : Bytes) (w : WebInterface S D)
        → Distinct w.client_fds
        → Showing (text ∷ []) w (if length w.client_fds == 0 then w else ws_broadcast net text w)
    guarded-Showing text w d =
        if_cases (Showing (text ∷ []) w) (length w.client_fds == 0) w (ws_broadcast net text w)
          (λ h. empty-Showing text w (ground arith)) (λ h. ws_broadcast-Showing text w d)
