-- ===== src/Pipeline/Dashboard/Run.antt =====
-- Over a run of the callback, every packet that is accepted reaches every registered browser.
use accel_observer.Prelude.{
  ℕ, ◌≡◌, refl, sym, ap, ◌∙◌, subst, inl, inr, List, [], ◌∷◌, ◌++◌, some, if_true, if_false,
  Bool-cases, Bytes,
}
use accel_observer.Net.Stream.{Socket, Accepts, Refuses}
use accel_observer.Storage.Packet.{DataPacket}
use accel_observer.Stats.{Doubles, StatsSnapshot, snapshot}
use accel_observer.Stats.Json.{to_json}
use accel_observer.Validator.{
  Reals, ParseResult, ok, invalid_format, missing_fields, out_of_range, parse,
}
use accel_observer.WebIf.Hub.{
  WebInterface, data_json, client_count, broadcast_data, broadcast_stats,
}
use accel_observer.WebIf.Hub.Broadcast.{Distinct}
use accel_observer.Pipeline.{Server, Call, on_parsed, callback, callbacks}
use accel_observer.Pipeline.Dashboard.{
  Dashboard, is_due, show_packet, shown_if_ok, callback_shown, callbacks_shown,
}
use accel_observer.Pipeline.Dashboard.Frames.{
  Shown, shown_of, accepted_of, data_text, stats_text, texts, Showing, Showing-none, Showing-append,
  guarded-Showing,
}

module _ {S D : Type 0} (net : Socket S) (refuses : Refuses net) (takes : Accepts net)
    (fp : Doubles D) (show_fixed : ℕ → D → Bytes) (interval : ℕ) where
  open net use {outgoing}

  -- One call from a dashboard with an interface: what it leaves, and the messages that it sends, which are
  -- the first of those for the packets of this call and of any later ones.
  record OneCall (shown : List (Shown D)) (w : WebInterface S D) (last : ℕ) (dash : Dashboard S D)
      : Type 0 where
    w' : WebInterface S D
    last' : ℕ
    messages : List Bytes
    ran : dash ≡ record { webif = some w'; last_stats_ms = last' }
    showing : Showing net messages w w'
    spec :
        (rest : List (Shown D))
        → texts fp show_fixed interval (shown ++ rest) last
          ≡ messages ++ texts fp show_fixed interval rest last'

  nothing_shown :
      (w : WebInterface S D) (last : ℕ)
      → OneCall [] w last (record { webif = some w; last_stats_ms = last })
  nothing_shown w last = record {
    w' = w;
    last' = last;
    messages = [];
    ran = refl;
    showing = Showing-none net w;
    spec = λ rest. refl;
  }

  packet_shown :
      (x : Shown D) (w : WebInterface S D) (last : ℕ)
      → Distinct w.client_fds
      → OneCall (x ∷ []) w last (
          show_packet net fp show_fixed interval x.recv_ms x.packet x.snap
            (record { webif = some w; last_stats_ms = last }))
  unfolding show_packet broadcast_data broadcast_stats client_count data_json to_json texts
  packet_shown x w last d =
      let one = guarded-Showing net refuses takes (data_text fp show_fixed interval x) w d in
      let w1 =
        broadcast_data net show_fixed x.packet
          (fp.sub (fp.of_u64 x.recv_ms) (fp.of_u64 x.packet.timestamp_ms)) x.snap.avg_jitter_ms w in
      elim (Bool-cases (is_due interval x.recv_ms last)) [
        | inl due ↦
            let two =
              guarded-Showing net refuses takes (stats_text fp show_fixed interval x.snap) w1
                (subst Distinct (sym one.same_fds) d) in
            record {
              w' = broadcast_stats net show_fixed x.snap w1;
              last' = x.recv_ms;
              messages =
                  data_text fp show_fixed interval x
                  ∷ stats_text fp show_fixed interval x.snap
                  ∷ [];
              ran = if_true _ _ due;
              showing = Showing-append net _ _ w w1 _ one two;
              spec = λ rest. ap (◌∷◌ (data_text fp show_fixed interval x)) (if_true _ _ due);
            }
        | inr early ↦ record {
          w' = w1;
          last' = last;
          messages = data_text fp show_fixed interval x ∷ [];
          ran = if_false _ _ early;
          showing = one;
          spec = λ rest. ap (◌∷◌ (data_text fp show_fixed interval x)) (if_false _ _ early);
        }
      ]

  one_call :
      (reals : Reals D) (recv_ms : ℕ) (r : ParseResult) (pkt : DataPacket D)
      (snap : StatsSnapshot D) (w : WebInterface S D) (last : ℕ)
      → Distinct w.client_fds
      → OneCall (shown_of fp reals recv_ms r pkt snap) w last (
          shown_if_ok net fp show_fixed interval recv_ms r pkt snap
            (record { webif = some w; last_stats_ms = last }))
  one_call reals recv_ms ok pkt snap w last d =
      packet_shown (record { recv_ms = recv_ms; packet = pkt; snap = snap }) w last d
  one_call reals recv_ms invalid_format pkt snap w last d = nothing_shown w last
  one_call reals recv_ms missing_fields pkt snap w last d = nothing_shown w last
  one_call reals recv_ms out_of_range pkt snap w last d = nothing_shown w last

  module _ {F : Type 0} (reals : Reals D) where
    -- While the kernel takes what is sent, if a send that fails sends nothing and the registered
    -- descriptors are different ones, over any sequence of payloads: each browser that is registered
    -- is sent, whole and in order, one frame for each packet that the validator accepts, with the
    -- statistics behind it when their interval has passed since they were last sent, modulo 2^64, and
    -- nothing else. The frames hold the JSON objects that `data_text` and `stats_text` write out, field
    -- by field. No browser is dropped and nothing is sent to any other descriptor; validator,
    -- statistics and storage do what they do without the browsers.
    pub callbacks_shown-frames :
        (calls : List (Call D)) (server : Server D F) (w : WebInterface S D) (last : ℕ)
        → Distinct w.client_fds
        → ((callbacks_shown net fp show_fixed interval reals calls
              (server, record { webif = some w; last_stats_ms = last })).0
            ≡ callbacks fp reals calls server)
          × ((w' : WebInterface S D) × ((callbacks_shown net fp show_fixed interval reals calls
                  (server, record { webif = some w; last_stats_ms = last })).1.webif
                ≡ some w')
              × Showing net
                  (texts fp show_fixed interval (accepted_of fp reals calls server) last)
                  w
                  w')
    unfolding callbacks_shown callback_shown callbacks callback accepted_of texts
    callbacks_shown-frames [] server w last d = (refl, (w, refl, Showing-none net w))
    callbacks_shown-frames (call ∷ calls) server w last d =
        let (parsed, counter) = parse reals call.cfg call.payload server.counter in
        let server' =
          on_parsed fp reals call.recv_ms parsed.result parsed.packet
            (record server { counter = counter }) in
        let one =
          one_call reals call.recv_ms parsed.result parsed.packet (snapshot fp server'.stats) w last
            d in
        let (same, (w2, ran, rest)) =
          callbacks_shown-frames calls server' one.w' one.last'
            (subst Distinct (sym one.showing.same_fds) d) in
        (
          ap (λ d. (callbacks_shown net fp show_fixed interval reals calls (server', d)).0) one.ran
              ∙ same,
          (
            w2,
            ap (λ d. (callbacks_shown net fp show_fixed interval reals calls (server', d)).1.webif)
                  one.ran
                ∙ ran,
            subst (λ ms. Showing net ms w w2) (sym (one.spec (accepted_of fp reals calls server')))
                (Showing-append net _ _ w one.w' w2 one.showing rest),
          ),
        )
