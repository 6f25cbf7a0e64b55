-- ===== src/ClientMain/Whole.antt =====
-- From the sample to the callback, with both programs' handshakes.
use accel_observer.Prelude.{
  ℕ, ◌<◌, ◌^◌, ◌≡◌, refl, sym, ap, ◌∙◌, Bool, true, List, [], ◌∷◌, ◌++◌, append-nil, Option, none,
  some, arith, ltb, ltb→lt, if_cases, length, Bytes,
}
use accel_observer.Net.Stream.{Socket, Delivers, Accepts}
use accel_observer.Net.Line.{OneLine}
use accel_observer.Prelude.Text.{show_decimal}
use accel_observer.Sensor.{native_text, sensor_to_json}
use accel_observer.Storage.Packet.{DataPacket}
use accel_observer.WebSocket.Client.{WsClient, prng_seed}
use accel_observer.WebSocket.Server.{serve}
use accel_observer.WebSocket.Session.{frames, AllShort, delivered, serve-frames}
use accel_observer.WebSocket.Handshake
use accel_observer.WebSocket.Handshake.{key_of_line, response}
use accel_observer.WebSocket.Upgrade.{nonce}
use accel_observer.WebSocket.Upgrade.Agrees.{key_sent, request_sent, do_handshake-accepts}
use accel_observer.WebSocket.Upgrade.Joined.{host_line, upgrade-joined}
use accel_observer.WebSocket.Connect.{WsConfig, System, path_of, after_handshake, ws_connect}
use accel_observer.ClientMain.{SampleRound, Sender, client_loop, connected_loop, run_client}
use accel_observer.ClientMain.Session.{json_of, text_if, rounds_run, texts, faults, loop-Does}

module _ {D : Type 0} (show_fixed : D → Bytes) (time_up : ℕ → Bool) where
  -- The texts are short, and none of them is empty.
  abbrev Good : List Bytes → Type 0
  Good ms = AllShort ms × (delivered ms ≡ ms)

  sample-Good :
      (sample : Option (DataPacket D)) (rest : List Bytes)
      → Good rest
      → Good (text_if show_fixed time_up (json_of show_fixed time_up sample) ++ rest)
  unfolding sensor_to_json
  sample-Good none rest g = g
  sample-Good (some pkt) rest (short, same) =
      let text =
        native_text (show_decimal pkt.timestamp_ms) (show_decimal pkt.sequence_id)
          (show_fixed pkt.acc_x) (show_fixed pkt.acc_y) (show_fixed pkt.acc_z) in
      if_cases (λ o. Good (text_if show_fixed time_up o ++ rest)) (ltb (length text) 256)
        (some text) none
        (λ h.
          let small = ltb→lt (length text) 256 h in
          let fits : length text < 2 ^ 64 = omega arith in ((fits, short), ap (◌∷◌ text) same))
        (λ h. (short, same))

  texts-Good : (rounds : List (SampleRound D)) → Good (texts show_fixed time_up rounds)
  unfolding texts
  texts-Good [] = (tt, refl)
  texts-Good (r ∷ rounds) =
      sample-Good r.sample (texts show_fixed time_up rounds) (texts-Good rounds)

-- what the client has sent when its loop ends
abbrev pub sent_by : {S : Type 0} → Socket S → Option (Bool × Sender S) → Bytes
sent_by net none = []
sent_by net (some (ended, u)) = net.outgoing u.ws.sock

-- What the client and the server have come to: the messages of the client, and its counts.
pub record Arrives {S T : Type 0} (peer : Socket T) (messages : List Bytes) (bad : ℕ)
    (run : Option (Bool × Sender S)) (t : T) : Type 0 where
  pub ended : Bool
  pub sender : Sender S
  pub ran : run ≡ some (ended, sender)
  pub sent : sender.sent ≡ length messages
  pub errors : sender.errors ≡ bad
  pub accepted : T
  pub shaken : Handshake.do_handshake peer 1024 6 t ≡ (some tt, accepted)
  pub received : (serve peer (length messages) accepted).0 ≡ messages
  pub none_left : peer.incoming (serve peer (length messages) accepted).1 ≡ []

module _ {S T D : Type 0} (net : Socket S) (up : Delivers net) (takes : Accepts net)
    (peer : Socket T) (peer_up : Delivers peer) (peer_takes : Accepts peer) (show_fixed : D → Bytes)
    (time_up : ℕ → Bool) where
  abbrev config : Bytes → ℕ → Option Bytes → WsConfig
  config host port path = record { host = some host; port = port; path = path }

  abbrev system_of : ℕ → ℕ → S → System S
  system_of time pid s = record { allocates = true; time = time; pid = pid; connection = some s }

  -- Over a connection that stays up on both sides: let the client connect to the server, with a request
  -- as `upgrade-joined` asks for, and run its loop; let the server read what the client has sent and the
  -- client the server's answer. Then the client connects, it counts as sent the samples of the rounds
  -- before its loop ends whose text fits its buffer, and the other rounds as errors; the server
  -- accepts the connection, and its callback gets the texts of exactly these samples, in order.
  pub client-Arrives :
      (host : Bytes) (port : ℕ) (path : Option Bytes) (time pid : ℕ) (rounds : List (SampleRound D))
      (rest : Bytes) (s : S) (t : T)
      → OneLine (path_of path)
      → OneLine host
      → key_of_line [] (host_line host port) ≡ []
      → length (request_sent (prng_seed time pid) host port (path_of path)) < 1024
      → net.incoming s ≡ response (key_sent (prng_seed time pid)) ++ rest
      → net.outgoing s ≡ []
      → peer.incoming t
        ≡ sent_by net (
            run_client net show_fixed time_up 4
              (some (config host port path))
              (system_of time pid s)
              rounds)
      → Arrives peer
          (texts show_fixed time_up (rounds_run show_fixed time_up rounds))
          (faults show_fixed time_up (rounds_run show_fixed time_up rounds))
          (run_client net show_fixed time_up 4
            (some (config host port path))
            (system_of time pid s)
            rounds)
          t
  unfolding run_client ws_connect
  client-Arrives host port path time pid rounds rest s t one_path one_host plain short answer fresh
        carried =
      let seed = prng_seed time pid in
      let rng = (nonce 16 seed).1 in
      let messages = texts show_fixed time_up (rounds_run show_fixed time_up rounds) in
      let first : WsClient S = record { valid = true; sock = s; rng_state = seed } in
      let (s1, ran, left, wire) =
        do_handshake-accepts net up takes 0 host port (path_of path) rest first short answer in
      let start : Sender S = record {
        ws = record { valid = true; sock = s1; rng_state = rng };
        sent = 0;
        errors = 0;
      } in
      let looped = client_loop net show_fixed time_up rounds start in
      let connected : run_client net show_fixed time_up 4 (some (config host port path))
            (system_of time pid s) rounds
          ≡ some looped =
        ap (λ r. connected_loop net show_fixed time_up rounds (after_handshake r)) ran in
      let does = loop-Does net show_fixed time_up takes rounds start refl in
      let stream : peer.incoming t
          ≡ request_sent seed host port (path_of path) ++ frames rng messages =
        carried
        ∙ ap (sent_by net) connected
        ∙ does.wire
        ∙ ap (λ o. o ++ frames rng messages)
            (wire ∙ ap (λ o. o ++ request_sent seed host port (path_of path)) fresh) in
      let ((t1, shaken, later, quiet), client) =
        upgrade-joined net up takes peer peer_up peer_takes host port (path_of path) rest
          (frames rng messages) first t one_path one_host plain short answer stream in
      let (small, same) = texts-Good show_fixed time_up (rounds_run show_fixed time_up rounds) in
      let (got, none_left, quiet1) =
        serve-frames peer peer_up messages rng [] t1 small
          (later ∙ sym (append-nil (frames rng messages))) in
      record {
        ended = looped.0;
        sender = looped.1;
        ran = connected;
        sent = does.sent ∙ omega arith;
        errors = does.errors ∙ omega arith;
        accepted = t1;
        shaken = shaken;
        received = got ∙ same;
        none_left = none_left;
      }
