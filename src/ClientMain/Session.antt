-- ===== src/ClientMain/Session.antt =====
-- The whole way of the samples, from the client's loop to the server's callback.
use accel_observer.Prelude.{
  ℕ, ◌+◌, ◌≡◌, refl, sym, ap, ◌∙◌, subst, Bool, true, false, not, List, [], ◌∷◌, ◌++◌, append_assoc,
  append-nil, Option, none, some, arith, if◌then◌else◌, length, Bytes,
}
use accel_observer.Net.Stream.{Socket, Accepts}
use accel_observer.Sensor.{sensor_to_json}
use accel_observer.Storage.Packet.{DataPacket}
use accel_observer.WebSocket.Client.{prng_next, mask_bytes}
use accel_observer.WebSocket.Client.Frame.{text_frame, ws_send_text-frame}
use accel_observer.WebSocket.Session.{frames}
use accel_observer.ClientMain.{
  SampleRound, Sender, after_send, send_json, send_sample, go_on, client_loop,
}

module _ {D : Type 0} (show_fixed : D → Bytes) (time_up : ℕ → Bool) where
  abbrev pub json_of : Option (DataPacket D) → Option Bytes
  json_of none = none
  json_of (some pkt) = sensor_to_json show_fixed pkt 256

  abbrev pub text_if : Option Bytes → List Bytes
  text_if none = []
  text_if (some text) = text ∷ []

  abbrev pub fault_if : Option Bytes → ℕ
  fault_if none = 1
  fault_if (some text) = 0

  -- The rounds before the loop ends.
  unfoldable pub rounds_run : List (SampleRound D) → List (SampleRound D)
  rounds_run [] = []
  rounds_run (r ∷ rounds) =
      if not r.running then [] else if time_up r.elapsed_ms then [] else r ∷ rounds_run rounds

  -- The texts of the samples that are read, and the number of rounds without one.
  unfoldable pub texts : List (SampleRound D) → List Bytes
  texts [] = []
  texts (r ∷ rounds) = text_if (json_of r.sample) ++ texts rounds

  unfoldable pub faults : List (SampleRound D) → ℕ
  faults [] = 0
  faults (r ∷ rounds) = fault_if (json_of r.sample) + faults rounds

module _ {S D : Type 0} (net : Socket S) (show_fixed : D → Bytes) (time_up : ℕ → Bool) where
  open net use {outgoing}

  -- What a piece of the loop has sent and counted.
  pub record Sends (messages : List Bytes) (bad : ℕ) (t u : Sender S) : Type 0 where
    pub valid : u.ws.valid ≡ true
    pub wire : outgoing u.ws.sock ≡ outgoing t.ws.sock ++ frames t.ws.rng_state messages
    pub sent : u.sent ≡ t.sent + length messages
    pub errors : u.errors ≡ t.errors + bad

  Sends-none : (t : Sender S) → t.ws.valid ≡ true → Sends [] 0 t t
  Sends-none t v = record {
    valid = v;
    wire = sym (append-nil (outgoing t.ws.sock));
    sent = omega arith;
    errors = omega arith;
  }

  abbrev run : List (SampleRound D) → Sender S → Bool × Sender S
  run = client_loop net show_fixed time_up

  by_json :
      (sample : Option (DataPacket D)) (t : Sender S)
      → send_sample net show_fixed time_up t sample
        ≡ send_json net show_fixed time_up t (json_of show_fixed time_up sample)
  unfolding send_sample
  by_json none t = refl
  by_json (some pkt) t = refl

  -- A round without a text, and one with a text, before a piece of the loop.
  Sends-fault :
      (messages : List Bytes) (bad : ℕ) (t u : Sender S)
      → Sends messages bad (record t { errors = t.errors + 1 }) u
      → Sends messages (1 + bad) t u
  Sends-fault messages bad t u r = record {
    valid = r.valid;
    wire = r.wire;
    sent = r.sent;
    errors = r.errors ∙ omega arith;
  }

  Sends-text :
      (text : Bytes) (messages : List Bytes) (bad : ℕ) (t u : Sender S) (s : S)
      → outgoing s ≡ outgoing t.ws.sock ++ text_frame (mask_bytes (prng_next t.ws.rng_state)) text
      → Sends messages bad
          (record t {
            ws = record t.ws { sock = s; rng_state = prng_next t.ws.rng_state };
            sent = t.sent + 1;
          })
          u
      → Sends (text ∷ messages) (0 + bad) t u
  Sends-text text messages bad t u s e r = record {
    valid = r.valid;
    wire =
        r.wire
        ∙ ap (λ o. o ++ frames (prng_next t.ws.rng_state) messages) e
        ∙ append_assoc (outgoing t.ws.sock) _ _;
    sent = r.sent ∙ omega arith;
    errors = r.errors ∙ omega arith;
  }

  -- What the loop does over some rounds.
  abbrev pub Does : Sender S → List (SampleRound D) → Bool × Sender S → Type 0
  Does t rounds r = Sends (texts show_fixed time_up rounds) (faults show_fixed time_up rounds) t r.1

  either_way :
      (t : Sender S) (b : Bool) (x y : List (SampleRound D)) (p q : Bool × Sender S)
      → Does t x p
      → Does t y q
      → Does t (if b then x else y) (if b then p else q)
  either_way t true x y p q d e = d
  either_way t false x y p q d e = e

  module _ (takes : Accepts net) where
    with_json :
        (json : Option Bytes) (rounds : List (SampleRound D)) (t : Sender S) (messages : List Bytes)
        (bad : ℕ)
        → t.ws.valid ≡ true
        → ((u : Sender S) → u.ws.valid ≡ true → Sends messages bad u (run rounds u).1)
        → Sends
            (text_if show_fixed time_up json ++ messages)
            (fault_if show_fixed time_up json + bad)
            t
            (go_on net show_fixed time_up (send_json net show_fixed time_up t json) (run rounds)).1
    with_json none rounds t messages bad v rest =
        Sends-fault messages bad t _ (rest (record t { errors = t.errors + 1 }) v)
    with_json (some text) rounds t messages bad v rest =
        let (s, done, wire, quiet) = ws_send_text-frame net takes text t.ws v in
        let after : Sender S = record t {
          ws = record t.ws { sock = s; rng_state = prng_next t.ws.rng_state };
          sent = t.sent + 1;
        } in
        subst
          (λ r.
            Sends (text ∷ messages) (0 + bad) t
              (go_on net show_fixed time_up (after_send t r) (run rounds)).1)
          (sym done) (Sends-text text messages bad t _ s wire (rest after v))

    pub loop-Does :
        (rounds : List (SampleRound D)) (t : Sender S)
        → t.ws.valid ≡ true
        → Does t (rounds_run show_fixed time_up rounds) (run rounds t)
    unfolding client_loop rounds_run texts faults
    loop-Does [] t v = Sends-none t v
    loop-Does (r ∷ rounds) t v =
        either_way t (not r.running) [] _ (true, t) _ (Sends-none t v)
          (either_way t (time_up r.elapsed_ms) [] _ (true, t) _ (Sends-none t v)
            (subst
              (λ g.
                Does t (r ∷ rounds_run show_fixed time_up rounds)
                  (go_on net show_fixed time_up g (run rounds)))
              (sym (by_json r.sample t))
              (with_json (json_of show_fixed time_up r.sample) rounds t _ _ v
                (λ u h. loop-Does rounds u h))))
