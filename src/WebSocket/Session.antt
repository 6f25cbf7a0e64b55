-- ===== src/WebSocket/Session.antt =====
-- A whole connection behind the handshake: what the client sends is what the server's callback gets.
use accel_observer.Prelude.{
  ℕ, ◌<◌, ◌^◌, ◌≡◌, refl, sym, ap, ap₂, ◌∙◌, true, List, [], ◌∷◌, ◌++◌, append_assoc, append-nil,
  Option, some, length, Bytes,
}
use accel_observer.Net.Stream.{Socket, Delivers, Accepts}
use accel_observer.WebSocket.Client.{WsError, ws_ok, WsClient, prng_next, mask_bytes, ws_send_text}
use accel_observer.WebSocket.Client.Frame.{text_frame, ws_send_text-frame}
use accel_observer.WebSocket.Server.{deliver, serve_next, serve}
use accel_observer.WebSocket.Server.Data.{read_frame-text}

-- The client's calls of `ws_send_text`, one for each message.
unfoldable pub send_all :
    {S : Type 0} → Socket S → List Bytes → WsClient S → List WsError × WsClient S
send_all net [] ws = ([], ws)
send_all net (m ∷ ms) ws =
    let (code, ws') = ws_send_text net (some m) ws in
    let (codes, last) = send_all net ms ws' in (code ∷ codes, last)

-- The frames of the messages, with the masks that the generator draws from the state `rng` on.
abbrev pub frames : ℕ → List Bytes → Bytes
frames rng [] = []
frames rng (m ∷ ms) = text_frame (mask_bytes (prng_next rng)) m ++ frames (prng_next rng) ms

-- The messages that are not empty.
abbrev pub delivered : List Bytes → List Bytes
delivered [] = []
delivered (m ∷ ms) = deliver m (delivered ms)

abbrev pub AllShort : List Bytes → Type 0
AllShort [] = Unit
AllShort (m ∷ ms) = (length m < 2 ^ 64) × AllShort ms

abbrev pub all_ok : List Bytes → List WsError
all_ok [] = []
all_ok (m ∷ ms) = ws_ok ∷ all_ok ms

module _ {S : Type 0} (net : Socket S) where
  send_all-frames :
      Accepts net
      → (ms : List Bytes) (ws : WsClient S) → ws.valid ≡ true
      → ((send_all net ms ws).0 ≡ all_ok ms)
        × (net.outgoing (send_all net ms ws).1.sock
            ≡ net.outgoing ws.sock ++ frames ws.rng_state ms)
  unfolding send_all
  send_all-frames up [] ws valid = (refl, sym (append-nil (net.outgoing ws.sock)))
  send_all-frames up (m ∷ ms) ws valid =
      let (s1, done, wire, quiet) = ws_send_text-frame net up m ws valid in
      let ws1 = record ws { sock = s1; rng_state = prng_next ws.rng_state } in
      let (codes, more) = send_all-frames up ms ws1 valid in
      (
        ap₂ ◌∷◌ (ap (λ r. r.0) done) (ap (λ r. (send_all net ms r.1).0) done ∙ codes),
        ap (λ r. net.outgoing (send_all net ms r.1).1.sock) done
            ∙ more
            ∙ ap (λ w. w ++ frames (prng_next ws.rng_state) ms) wire
            ∙ append_assoc (net.outgoing ws.sock)
                (text_frame (mask_bytes (prng_next ws.rng_state)) m)
                (frames (prng_next ws.rng_state) ms),
      )

  pub serve-frames :
      Delivers net
      → (ms : List Bytes) (rng : ℕ) (rest : Bytes) (s : S) → AllShort ms
      → net.incoming s ≡ frames rng ms ++ rest
      → ((serve net (length ms) s).0 ≡ delivered ms)
        × (net.incoming (serve net (length ms) s).1 ≡ rest)
        × (net.outgoing (serve net (length ms) s).1 ≡ net.outgoing s)
  unfolding serve mask_bytes
  serve-frames up [] rng rest s short e = (refl, e, refl)
  serve-frames up (m ∷ ms) rng rest s (short, shorts) e =
      let (s1, ran, left, quiet) =
        read_frame-text net up (mask_bytes (prng_next rng)) m (frames (prng_next rng) ms ++ rest) s
          refl short
          (e
            ∙ append_assoc (text_frame (mask_bytes (prng_next rng)) m) (frames (prng_next rng) ms)
                rest) in
      let (later, left', quiet') = serve-frames up ms (prng_next rng) rest s1 shorts left in
      let step = λ (r : Option Bytes × S). serve_next r (serve net (length ms)) in
      (
        ap (λ r. (step r).0) ran ∙ ap (deliver m) later,
        ap (λ r. net.incoming (step r).1) ran ∙ left',
        ap (λ r. net.outgoing (step r).1) ran ∙ quiet' ∙ quiet,
      )

-- With a client and a server whose connections stay up, a client socket that is valid and has sent
-- nothing yet, messages shorter than 2^64 bytes, and a stream that carries what the client has sent:
-- all the client's sends answer WS_OK, and the server's callback gets exactly the messages that are
-- not empty, in order and unchanged; nothing is left in the stream and nothing is sent back.
pub session :
    {S T : Type 0} (client_net : Socket S) (server_net : Socket T)
    → Accepts client_net
    → Delivers server_net
    → (ms : List Bytes) (ws : WsClient S) (s : T) → ws.valid ≡ true
    → AllShort ms
    → client_net.outgoing ws.sock ≡ []
    → server_net.incoming s ≡ client_net.outgoing (send_all client_net ms ws).1.sock
    → ((send_all client_net ms ws).0 ≡ all_ok ms)
      × ((serve server_net (length ms) s).0 ≡ delivered ms)
      × (server_net.incoming (serve server_net (length ms) s).1 ≡ [])
      × (server_net.outgoing (serve server_net (length ms) s).1 ≡ server_net.outgoing s)
session client_net server_net accepts delivers ms ws s valid short fresh carried =
    let (codes, wire) = send_all-frames client_net accepts ms ws valid in
    let (got, left, quiet) = serve-frames server_net delivers ms ws.rng_state [] s short (
      carried
      ∙ wire
      ∙ ap (λ w. w ++ frames ws.rng_state ms) fresh
      ∙ sym (append-nil (frames ws.rng_state ms))) in
    (codes, got, left, quiet)
