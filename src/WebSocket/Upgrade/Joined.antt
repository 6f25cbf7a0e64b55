-- ===== src/WebSocket/Upgrade/Joined.antt =====
-- The server reads the client's request, and the client its answer.
use accel_observer.Prelude.{
  ℕ, zero, suc, ◌+◌, ◌/◌, ◌%◌, ◌<◌, ltb, if_either, ◌≡◌, refl, sym, ap, ◌∙◌, false, List, [], ◌∷◌,
  ◌++◌, append_assoc, some, arith, ◌==◌, length, length-append, Bytes, codes,
}
use accel_observer.Prelude.Text.{decimal, show_decimal}
use accel_observer.Crypto.Base64.{base64_encode}
use accel_observer.Crypto.Base64.Printable.{Printable, base64_encode-Printable}
use accel_observer.Net.Stream.{Socket, Delivers, Accepts}
use accel_observer.Net.Line.{OneLine, OneLine_lem, OneLine-concat}
use accel_observer.WebSocket.Client.{ws_ok, WsClient, prng_next}
use accel_observer.WebSocket.Handshake
use accel_observer.WebSocket.Handshake.{
  skip_ws, keep_word, cut_ws, key_of_line, after_colon, response,
}
use accel_observer.WebSocket.Handshake.Answer.{
  with_end, header_text, key_of, Headers, do_handshake-response,
}
use accel_observer.WebSocket.Upgrade.{nonce, upgrade_request, do_handshake}
use accel_observer.WebSocket.Upgrade.Lines.{Printable-OneLine}
use accel_observer.WebSocket.Upgrade.Agrees.{key_sent, request_sent, do_handshake-accepts}

abbrev pub host_line : Bytes → ℕ → Bytes
host_line host port = codes "Host: " ++ (host ++ (codes ":" ++ show_decimal port))

abbrev key_line : Bytes → Bytes
key_line key = codes "Sec-WebSocket-Key: " ++ key

abbrev request_line : Bytes → Bytes
request_line path = codes "GET " ++ (path ++ codes " HTTP/1.1")

abbrev request_headers : Bytes → ℕ → Bytes → List Bytes
request_headers host port key =
    host_line host port
    ∷ codes "Upgrade: websocket"
    ∷ codes "Connection: Upgrade"
    ∷ key_line key
    ∷ codes "Sec-WebSocket-Version: 13"
    ∷ []

request-lines :
    (path host key : Bytes) (port : ℕ)
    → upgrade_request path host port key
      ≡ with_end (request_line path) ++ header_text (request_headers host port key)
unfolding upgrade_request
request-lines path host key port = simp append_assoc

Printable-skip_ws : (cs : Bytes) → Printable cs → skip_ws cs ≡ cs
Printable-skip_ws [] h = refl
Printable-skip_ws (c ∷ cs) (lo, hi, h) = ground arith

Printable-cut_ws : (cs : Bytes) → Printable cs → cut_ws cs ≡ cs
Printable-cut_ws [] h = refl
Printable-cut_ws (c ∷ []) (lo, hi, h) = ground arith
Printable-cut_ws (c ∷ d ∷ ds) (lo, hi, h) = ap (keep_word c) (Printable-cut_ws (d ∷ ds) h)

-- The server finds the key in the headers.
headers-key :
    (host key : Bytes) (port : ℕ)
    → Printable key
    → key_of_line [] (host_line host port) ≡ []
    → key_of [] (request_headers host port key) ≡ key
unfolding key_of_line
headers-key host key port print plain =
    ap
      (λ k. key_of k (
        codes "Upgrade: websocket"
        ∷ codes "Connection: Upgrade"
        ∷ key_line key
        ∷ codes "Sec-WebSocket-Version: 13"
        ∷ []))
      plain
    ∙ (ap cut_ws (Printable-skip_ws key print) ∙ Printable-cut_ws key print)

decimal-OneLine : (fuel n : ℕ) → OneLine (decimal fuel n)
decimal-OneLine zero n = tt
decimal-OneLine (suc fuel) n =
    let last = (48 + n % 10) ∷ [] in
    let digit : ((48 + n % 10) == b'\n') ≡ false = ground arith in
    if_either OneLine (ltb n 10) last (decimal fuel (n / 10) ++ last) (digit, tt)
      (OneLine-concat (decimal fuel (n / 10)) last (decimal-OneLine fuel (n / 10)) (digit, tt))

host_line-OneLine : (host : Bytes) (port : ℕ) → OneLine host → OneLine (host_line host port)
unfolding show_decimal
host_line-OneLine host port h =
    OneLine-concat (codes "Host: ") _ (OneLine_lem (codes "Host: ") refl) (
      OneLine-concat host _ h (
        OneLine-concat (codes ":") (show_decimal port) (OneLine_lem (codes ":") refl)
          (decimal-OneLine (suc port) port)))

-- The lines of the request are short, as the whole is.
request-Headers :
    (path host key : Bytes) (port fuel : ℕ)
    → OneLine host
    → Printable key
    → length (upgrade_request path host port key) < fuel
    → (length (request_line path) + 1 < fuel) × Headers fuel (request_headers host port key)
unfolding upgrade_request
request-Headers path host key port fuel one print short =
    let size : length (upgrade_request path host port key)
        ≡ length path + length host + length (show_decimal port) + length key + 115 =
      omega (arith, length-append {0}) in
    (
      omega (arith, size, length-append path (codes " HTTP/1.1")),
      (
        omega arith,
        omega (arith, size, length-append host (codes ":" ++ show_decimal port)),
        host_line-OneLine host port one,
        (
          omega arith,
          omega (arith, size),
          OneLine_lem (codes "Upgrade: websocket") refl,
          (
            omega arith,
            omega (arith, size),
            OneLine_lem (codes "Connection: Upgrade") refl,
            (
              omega arith,
              omega (arith, size),
              OneLine-concat (codes "Sec-WebSocket-Key: ") key
                  (OneLine_lem (codes "Sec-WebSocket-Key: ") refl) (Printable-OneLine key print),
              (
                omega arith,
                omega (arith, size),
                OneLine_lem (codes "Sec-WebSocket-Version: 13") refl,
                tt,
              ),
            ),
          ),
        ),
      ),
    )

request_line-OneLine : (path : Bytes) → OneLine path → OneLine (request_line path)
request_line-OneLine path h =
    OneLine-concat (codes "GET ") (path ++ codes " HTTP/1.1") (OneLine_lem (codes "GET ") refl)
      (OneLine-concat path (codes " HTTP/1.1") h (OneLine_lem (codes " HTTP/1.1") refl))

length-nonce : (n rng : ℕ) → length (nonce n rng).0 ≡ n
unfolding nonce
length-nonce zero rng = refl
length-nonce (suc n) rng = ap suc (length-nonce n (prng_next rng))

-- The first character of the key.
key-first :
    (bytes : Bytes) → 0 < length bytes → (k : ℕ) × (ks : Bytes) × (base64_encode bytes ≡ k ∷ ks)
unfolding base64_encode
key-first [] h = absurd (omega arith)
key-first (a ∷ []) h = (_, _, refl)
key-first (a ∷ b ∷ []) h = (_, _, refl)
key-first (a ∷ b ∷ c ∷ rest) h = (_, _, refl)

-- The two ends of the upgrade agree. Let the request of the client fit its buffer, be of a path and a
-- host without a newline, and let the host line not name a key for the server. Where the server receives
-- that request, it answers with the `response` for the client's key and takes exactly the request; where
-- the client receives that answer, its handshake gives `WS_OK`, having sent exactly the request and
-- taken exactly the answer. Both connections stay up, and the loops have fuel for the lines.
pub upgrade-joined :
    {S T : Type 0} (net : Socket S) (up : Delivers net) (takes : Accepts net) (peer : Socket T)
    (peer_up : Delivers peer) (peer_takes : Accepts peer) (host : Bytes) (port : ℕ)
    (path rest later : Bytes) (ws : WsClient S) (t : T)
    → OneLine path
    → OneLine host
    → key_of_line [] (host_line host port) ≡ []
    → length (request_sent ws.rng_state host port path) < 1024
    → net.incoming ws.sock ≡ response (key_sent ws.rng_state) ++ rest
    → peer.incoming t ≡ request_sent ws.rng_state host port path ++ later
    → ((t' : T) × (Handshake.do_handshake peer 1024 6 t ≡ (some tt, t'))
        × (peer.incoming t' ≡ later)
        × (peer.outgoing t' ≡ peer.outgoing t ++ response (key_sent ws.rng_state)))
      × ((s' : S) × (do_handshake net 4 host port path ws ≡ (
        ws_ok,
        record { valid = ws.valid; sock = s'; rng_state = (nonce 16 ws.rng_state).1 },
      ))
          × (net.incoming s' ≡ rest)
          × (net.outgoing s' ≡ net.outgoing ws.sock ++ request_sent ws.rng_state host port path))
upgrade-joined net up takes peer peer_up peer_takes host port path rest later ws t one_path one_host
      plain short answer request =
    let key = key_sent ws.rng_state in
    let print = base64_encode-Printable (nonce 16 ws.rng_state).0 in
    let (k, ks, first) =
      key-first (nonce 16 ws.rng_state).0 (omega (arith, length-nonce 16 ws.rng_state)) in
    let (line, headers) = request-Headers path host key port 1024 one_host print short in
    let (t', ran, left, wire) =
      do_handshake-response peer peer_up peer_takes 1024 6 (request_line path)
        (request_headers host port key) k ks later t line (omega arith)
        (request_line-OneLine path one_path) headers (headers-key host key port print plain ∙ first)
        (request
          ∙ ap (λ r. r ++ later) (request-lines path host key port)
          ∙ append_assoc (with_end (request_line path)) _ later) in
    (
      (t', ran, left, wire ∙ ap (λ c. peer.outgoing t ++ response c) (sym first)),
      do_handshake-accepts net up takes 0 host port path rest ws short answer,
    )
