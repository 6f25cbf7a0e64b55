-- ===== src/WebSocket/Upgrade/Agrees.antt =====
-- The two ends of the upgrade agree.
use accel_observer.Prelude.{
  ℕ, suc, ◌+◌, ◌<◌, ◌≡◌, refl, sym, ap, ◌∙◌, true, false, [], ◌∷◌, ◌++◌, append_assoc, some, arith,
  lt→ltb, ◌==◌, if_true, if_false, if_not-true, length, Bytes, codes,
}
use accel_observer.Prelude.Text.{same_text, same_text_refl}
use accel_observer.Crypto.Base64.{base64_encode}
use accel_observer.Crypto.Base64.Printable.{Printable}
use accel_observer.Net.Stream.{Socket, Delivers, Accepts}
use accel_observer.Net.{net_recv_line}
use accel_observer.Net.Exact.{net_send_exact-message}
use accel_observer.Net.Line.{OneLine, OneLine_lem, OneLine-concat, net_recv_line-crlf}
use accel_observer.WebSocket.Client.{ws_ok, WsClient}
use accel_observer.WebSocket.Handshake.{compute_accept_key, response}
use accel_observer.WebSocket.Upgrade.{
  istr_contains, nonce, upgrade_request, expected_accept, Seen, nothing_seen, see_line, c_string,
  verdict, at_line, read_headers, at_status, at_sent, with_sock, judged, do_handshake,
}
use accel_observer.WebSocket.Upgrade.Lines.{
  Printable-OneLine, expected_accept-Printable, length-expected_accept, see_accept,
}

abbrev crlf : Bytes → Bytes
crlf rest = b'\r' ∷ b'\n' ∷ rest

module _ {S : Type 0} (net : Socket S) (up : Delivers net) where
  open net use {incoming, outgoing}

  read_line :
      (line rest : Bytes) (s : S)
      → length line + 2 < 2048
      → OneLine line
      → incoming s ≡ line ++ crlf rest
      → (s' : S) × (net_recv_line net 2048 s ≡ (some line, s'))
        × (incoming s' ≡ rest)
        × (outgoing s' ≡ outgoing s)
  read_line line rest s short one e =
      net_recv_line-crlf net up 2048 line rest s short one
        (e ∙ sym (append_assoc line (b'\r' ∷ []) (b'\n' ∷ rest)))

  -- one header line that is not blank
  header_step :
      (fuel c : ℕ) (cs rest : Bytes) (seen : Seen) (s : S)
      → length (c ∷ cs) + 2 < 2048
      → OneLine (c ∷ cs)
      → incoming s ≡ (c ∷ cs) ++ crlf rest
      → (s' : S) × (read_headers net (suc fuel) seen s
          ≡ read_headers net fuel (see_line (c_string (c ∷ cs)) seen) s')
        × (incoming s' ≡ rest)
        × (outgoing s' ≡ outgoing s)
  unfolding read_headers
  header_step fuel c cs rest seen s short one e =
      let (s', ran, left, quiet) = read_line (c ∷ cs) rest s short one e in
      (s', ap (λ r. at_line net seen r (read_headers net fuel)) ran, left, quiet)

  last_line :
      (fuel : ℕ) (rest : Bytes) (seen : Seen) (s : S)
      → incoming s ≡ crlf rest
      → (s' : S) × (read_headers net (suc fuel) seen s ≡ (some seen, s'))
        × (incoming s' ≡ rest)
        × (outgoing s' ≡ outgoing s)
  unfolding read_headers
  last_line fuel rest seen s e =
      let (s', ran, left, quiet) = read_line [] rest s (omega arith) tt e in
      (s', ap (λ r. at_line net seen r (read_headers net fuel)) ran, left, quiet)

  -- the headers of the server's answer
  answer_headers :
      (fuel : ℕ) (accept rest : Bytes) (s : S)
      → Printable accept
      → length accept < 64
      → incoming s
        ≡ codes "Upgrade: websocket\r\nConnection: Upgrade\r\nSec-WebSocket-Accept: "
          ++ (accept ++ crlf (crlf rest))
      → (s' : S) × (read_headers net (suc (suc (suc (suc fuel)))) nothing_seen s ≡ (
        some (record { got_upgrade = true; got_connection = true; server_accept = accept }),
        s',
      ))
        × (incoming s' ≡ rest)
        × (outgoing s' ≡ outgoing s)
  unfolding see_line
  answer_headers fuel accept rest s print short e =
      let (s1, ran1, left1, quiet1) =
        header_step (suc (suc (suc fuel))) b'U' (codes "pgrade: websocket") _ nothing_seen s
          (omega arith) (OneLine_lem (codes "Upgrade: websocket") refl) e in
      let (s2, ran2, left2, quiet2) =
        header_step (suc (suc fuel)) b'C' (codes "onnection: Upgrade") _ _ s1 (omega arith)
          (OneLine_lem (codes "Connection: Upgrade") refl) left1 in
      let both : Seen = record { got_upgrade = true; got_connection = true; server_accept = [] } in
      let (s3, ran3, left3, quiet3) =
        header_step (suc fuel) b'S' (codes "ec-WebSocket-Accept: " ++ accept) (crlf rest) both s2
          (omega arith)
          (OneLine-concat (codes "Sec-WebSocket-Accept: ") accept
            (OneLine_lem (codes "Sec-WebSocket-Accept: ") refl) (Printable-OneLine accept print))
          left2 in
      let (s4, ran4, left4, quiet4) = last_line fuel rest _ s3 left3 in
      (
        s4,
        ran1
            ∙ ran2
            ∙ ran3
            ∙ ap (λ r. read_headers net (suc fuel) r s3) (see_accept accept print short)
            ∙ ran4,
        left4,
        quiet4 ∙ quiet3 ∙ quiet2 ∙ quiet1,
      )

-- the key that the client sends, and the request, for a state of the generator
abbrev pub key_sent : ℕ → Bytes
key_sent rng = base64_encode (nonce 16 rng).0

abbrev pub request_sent : ℕ → Bytes → ℕ → Bytes → Bytes
request_sent rng host port path = upgrade_request path host port (key_sent rng)

same_accept : (key : Bytes) → compute_accept_key key ≡ expected_accept key
unfolding compute_accept_key expected_accept
same_accept key = refl

accepted_verdict :
    (accept : Bytes)
    → length accept ≡ 28
    → verdict accept (record { got_upgrade = true; got_connection = true; server_accept = accept })
      ≡ ws_ok
unfolding verdict
accepted_verdict accept e =
    let some_text : (length accept == 0) ≡ false = ground arith in
    if_false _ _ some_text ∙ if_not-true (same_text accept accept) _ _ (same_text_refl accept)

module _ {S : Type 0} (net : Socket S) (up : Delivers net) (takes : Accepts net) where
  open net use {incoming, outgoing}

  -- behind the request that is sent
  answer_read :
      (fuel : ℕ) (key rest : Bytes) (s : S)
      → incoming s ≡ response key ++ rest
      → (s' : S) × (at_status net
            (suc (suc (suc (suc fuel))))
            (expected_accept key)
            (net_recv_line net 2048 s)
          ≡ (ws_ok, s'))
        × (incoming s' ≡ rest)
        × (outgoing s' ≡ outgoing s)
  unfolding response istr_contains
  answer_read fuel key rest s e =
      let accept = expected_accept key in
      let size = length-expected_accept key in
      let whole =
        e
        ∙ ap
            (λ t.
              codes
                "HTTP/1.1 101 Switching Protocols\r\nUpgrade: websocket\r\nConnection: Upgrade\r\nSec-WebSocket-Accept: "
              ++ t)
            (append_assoc (compute_accept_key key) (codes "\r\n\r\n") rest
              ∙ ap (λ a. a ++ crlf (crlf rest)) (same_accept key)) in
      let (s1, ran1, left1, quiet1) =
        read_line net up (codes "HTTP/1.1 101 Switching Protocols") _ s (omega arith)
          (OneLine_lem (codes "HTTP/1.1 101 Switching Protocols") refl) whole in
      let (s2, ran2, left2, quiet2) =
        answer_headers net up fuel accept rest s1 (expected_accept-Printable key)
          (omega (arith, size)) left1 in
      (
        s2,
        ap (at_status net (suc (suc (suc (suc fuel)))) accept) ran1
            ∙ ap (judged accept) ran2
            ∙ ap (λ c. (c, s2)) (accepted_verdict accept size),
        left2,
        quiet2 ∙ quiet1,
      )

  -- While the connection is up and takes what is sent, the client's handshake over a request that fits
  -- its buffer, answered by the server's `response` for the key in the request: it answers `WS_OK`, has sent
  -- exactly the request and taken exactly the answer, and advances the generator by 16 numbers. Four
  -- header lines of fuel are enough.
  pub do_handshake-accepts :
      (fuel : ℕ) (host : Bytes) (port : ℕ) (path rest : Bytes) (ws : WsClient S)
      → length (request_sent ws.rng_state host port path) < 1024
      → incoming ws.sock ≡ response (key_sent ws.rng_state) ++ rest
      → (s' : S) × (do_handshake net (suc (suc (suc (suc fuel)))) host port path ws
          ≡ (ws_ok, record { valid = ws.valid; sock = s'; rng_state = (nonce 16 ws.rng_state).1 }))
        × (incoming s' ≡ rest)
        × (outgoing s' ≡ outgoing ws.sock ++ request_sent ws.rng_state host port path)
  unfolding do_handshake
  do_handshake-accepts fuel host port path rest ws short e =
      let key = key_sent ws.rng_state in
      let request = request_sent ws.rng_state host port path in
      let lines = suc (suc (suc (suc fuel))) in
      let rng = (nonce 16 ws.rng_state).1 in
      let (s1, sent, wire, kept) = net_send_exact-message net takes request ws.sock in
      let (s2, ran, left, quiet) = answer_read fuel key rest s1 (kept ∙ e) in
      (
        s2,
        if_true _ _ (lt→ltb (length request) 1024 short)
            ∙ ap (λ r. with_sock net ws rng (at_sent net lines (expected_accept key) r)) sent
            ∙ ap (with_sock net ws rng) ran,
        left,
        quiet ∙ wire,
      )
