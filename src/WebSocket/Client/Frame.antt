-- ===== src/WebSocket/Client/Frame.antt =====
-- What `ws_send_text` puts on the wire.
use accel_observer.Prelude.{
  if_not-true, ℕ, zero, suc, ◌+◌, ◌<◌, ◌≡◌, refl, sym, ap, ◌∙◌, true, [], ◌∷◌, ◌++◌, append-nil,
  append_assoc, some, arith, length, length-drop, take, drop, take-append-drop, Bytes,
}
use accel_observer.Prelude.State.{and_then}
use accel_observer.Net.Stream.{Socket, Accepts}
use accel_observer.Net.Exact.{net_send_exact-message}
use accel_observer.WebSocket.Mask.{xor_mask, xor_mask-append}
use accel_observer.WebSocket.Client.{
  ws_ok, WsClient, prng_next, mask_bytes, text_header, send_chunks, sent_code, ws_send_text,
}

-- One masked text frame.
abbrev pub text_frame : Bytes → Bytes → Bytes
text_frame mask bytes = text_header (length bytes) ++ (mask ++ xor_mask mask 0 bytes)

module _ {S : Type 0} (net : Socket S) where
  open net use {incoming, outgoing}

  -- The chunks together are the masked payload.
  send_chunks_lem :
      Accepts net
      → (fuel : ℕ) (mask : Bytes) (sent : ℕ) (left : Bytes) (s : S) → length left < fuel
      → (s' : S) × (send_chunks net fuel mask sent left s ≡ (some tt, s'))
        × (outgoing s' ≡ outgoing s ++ xor_mask mask sent left)
        × (incoming s' ≡ incoming s)
  unfolding send_chunks xor_mask
  send_chunks_lem up zero mask sent left s f = absurd (omega arith)
  send_chunks_lem up (suc fuel) mask sent [] s f = (s, refl, sym (append-nil (outgoing s)), refl)
  send_chunks_lem up (suc fuel) mask sent (x ∷ xs) s f =
      let chunk = take 4096 (x ∷ xs) in
      let rest = drop 4096 (x ∷ xs) in
      let (s1, done, wire1, quiet1) = net_send_exact-message net up (xor_mask mask sent chunk) s in
      let (s2, all, wire2, quiet2) =
        send_chunks_lem up fuel mask (sent + length chunk) rest s1
          (omega (arith, length-drop 4096 (x ∷ xs))) in
      (
        s2,
        ap (λ r. and_then r (λ _. send_chunks net fuel mask (sent + length chunk) rest)) done ∙ all,
        wire2
            ∙ ap (λ t. t ++ xor_mask mask (sent + length chunk) rest) wire1
            ∙ append_assoc (outgoing s) (xor_mask mask sent chunk)
                (xor_mask mask (sent + length chunk) rest)
            ∙ ap (◌++◌ (outgoing s)) (
                sym (xor_mask-append mask sent (sent + length chunk) chunk rest refl)
                ∙ ap (xor_mask mask sent) (take-append-drop 4096 (x ∷ xs))),
        quiet2 ∙ quiet1,
      )

  -- While the kernel takes what is sent, `ws_send_text` on a valid socket answers WS_OK, having sent
  -- exactly one masked text frame with the next mask of the generator, whose state it advances.
  pub ws_send_text-frame :
      Accepts net
      → (bytes : Bytes) (ws : WsClient S) → ws.valid ≡ true
      → (s' : S) × (ws_send_text net (some bytes) ws
          ≡ (ws_ok, record ws { sock = s'; rng_state = prng_next ws.rng_state }))
        × (outgoing s' ≡ outgoing ws.sock ++ text_frame (mask_bytes (prng_next ws.rng_state)) bytes)
        × (incoming s' ≡ incoming ws.sock)
  unfolding ws_send_text
  ws_send_text-frame up bytes ws valid =
      let mask = mask_bytes (prng_next ws.rng_state) in
      let drawn = record ws { rng_state = prng_next ws.rng_state } in
      let head = text_header (length bytes) ++ mask in
      let (s1, done, wire1, quiet1) = net_send_exact-message net up head ws.sock in
      let (s2, all, wire2, quiet2) =
        send_chunks_lem up (suc (length bytes)) mask 0 bytes s1 (omega arith) in
      (
        s2,
        if_not-true ws.valid _ _ valid
            ∙ ap
                (λ r.
                  sent_code drawn
                    (and_then r (λ _. send_chunks net (suc (length bytes)) mask 0 bytes)))
                done
            ∙ ap (sent_code drawn) all,
        wire2
            ∙ ap (λ t. t ++ xor_mask mask 0 bytes) wire1
            ∙ append_assoc (outgoing ws.sock) head (xor_mask mask 0 bytes)
            ∙ ap (◌++◌ (outgoing ws.sock))
                (append_assoc (text_header (length bytes)) mask (xor_mask mask 0 bytes)),
        quiet2 ∙ quiet1,
      )
