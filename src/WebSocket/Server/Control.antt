-- ===== src/WebSocket/Server/Control.antt =====
-- Control frames: a ping is answered, a close ends the reading.
use accel_observer.Prelude.{
  ℕ, ◌≤◌, ◌<◌, ◌^◌, ◌≡◌, ap, ◌∙◌, [], ◌∷◌, ◌++◌, append_assoc, none, some, arith, lt→ltb,
  le→ltb_false, length, Bytes, u8,
}
use accel_observer.Prelude.State.{and_then}
use accel_observer.Net.Stream.{Socket, Delivers, Accepts}
use accel_observer.Net.{net_send_exact}
use accel_observer.Net.Exact.{net_send_exact-message}
use accel_observer.WebSocket.Mask.{xor_mask}
use accel_observer.WebSocket.Server.{send_exact, send_pong, read_body, read_frame}
use accel_observer.WebSocket.Server.Data.{masked_header, read_to_body, read_payload-Takes}

-- the answer to a ping
abbrev pub pong_frame : Bytes → Bytes
pong_frame payload = 0x8a ∷ length payload ∷ payload

module _ {S : Type 0} (net : Socket S) (up : Delivers net) (takes : Accepts net) where
  open net use {incoming, outgoing}

  pub send_exact-message :
      (bytes : Bytes) (s : S)
      → (s' : S) × (send_exact net bytes s ≡ (some tt, s'))
        × (outgoing s' ≡ outgoing s ++ bytes)
        × (incoming s' ≡ incoming s)
  unfolding send_exact net_send_exact
  send_exact-message bytes s = net_send_exact-message net takes bytes s

  send_pong_cons :
      (x : ℕ) (xs : Bytes) (s : S)
      → length (x ∷ xs) ≤ 125
      → send_pong net (x ∷ xs) s
        ≡ (send_exact net (x ∷ xs) (send_exact net (0x8a ∷ length (x ∷ xs) ∷ []) s).1).1
  unfolding send_pong
  send_pong_cons x xs s h =
      let byte : u8 (length (x ∷ xs)) ≡ length (x ∷ xs) = omega arith in
      rw (le→ltb_false 125 (length (x ∷ xs)) h, lt→ltb 0 (length (x ∷ xs)) (omega arith), byte)

  send_pong_lem :
      (payload : Bytes) (s : S)
      → length payload ≤ 125
      → (outgoing (send_pong net payload s) ≡ outgoing s ++ pong_frame payload)
        × (incoming (send_pong net payload s) ≡ incoming s)
  unfolding send_pong
  send_pong_lem [] s h =
      let (s1, done, wire, left) = send_exact-message (0x8a ∷ 0 ∷ []) s in
      (ap (λ r. outgoing r.1) done ∙ wire, ap (λ r. incoming r.1) done ∙ left)
  send_pong_lem (x ∷ xs) s h =
      let (s1, done1, wire1, left1) = send_exact-message (0x8a ∷ length (x ∷ xs) ∷ []) s in
      let (s2, done2, wire2, left2) = send_exact-message (x ∷ xs) s1 in
      let runs : send_pong net (x ∷ xs) s ≡ s2 =
        send_pong_cons x xs s h
        ∙ ap (λ r. (send_exact net (x ∷ xs) r.1).1) done1
        ∙ ap (λ r. r.1) done2 in
      (
        ap outgoing runs
            ∙ wire2
            ∙ ap (λ w. w ++ x ∷ xs) wire1
            ∙ append_assoc (outgoing s) (0x8a ∷ length (x ∷ xs) ∷ []) (x ∷ xs),
        ap incoming runs ∙ left2 ∙ left1,
      )

  -- While the connection is up and the kernel takes what is sent, a ping with a mask of four bytes
  -- and at most 125 bytes of payload is answered by one pong with the same, unmasked, payload; it is
  -- taken from the stream whole, and the result is an empty payload, which the callback does not
  -- get.
  pub read_frame-ping :
      (mask payload rest : Bytes) (s : S)
      → length mask ≡ 4
      → length payload ≤ 125
      → incoming s
        ≡ masked_header 0x89 (length payload) ++ (mask ++ (xor_mask mask 0 payload ++ rest))
      → (s' : S) × (read_frame net s ≡ (some [], s'))
        × (incoming s' ≡ rest)
        × (outgoing s' ≡ outgoing s ++ pong_frame payload)
  unfolding read_body
  read_frame-ping mask payload rest s four short e =
      let r =
        read_to_body net up 0x89 (length payload) mask (xor_mask mask 0 payload ++ rest) s
          (omega arith) four e in
      let t = read_payload-Takes net up mask payload rest r.at r.left in
      let (wire, left) = send_pong_lem payload t.after short in
      (
        send_pong net payload t.after,
        r.runs ∙ ap (λ p. and_then p (λ data1 u. (some [], send_pong net data1 u))) t.ran,
        left ∙ t.left,
        wire ∙ ap (λ w. w ++ pong_frame payload) (t.quiet ∙ r.quiet),
      )

module _ {S : Type 0} (net : Socket S) (up : Delivers net) where
  open net use {incoming, outgoing}

  -- While the connection is up, at a close frame with a mask of four bytes `read_frame` returns
  -- false, whatever length below 2^64 the frame states, with the header and the mask taken from the
  -- stream, and sends nothing.
  pub read_frame-close :
      (len : ℕ) (mask rest : Bytes) (s : S)
      → len < 2 ^ 64
      → length mask ≡ 4
      → incoming s ≡ masked_header 0x88 len ++ (mask ++ rest)
      → (s' : S) × (read_frame net s ≡ (none, s'))
        × (incoming s' ≡ rest)
        × (outgoing s' ≡ outgoing s)
  unfolding read_body
  read_frame-close len mask rest s small four e =
      let r = read_to_body net up 0x88 len mask rest s small four e in
      (r.at, r.runs, r.left, r.quiet)
