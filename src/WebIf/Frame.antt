-- ===== src/WebIf/Frame.antt =====
-- A frame of `ws_encode_frame` is read back by a WebSocket reader, the server's own `read_frame`.
use accel_observer.Prelude.{
  ℕ, ◌<◌, ◌^◌, ◌≡◌, refl, ap, ◌∙◌, Bool, true, false, not, ◌&&◌, [], ◌∷◌, ◌++◌, append_assoc,
  Option, some, arith, ltb, ltb→lt, lt→ltb, ◌==◌, if◌then◌else◌, Bool-cases, inl, inr, length,
  Bytes, u8, shr, all_below, all_below_sound,
}
use accel_observer.Prelude.Bits.{bit_and}
use accel_observer.Prelude.State.{and_then, ◌>>=◌}
use accel_observer.Net.Stream.{Socket, Delivers}
use accel_observer.WebSocket.Client.{be_bytes}
use accel_observer.WebSocket.Server.{
  recv_exact, read_len, read_mask, read_payload, read_body, read_after, read_frame,
}
use accel_observer.WebSocket.Server.Reader.{
  Takes, recv_exact-Takes, Takes-bind, read_len_short, read_len_two, read_len_eight,
}
use accel_observer.WebIf.{length_bytes, ws_encode_frame}

short_ok : ℕ → Bool
short_ok len = (bit_and len 0x7f == len) && (bit_and len 0x80 == 0)

short_table : all_below 126 short_ok ≡ true
unfolding short_ok
short_table = refl

short_byte : (len : ℕ) → len < 126 → (bit_and len 0x7f ≡ len) × ((bit_and len 0x80 == 0) ≡ true)
unfolding short_ok
short_byte len h =
    split (bit_and len 0x7f) len (bit_and len 0x80) (all_below_sound 126 short_ok len short_table h)
  where
    split : (x y z : ℕ) → ((x == y) && (z == 0)) ≡ true → (x ≡ y) × ((z == 0) ≡ true)
    split x y z e = ground arith

module _ {S : Type 0} (net : Socket S) (up : Delivers net) where
  open net use {incoming, outgoing}

  -- what is left of a text frame behind its second byte
  abbrev behind : Bool → ℕ → S → Option Bytes × S
  behind masked len7 =
      read_len net len7 >>= λ n. read_mask net masked >>= λ mask. read_body net 1 masked mask n

  abbrev no_mask : Bytes
  no_mask = 0 ∷ 0 ∷ 0 ∷ 0 ∷ []

  plain_payload :
      (payload rest : Bytes) (s : S)
      → incoming s ≡ payload ++ rest
      → Takes net up (read_body net 1 false no_mask (length payload)) payload s rest
  unfolding read_body read_payload
  plain_payload [] rest s e = record { after = s; ran = refl; left = e; quiet = refl }
  plain_payload (x ∷ xs) rest s e =
      let t = recv_exact-Takes net up (length (x ∷ xs)) (x ∷ xs) rest s refl e in
      let positive = lt→ltb 0 (length (x ∷ xs)) (omega arith) in
      record {
        after = t.after;
        ran =
            ap
              (λ b.
                (if b
                    then (recv_exact net (length (x ∷ xs)) >>= λ bytes u. (some bytes, u))
                    else (λ u. (some [], u)))
                  s)
              positive
            ∙ ap (λ r. and_then r (λ bytes u. (some bytes, u))) t.ran;
        left = t.left;
        quiet = t.quiet;
      }

  -- the extended length, then the payload
  behind-Takes :
      (len7 : ℕ) (payload rest : Bytes) (s : S)
      → Takes net up (read_len net len7) (length payload) s (payload ++ rest)
      → Takes net up (behind false len7) payload s rest
  unfolding read_mask
  behind-Takes len7 payload rest s t =
      Takes-bind net up (λ n. read_mask net false >>= λ mask. read_body net 1 false mask n) payload
        rest t (plain_payload payload rest t.after t.left)

  header_step :
      (b len7 : ℕ) (tail : Bytes) (s : S)
      → bit_and b 0x7f ≡ len7
      → (bit_and b 0x80 == 0) ≡ true
      → incoming s ≡ 0x81 ∷ b ∷ tail
      → (s1 : S) × (read_frame net s ≡ behind false len7 s1)
        × (incoming s1 ≡ tail)
        × (outgoing s1 ≡ outgoing s)
  unfolding read_frame read_after
  header_step b len7 tail s low high e =
      let t = recv_exact-Takes net up 2 (0x81 ∷ b ∷ []) tail s refl e in
      (
        t.after,
        ap (λ r. and_then r (read_after net)) t.ran
            ∙ ap (λ z. behind (not z) (bit_and b 0x7f) t.after) high
            ∙ ap (λ n. behind false n t.after) low,
        t.left,
        t.quiet,
      )

  -- the frame, once its length can be read
  whole_frame :
      (b len7 : ℕ) (ext payload rest : Bytes) (s : S)
      → bit_and b 0x7f ≡ len7
      → (bit_and b 0x80 == 0) ≡ true
      → incoming s ≡ 0x81 ∷ b ∷ (ext ++ (payload ++ rest))
      → ((s1 : S)
          → incoming s1 ≡ ext ++ (payload ++ rest)
          → Takes net up (read_len net len7) (length payload) s1 (payload ++ rest))
      → (s' : S) × (read_frame net s ≡ (some payload, s'))
        × (incoming s' ≡ rest)
        × (outgoing s' ≡ outgoing s)
  whole_frame b len7 ext payload rest s low high e sized =
      let (s1, ran, left, quiet) = header_step b len7 (ext ++ (payload ++ rest)) s low high e in
      let t = behind-Takes len7 payload rest s1 (sized s1 left) in
      (t.after, ran ∙ t.ran, t.left, t.quiet ∙ quiet)

  frame_parts :
      (payload rest : Bytes) (s : S)
      → incoming s ≡ ws_encode_frame payload ++ rest
      → incoming s ≡ 0x81 ∷ (length_bytes (length payload) ++ (payload ++ rest))
  unfolding ws_encode_frame
  frame_parts payload rest s e =
      e ∙ ap (◌∷◌ 0x81) (append_assoc (length_bytes (length payload)) payload rest)

  -- While the connection is up, `read_frame` reads a frame of `ws_encode_frame` with a payload shorter
  -- than 2^64 bytes: it returns exactly the payload, takes exactly the frame, and sends nothing.
  pub read_frame-ws_encode_frame :
      (payload rest : Bytes) (s : S)
      → length payload < 2 ^ 64
      → incoming s ≡ ws_encode_frame payload ++ rest
      → (s' : S) × (read_frame net s ≡ (some payload, s'))
        × (incoming s' ≡ rest)
        × (outgoing s' ≡ outgoing s)
  unfolding length_bytes
  read_frame-ws_encode_frame payload rest s small e =
      let len = length payload in
      let two = 0x7e ∷ u8 (shr len 8) ∷ u8 len ∷ [] in
      let eight = 0x7f ∷ be_bytes len 8 in
      let after = payload ++ rest in
      elim (Bool-cases (ltb len 126)) [
        | inl h ↦
            let lt = ltb→lt len 126 h in
            let same : u8 len ≡ len = omega arith in
            let (low, high) = short_byte len lt in
            whole_frame (u8 len) len [] payload rest s (ap (λ b. bit_and b 0x7f) same ∙ low)
              (ap (λ b. bit_and b 0x80 == 0) same ∙ high)
              (frame_parts payload rest s e
                ∙ ap
                    (λ t.
                      0x81
                      ∷ ((if t then u8 len ∷ [] else if ltb len 65536 then two else eight)
                          ++ after))
                    h)
              (λ s1 left.
                let t = read_len_short net up len s1 lt in
                record { after = t.after; ran = t.ran; left = t.left ∙ left; quiet = t.quiet })
        | inr h ↦ elim (Bool-cases (ltb len 65536)) [
          | inl k ↦
              whole_frame 0x7e 126 (u8 (shr len 8) ∷ u8 len ∷ []) payload rest s refl refl
                (frame_parts payload rest s e
                  ∙ ap
                      (λ t.
                        0x81
                        ∷ ((if t then u8 len ∷ [] else if ltb len 65536 then two else eight)
                            ++ after))
                      h
                  ∙ ap (λ t. 0x81 ∷ ((if t then two else eight) ++ after)) k)
                (λ s1 left. read_len_two net up len after s1 (ltb→lt len 65536 k) left)
          | inr k ↦
              whole_frame 0x7f 127 (be_bytes len 8) payload rest s refl refl
                (frame_parts payload rest s e
                  ∙ ap
                      (λ t.
                        0x81
                        ∷ ((if t then u8 len ∷ [] else if ltb len 65536 then two else eight)
                            ++ after))
                      h
                  ∙ ap (λ t. 0x81 ∷ ((if t then two else eight) ++ after)) k)
                (λ s1 left. read_len_eight net up len after s1 small left)
        ]
      ]
