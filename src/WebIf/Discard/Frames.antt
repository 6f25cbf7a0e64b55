-- ===== src/WebIf/Discard/Frames.antt =====
-- What becomes of the frames of a browser.
use accel_observer.Prelude.{
  ℕ, suc, ◌<◌, ◌^◌, ◌%◌, ◌≡◌, refl, sym, ap, ap₂, ◌∙◌, true, false, not, inl, inr, [], ◌∷◌, ◌++◌,
  append_assoc, append-nil, Option, none, some, arith, ltb, ltb→lt, lt→ltb, ◌==◌, if◌then◌else◌,
  if_true, if_false, Bool-cases, length, Bytes, u8, shr,
}
use accel_observer.Prelude.Bits.{bit_and, bit_or}
use accel_observer.Prelude.State.{and_then, ◌>>=◌, fail}
use accel_observer.Net.Stream.{Socket, Delivers, Accepts}
use accel_observer.WebSocket.Client.{be_bytes}
use accel_observer.WebSocket.Mask.{xor_mask}
use accel_observer.WebSocket.Server.{recv_exact, read_len, read_mask, read_payload}
use accel_observer.WebSocket.Server.Reader.{
  Takes, recv_exact-Takes, read_len_short, read_len_two, read_len_eight, second_byte,
}
use accel_observer.WebSocket.Server.Data.{masked_header, read_payload-Takes}
use accel_observer.WebIf.Send.{send_raw, send_raw-message}
use accel_observer.Prelude.{zero, List}
use accel_observer.Prelude.Bits.{bit_and_mask}
use accel_observer.WebIf.Discard.{
  recv_exact_webif, answer_ping, discard_rest, after_header, ws_discard_frame, next_frame,
  discard_loop,
}

module _ {S : Type 0} (net : Socket S) (up : Delivers net) where
  open net use {incoming, outgoing}

  -- The two bytes of a header, and the length that can be read behind them.
  record Header (first len : ℕ) (tail : Bytes) (s : S) : Type 0 where
    second : ℕ
    len7 : ℕ
    at : S
    got : recv_exact_webif net 2 s ≡ (some (first ∷ second ∷ []), at)
    quiet : outgoing at ≡ outgoing s
    seven : bit_and second 0x7f ≡ len7
    mask_bit : (bit_and second 0x80 == 0) ≡ false
    sized : Takes net up (read_len net len7) len at tail

  two_bytes :
      (first second len7 len : ℕ) (middle tail : Bytes) (s : S)
      → bit_and second 0x7f ≡ len7
      → (bit_and second 0x80 == 0) ≡ false
      → incoming s ≡ (first ∷ second ∷ []) ++ middle
      → ((s1 : S) → incoming s1 ≡ middle → Takes net up (read_len net len7) len s1 tail)
      → Header first len tail s
  unfolding recv_exact_webif recv_exact
  two_bytes first second len7 len middle tail s seven mask_bit e next =
      let t = recv_exact-Takes net up 2 (first ∷ second ∷ []) middle s refl e in
      record {
        second = second;
        len7 = len7;
        at = t.after;
        got = t.ran;
        quiet = t.quiet;
        seven = seven;
        mask_bit = mask_bit;
        sized = next t.after t.left;
      }

  masked-Header :
      (first len : ℕ) (tail : Bytes) (s : S)
      → len < 2 ^ 64
      → incoming s ≡ masked_header first len ++ tail
      → Header first len tail s
  masked-Header first len tail s small e = elim (Bool-cases (ltb len 126)) [
    | inl short ↦
        let (seven, mask_bit) = second_byte len (ltb→lt len 126 short) in
        two_bytes first (bit_or 0x80 (u8 len)) len len tail tail s seven mask_bit (rw short at e)
          (λ s1 left.
            let t = read_len_short net up len s1 (ltb→lt len 126 short) in
            record { after = t.after; ran = t.ran; left = t.left ∙ left; quiet = t.quiet })
    | inr long ↦ elim (Bool-cases (ltb len 65536)) [
      | inl two ↦
          two_bytes first (bit_or 0x80 126) 126 len ((u8 (shr len 8) ∷ u8 len ∷ []) ++ tail) tail s
            refl refl (rw (long, two) at e)
            (λ s1 left. read_len_two net up len tail s1 (ltb→lt len 65536 two) left)
      | inr eight ↦
          two_bytes first (bit_or 0x80 127) 127 len (be_bytes len 8 ++ tail) tail s refl refl
            (rw (long, eight) at e) (λ s1 left. read_len_eight net up len tail s1 small left)
    ]
  ]

  -- A masked frame other than a close frame is read whole.
  pub frame_read :
      (first : ℕ) (mask payload rest : Bytes) (s : S)
      → (bit_and first 0x0f == 0x08) ≡ false
      → length mask ≡ 4
      → length payload < 2 ^ 64
      → incoming s
        ≡ masked_header first (length payload) ++ (mask ++ (xor_mask mask 0 payload ++ rest))
      → (s1 : S) × (ws_discard_frame net s
          ≡ (some tt, if bit_and first 0x0f == 0x09 then answer_ping net payload s1 else s1))
        × (incoming s1 ≡ rest)
        × (outgoing s1 ≡ outgoing s)
  unfolding ws_discard_frame read_mask
  frame_read first mask payload rest s stays four small e =
      let len = length payload in
      let opcode = bit_and first 0x0f in
      let h = masked-Header first len (mask ++ (xor_mask mask 0 payload ++ rest)) s small e in
      let k =
        recv_exact-Takes net up 4 mask (xor_mask mask 0 payload ++ rest) h.sized.after (sym four)
          h.sized.left in
      let t = read_payload-Takes net up mask payload rest k.after k.left in
      let finish : Bytes → S → Option (Unit {0}) × S =
        λ data1 u. (some tt, if opcode == 0x09 then answer_ping net data1 u else u) in
      (
        t.after,
        ap (λ r. and_then r (after_header net)) h.got
            ∙ ap (λ k. k h.at)
                (if_false fail
                  (discard_rest net opcode (not (bit_and h.second 0x80 == 0))
                    (bit_and h.second 0x7f))
                  stays)
            ∙ ap₂ (λ b n. discard_rest net opcode (not b) n h.at) h.mask_bit h.seven
            ∙ ap
                (λ r.
                  and_then r
                    (λ n. read_mask net true >>= λ m. read_payload net true m n >>= finish))
                h.sized.ran
            ∙ ap (λ r. and_then r (λ m. read_payload net true m len >>= finish)) k.ran
            ∙ ap (λ r. and_then r finish) t.ran,
        t.left,
        t.quiet ∙ k.quiet ∙ h.sized.quiet ∙ h.quiet,
      )

  -- A close frame ends the reading.
  pub close_read :
      (len : ℕ) (tail : Bytes) (s : S)
      → len < 2 ^ 64
      → incoming s ≡ masked_header 0x88 len ++ tail
      → (s1 : S) × (ws_discard_frame net s ≡ (none, s1)) × (outgoing s1 ≡ outgoing s)
  unfolding ws_discard_frame
  close_read len tail s small e =
      let h = masked-Header 0x88 len tail s small e in
      (h.at, ap (λ r. and_then r (after_header net)) h.got, h.quiet)

-- the answer to a ping
abbrev pub pong_of : Bytes → Bytes
pong_of payload = 0x8a ∷ length payload % 128 ∷ payload

module _ {S : Type 0} (net : Socket S) (takes : Accepts net) where
  open net use {incoming, outgoing}

  answer_ping_lem :
      (payload : Bytes) (s : S)
      → (outgoing (answer_ping net payload s) ≡ outgoing s ++ pong_of payload)
        × (incoming (answer_ping net payload s) ≡ incoming s)
  unfolding answer_ping
  answer_ping_lem [] s =
      let (s1, done, wire, left) = send_raw-message net takes (0x8a ∷ 0 ∷ []) s in
      (ap (λ r. outgoing r.1) done ∙ wire, ap (λ r. incoming r.1) done ∙ left)
  answer_ping_lem (x ∷ xs) s =
      let len = length (x ∷ xs) in
      let low = bit_and_mask 7 len in
      let byte : u8 (bit_and len 0x7f) ≡ len % 128 = ap u8 low ∙ omega arith in
      let header : 0x8a ∷ u8 (bit_and len 0x7f) ∷ [] ≡ 0x8a ∷ len % 128 ∷ [] = rw byte in
      let (s1, done1, wire1, left1) = send_raw-message net takes (0x8a ∷ len % 128 ∷ []) s in
      let (s2, done2, wire2, left2) = send_raw-message net takes (x ∷ xs) s1 in
      let runs : answer_ping net (x ∷ xs) s ≡ s2 =
        if_true _ _ (lt→ltb 0 len (omega arith))
        ∙ ap (λ h. (send_raw net (x ∷ xs) (send_raw net h s).1).1) header
        ∙ ap (λ r. (send_raw net (x ∷ xs) r.1).1) done1
        ∙ ap (λ r. r.1) done2 in
      (
        ap outgoing runs
            ∙ wire2
            ∙ ap (λ w. w ++ x ∷ xs) wire1
            ∙ append_assoc (outgoing s) (0x8a ∷ len % 128 ∷ []) (x ∷ xs),
        ap incoming runs ∙ left2 ∙ left1,
      )

-- a frame of a browser: the first byte, the mask, and the payload
pub record Frame : Type 0 where
  pub first : ℕ
  pub mask : Bytes
  pub payload : Bytes

abbrev pub bytes_of : Frame → Bytes
bytes_of f = masked_header f.first (length f.payload) ++ (f.mask ++ xor_mask f.mask 0 f.payload)

abbrev pub all_bytes : List Frame → Bytes
all_bytes [] = []
all_bytes (f ∷ fs) = bytes_of f ++ all_bytes fs

-- It is not a close frame, and its parts have their sizes.
abbrev pub IsFrame : Frame → Type 0
IsFrame f =
    ((bit_and f.first 0x0f == 0x08) ≡ false) × (length f.mask ≡ 4) × (length f.payload < 2 ^ 64)

abbrev pub AllFrames : List Frame → Type 0
AllFrames [] = Unit
AllFrames (f ∷ fs) = IsFrame f × AllFrames fs

abbrev pub reply : Frame → Bytes
reply f = if bit_and f.first 0x0f == 0x09 then pong_of f.payload else []

abbrev pub replies : List Frame → Bytes
replies [] = []
replies (f ∷ fs) = reply f ++ replies fs

module _ {S : Type 0} (net : Socket S) (up : Delivers net) (takes : Accepts net) where
  open net use {incoming, outgoing}

  one_frame :
      (f : Frame) (rest : Bytes) (s : S)
      → IsFrame f
      → incoming s ≡ bytes_of f ++ rest
      → (s' : S) × (ws_discard_frame net s ≡ (some tt, s'))
        × (incoming s' ≡ rest)
        × (outgoing s' ≡ outgoing s ++ reply f)
  one_frame f rest s (stays, four, small) e =
      let (s1, ran, left, quiet) =
        frame_read net up f.first f.mask f.payload rest s stays four small (
          e
          ∙ append_assoc (masked_header f.first (length f.payload)) _ rest
          ∙ ap (◌++◌ (masked_header f.first (length f.payload)))
              (append_assoc f.mask (xor_mask f.mask 0 f.payload) rest)) in
      elim (Bool-cases (bit_and f.first 0x0f == 0x09)) [
        | inl ping ↦
            let (wire, same) = answer_ping_lem net takes f.payload s1 in
            (
              answer_ping net f.payload s1,
              ran ∙ ap (λ t. (some tt, t)) (if_true (answer_ping net f.payload s1) s1 ping),
              same ∙ left,
              wire
                  ∙ ap (λ o. o ++ pong_of f.payload) quiet
                  ∙ ap (◌++◌ (outgoing s)) (sym (if_true (pong_of f.payload) [] ping)),
            )
        | inr other ↦ (
          s1,
          ran ∙ ap (λ t. (some tt, t)) (if_false (answer_ping net f.payload s1) s1 other),
          left,
          quiet
              ∙ sym (append-nil (outgoing s))
              ∙ ap (◌++◌ (outgoing s)) (sym (if_false (pong_of f.payload) [] other)),
        )
      ]

  -- While the connection is up and takes what is sent: over any frames that are masked, hold less than 2^64
  -- bytes and are not close frames, followed by a close frame of any stated length below 2^64, the loop of
  -- `handle_client` ends at the close frame, having sent exactly one answer for each ping, in order. The
  -- answer has the payload of the ping and states its length modulo 128. Fuel above the number of
  -- frames is enough.
  pub discard_loop-replies :
      (frames : List Frame) (fuel len : ℕ) (tail : Bytes) (s : S)
      → length frames < fuel
      → AllFrames frames
      → len < 2 ^ 64
      → incoming s ≡ all_bytes frames ++ (masked_header 0x88 len ++ tail)
      → (s' : S) × (discard_loop net fuel s ≡ (some tt, s'))
        × (outgoing s' ≡ outgoing s ++ replies frames)
  unfolding discard_loop
  discard_loop-replies frames zero len tail s f all small e = absurd (omega arith)
  discard_loop-replies [] (suc fuel) len tail s f all small e =
      let (s1, ran, quiet) = close_read net up len tail s small e in
      (
        s1,
        ap (λ r. next_frame net r (discard_loop net fuel)) ran,
        quiet ∙ sym (append-nil (outgoing s)),
      )
  discard_loop-replies (frame ∷ frames) (suc fuel) len tail s f (one, all) small e =
      let (s1, ran1, left1, wire1) =
        one_frame frame _ s one (e ∙ append_assoc (bytes_of frame) (all_bytes frames) _) in
      let (s2, ran2, wire2) =
        discard_loop-replies frames fuel len tail s1 (omega arith) all small left1 in
      (
        s2,
        ap (λ r. next_frame net r (discard_loop net fuel)) ran1 ∙ ran2,
        wire2
            ∙ ap (λ o. o ++ replies frames) wire1
            ∙ append_assoc (outgoing s) (reply frame) (replies frames),
      )
