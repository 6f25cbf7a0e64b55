-- ===== src/WebSocket/Server/Data.antt =====
-- A masked text frame is read back, whatever its length and however the transport cuts it.
use accel_observer.Prelude.{
  ℕ, ◌<◌, ◌^◌, ◌≡◌, refl, sym, ap, ap₂, ◌∙◌, true, false, not, [], ◌∷◌, ◌++◌, append_assoc, Option,
  some, arith, ltb, ltb→lt, lt→ltb, ◌==◌, if◌then◌else◌, Bool-cases, inl, inr, length, Bytes, u8,
  shr,
}
use accel_observer.Prelude.Bits.{bit_and, bit_or}
use accel_observer.Prelude.State.{and_then, ◌>>=◌}
use accel_observer.Net.Stream.{Socket, Delivers}
use accel_observer.WebSocket.Mask.{xor_mask, xor_mask_twice, length-xor_mask}
use accel_observer.WebSocket.Client.{be_bytes, text_header}
use accel_observer.WebSocket.Client.Frame.{text_frame}
use accel_observer.WebSocket.Server.{
  recv_exact, read_len, read_mask, read_payload, read_body, read_after, read_frame,
}
use accel_observer.WebSocket.Server.Reader.{
  Takes, recv_exact-Takes, read_len_short, read_len_two, read_len_eight, second_byte,
}

-- A header with the mask bit set: the first byte, the short length, and the extended length.
abbrev pub masked_header : ℕ → ℕ → Bytes
masked_header first len =
    first
    ∷ (if ltb len 126
        then bit_or 0x80 (u8 len) ∷ []
        else if ltb len 65536
        then bit_or 0x80 126 ∷ u8 (shr len 8) ∷ u8 len ∷ []
        else bit_or 0x80 127 ∷ be_bytes len 8)

text_header-masked : (len : ℕ) → text_header len ≡ masked_header 0x81 len
unfolding text_header be_bytes
text_header-masked len = refl

frame_parts :
    (mask bytes rest : Bytes)
    → text_frame mask bytes ++ rest
      ≡ masked_header 0x81 (length bytes) ++ (mask ++ (xor_mask mask 0 bytes ++ rest))
frame_parts mask bytes rest =
    ap (λ h. (h ++ (mask ++ xor_mask mask 0 bytes)) ++ rest) (text_header-masked (length bytes))
    ∙ append_assoc (masked_header 0x81 (length bytes)) (mask ++ xor_mask mask 0 bytes) rest
    ∙ ap (◌++◌ (masked_header 0x81 (length bytes))) (append_assoc mask (xor_mask mask 0 bytes) rest)

module _ {S : Type 0} (net : Socket S) (up : Delivers net) where
  open net use {incoming, outgoing}

  -- What is left of a frame behind its header, read with the opcode of `first`.
  abbrev after_len : ℕ → ℕ → S → Option Bytes × S
  after_len first len =
      read_mask net true >>= λ mask. read_body net (bit_and first 0x0f) true mask len

  -- A run from `s` comes to the point where `next` is left to do, with `tail` still to be read and
  -- nothing sent.
  pub record Reaches (next : S → Option Bytes × S) (s : S) (tail : Bytes) : Type 0 where
    pub at : S
    pub runs : read_frame net s ≡ next at
    pub left : incoming at ≡ tail
    pub quiet : outgoing at ≡ outgoing s

  Reaches-bind :
      {A : Type 0} {step : S → Option A × S} {value : A} {s : S} {tail rest : Bytes}
      (next : A → S → Option Bytes × S)
      → (r : Reaches (step >>= next) s tail) → Takes net up step value r.at rest
      → Reaches (next value) s rest
  Reaches-bind next r t = record {
    at = t.after;
    runs = r.runs ∙ ap (λ p. and_then p next) t.ran;
    left = t.left;
    quiet = t.quiet ∙ r.quiet;
  }

  -- The two first bytes, with what the second one says.
  read_two_bytes :
      (first second len7 : ℕ) (middle : Bytes) (s : S)
      → bit_and second 0x7f ≡ len7
      → (bit_and second 0x80 == 0) ≡ false
      → incoming s ≡ (first ∷ second ∷ []) ++ middle
      → Reaches (read_len net len7 >>= after_len first) s middle
  unfolding read_frame read_after
  read_two_bytes first second len7 middle s seven mask_bit e =
      let t = recv_exact-Takes net up 2 (first ∷ second ∷ []) middle s refl e in
      let step : read_after net (first ∷ second ∷ []) ≡ (read_len net len7 >>= after_len first) =
        ap₂
          (λ n b. read_len net n >>= λ pay_len.
            read_mask net (not b) >>= λ m. read_body net (bit_and first 0x0f) (not b) m pay_len)
          seven mask_bit in
      record {
        at = t.after;
        runs = ap (λ p. and_then p (read_after net)) t.ran ∙ ap (λ k. k t.after) step;
        left = t.left;
        quiet = t.quiet;
      }

  -- The header is read, for each of the three forms of the length.
  read_header :
      (first len : ℕ) (tail : Bytes) (s : S)
      → len < 2 ^ 64
      → incoming s ≡ masked_header first len ++ tail
      → Reaches (after_len first len) s tail
  read_header first len tail s small e = elim (Bool-cases (ltb len 126)) [
    | inl short ↦
        let (seven, mask_bit) = second_byte len (ltb→lt len 126 short) in
        let r =
          read_two_bytes first (bit_or 0x80 (u8 len)) len tail s seven mask_bit (rw short at e) in
        let t = read_len_short net up len r.at (ltb→lt len 126 short) in
        Reaches-bind (after_len first) r
          (record { after = t.after; ran = t.ran; left = t.left ∙ r.left; quiet = t.quiet })
    | inr long ↦ elim (Bool-cases (ltb len 65536)) [
      | inl two ↦
          let r =
            read_two_bytes first (bit_or 0x80 126) 126 ((u8 (shr len 8) ∷ u8 len ∷ []) ++ tail) s
              refl refl (rw (long, two) at e) in
          Reaches-bind (after_len first) r
            (read_len_two net up len tail r.at (ltb→lt len 65536 two) r.left)
      | inr eight ↦
          let r =
            read_two_bytes first (bit_or 0x80 127) 127 (be_bytes len 8 ++ tail) s refl refl
              (rw (long, eight) at e) in
          Reaches-bind (after_len first) r (read_len_eight net up len tail r.at small r.left)
    ]
  ]

  -- The header and the mask are read.
  pub read_to_body :
      (first len : ℕ) (mask tail : Bytes) (s : S)
      → len < 2 ^ 64
      → length mask ≡ 4
      → incoming s ≡ masked_header first len ++ (mask ++ tail)
      → Reaches (read_body net (bit_and first 0x0f) true mask len) s tail
  unfolding read_mask
  read_to_body first len mask tail s small four e =
      let r = read_header first len (mask ++ tail) s small e in
      Reaches-bind (λ m. read_body net (bit_and first 0x0f) true m len) r
        (recv_exact-Takes net up 4 mask tail r.at (sym four) r.left)

  payload_step :
      (mask : Bytes) (x : ℕ) (xs : Bytes)
      → read_payload net true mask (length (x ∷ xs))
        ≡ (recv_exact net (length (x ∷ xs)) >>= λ b u. (some (xor_mask mask 0 b), u))
  unfolding read_payload
  payload_step mask x xs = rw (lt→ltb 0 (length (x ∷ xs)) (omega arith))

  -- The payload is read and unmasked.
  pub read_payload-Takes :
      (mask bytes rest : Bytes) (s : S)
      → incoming s ≡ xor_mask mask 0 bytes ++ rest
      → Takes net up (read_payload net true mask (length bytes)) bytes s rest
  unfolding read_payload
  read_payload-Takes mask [] rest s e = record {
    after = s;
    ran = refl;
    left = e ∙ unfold xor_mask in refl;
    quiet = refl;
  }
  read_payload-Takes mask (x ∷ xs) rest s e =
      let t =
        recv_exact-Takes net up (length (x ∷ xs)) (xor_mask mask 0 (x ∷ xs)) rest s
          (sym (length-xor_mask mask 0 (x ∷ xs))) e in
      record {
        after = t.after;
        ran =
            ap (λ step. step s) (payload_step mask x xs)
            ∙ ap (λ r. and_then r (λ b u. (some (xor_mask mask 0 b), u))) t.ran
            ∙ ap (λ b. (some b, t.after)) (xor_mask_twice mask 0 (x ∷ xs));
        left = t.left;
        quiet = t.quiet;
      }

  text_body :
      (mask bytes rest : Bytes) (s : S)
      → incoming s ≡ xor_mask mask 0 bytes ++ rest
      → Takes net up (read_body net 1 true mask (length bytes)) bytes s rest
  unfolding read_body
  text_body mask bytes rest s e = read_payload-Takes mask bytes rest s e

  -- While the connection is up, `read_frame` reads a text frame with a mask of four bytes and a
  -- payload shorter than 2^64 bytes: it returns exactly the payload, takes exactly the frame from
  -- the stream, and sends nothing.
  pub read_frame-text :
      (mask bytes rest : Bytes) (s : S)
      → length mask ≡ 4
      → length bytes < 2 ^ 64
      → incoming s ≡ text_frame mask bytes ++ rest
      → (s' : S) × (read_frame net s ≡ (some bytes, s'))
        × (incoming s' ≡ rest)
        × (outgoing s' ≡ outgoing s)
  read_frame-text mask bytes rest s four small e =
      let r =
        read_to_body 0x81 (length bytes) mask (xor_mask mask 0 bytes ++ rest) s small four
          (e ∙ frame_parts mask bytes rest) in
      let t = text_body mask bytes rest r.at r.left in
      (t.after, r.runs ∙ t.ran, t.left, t.quiet ∙ r.quiet)
