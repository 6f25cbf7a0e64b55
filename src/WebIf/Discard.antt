-- ===== src/WebIf/Discard.antt =====
-- server/src/webif/web_interface.cpp: the frames that come from a browser. Between the header and the
-- payload its statements are those of WsSubscriber, so the model shares `read_len`, `read_mask` and
-- `read_payload` with it.
pub mod Frames
use accel_observer.Prelude.{
  ℕ, zero, suc, ◌<◌, ◌≤◌, ◌^◌, ◌%◌, ◌≡◌, refl, sym, ap, ap₂, ◌∙◌, Bool, true, false, not, inl, inr,
  [], ◌∷◌, ◌++◌, append_assoc, Option, none, some, arith, ltb, ltb→lt, lt→ltb, ◌==◌, if◌then◌else◌,
  if_false, Bool-cases, length, get_or, Bytes, u8, shr,
}
use accel_observer.Prelude.Bits.{bit_and, bit_or}
use accel_observer.Prelude.State.{and_then, ◌>>=◌, return, fail}
use accel_observer.Net.Stream.{Socket, Delivers, Accepts}
use accel_observer.Net.{recv_loop}
use accel_observer.WebSocket.Client.{be_bytes}
use accel_observer.WebSocket.Mask.{xor_mask}
use accel_observer.WebSocket.Server.{recv_exact, read_len, read_mask, read_payload}
use accel_observer.WebSocket.Server.Reader.{
  Takes, Takes-bind, recv_exact-Takes, read_len_short, read_len_two, read_len_eight, second_byte,
}
use accel_observer.WebSocket.Server.Data.{masked_header, read_payload-Takes}
use accel_observer.WebIf.Send.{send_raw, send_raw-message}

module _ {S : Type 0} (net : Socket S) where
  unfoldable pub recv_exact_webif : ℕ → S → Option Bytes × S
  recv_exact_webif len s = recv_loop net (suc len) len [] s

  -- the answer to a ping; the results of the sends are ignored
  unfoldable pub answer_ping : Bytes → S → S
  answer_ping payload s =
      let s1 = (send_raw net (0x8a ∷ u8 (bit_and (length payload) 0x7f) ∷ []) s).1 in
      if ltb 0 (length payload) then (send_raw net payload s1).1 else s1

  -- what follows the two bytes of the header, if this is not a close frame
  unfoldable pub discard_rest : ℕ → Bool → ℕ → S → Option (Unit {0}) × S
  unfolding answer_ping
  discard_rest opcode masked len7 = read_len net len7 >>= λ payload_len.
      read_mask net masked >>= λ mask_key.
      read_payload net masked mask_key payload_len >>= λ payload s.
      (some tt, if opcode == 0x09 then answer_ping payload s else s)

  abbrev pub after_header : Bytes → S → Option (Unit {0}) × S
  after_header hdr =
      let opcode = bit_and (get_or hdr 0 0) 0x0f in
      let masked = not (bit_and (get_or hdr 1 0) 0x80 == 0) in
      let len7 = bit_and (get_or hdr 1 0) 0x7f in
      if opcode == 0x08 then fail else discard_rest opcode masked len7

  -- `none` is the return value false
  unfoldable pub ws_discard_frame : S → Option (Unit {0}) × S
  unfolding recv_exact_webif discard_rest
  ws_discard_frame = recv_exact_webif 2 >>= after_header

  abbrev pub next_frame :
      Option (Unit {0}) × S → (S → Option (Unit {0}) × S) → Option (Unit {0}) × S
  next_frame (none, s) loop = (some tt, s)
  next_frame (some done, s) loop = loop s

  -- The loop of `handle_client`, while `running_` stays set, for less than `fuel` frames; the result `none` is
  -- for a loop that has not ended then.
  unfoldable pub discard_loop : ℕ → S → Option (Unit {0}) × S
  unfolding ws_discard_frame
  discard_loop zero s = (none, s)
  discard_loop (suc fuel) s = next_frame (ws_discard_frame s) (discard_loop fuel)
