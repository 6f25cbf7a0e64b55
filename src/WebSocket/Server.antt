-- ===== src/WebSocket/Server.antt =====
-- server/src/transport/websocket/ws_subscriber.cpp: reading frames from one client.
pub mod Reader
pub mod Data
pub mod Control
use accel_observer.Prelude.{
  ℕ, zero, suc, ◌+◌, ◌-◌, ◌*◌, ◌/◌, ◌%◌, ◌^◌, Bool, true, false, not, ◌&&◌, List, [], ◌∷◌, ◌++◌,
  Option, none, some, ltb, ◌==◌, if◌then◌else◌, length, get_or, take, drop, replicate, Bytes, u8,
  u64, shl, shr,
}
use accel_observer.Prelude.Bits.{bit_and, bit_or}
use accel_observer.Prelude.State.{and_then, ◌>>=◌, ◌>>◌, return, fail}
use accel_observer.Net.Stream.{Socket}
use accel_observer.Net.{recv_loop, send_loop}
use accel_observer.WebSocket.Mask.{xor_mask}

-- the empty string, as a payload of no bytes
abbrev pub no_bytes : Bytes
no_bytes = []

-- `pay_len = (pay_len << 8) | ext[i]`, over the bytes of `ext`
unfoldable pub be_value : ℕ → Bytes → ℕ
be_value n [] = n
be_value n (x ∷ xs) = be_value (bit_or (u64 (shl n 8)) x) xs

-- the callback is called for a payload that is not empty
abbrev pub deliver : Bytes → List Bytes → List Bytes
deliver [] later = later
deliver (x ∷ xs) later = (x ∷ xs) ∷ later

-- the rest of the loop of `run`, after a call of `read_frame`
abbrev pub serve_next : {S : Type 0} → Option Bytes × S → (S → List Bytes × S) → List Bytes × S
serve_next (none, s) loop = ([], s)
serve_next (some payload, s) loop = (deliver payload (loop s).0, (loop s).1)

module _ {S : Type 0} (net : Socket S) where
  unfoldable pub recv_exact : ℕ → S → Option Bytes × S
  recv_exact len s = recv_loop net (suc len) len [] s

  unfoldable pub send_exact : Bytes → S → Option (Unit {0}) × S
  send_exact bytes s = send_loop net (suc (length bytes)) bytes s

  -- the extended payload length
  unfoldable pub read_len : ℕ → S → Option ℕ × S
  unfolding be_value
  read_len len7 =
      if len7 == 126
      then (recv_exact 2 >>= λ ext. return (bit_or (shl (get_or ext 0 0) 8) (get_or ext 1 0)))
      else if len7 == 127
      then (recv_exact 8 >>= λ ext. return (be_value 0 ext))
      else return len7

  unfoldable pub read_mask : Bool → S → Option Bytes × S
  read_mask masked = if masked then recv_exact 4 else return (replicate 4 0)

  -- the payload of a frame, unmasked
  unfoldable pub read_payload : Bool → Bytes → ℕ → S → Option Bytes × S
  read_payload masked mask pay_len =
      if ltb 0 pay_len
      then (recv_exact pay_len >>= λ bytes.
          return (if masked then xor_mask mask 0 bytes else bytes))
      else return no_bytes

  -- A control frame has at most 125 bytes; the results of the sends are ignored.
  unfoldable pub send_pong : Bytes → S → S
  send_pong ping_payload s =
      let len = length ping_payload in
      if ltb 125 len
      then s
      else (let s1 = (send_exact (0x8a ∷ u8 len ∷ []) s).1 in
          if ltb 0 len then (send_exact ping_payload s1).1 else s1)

  -- a step whose failure is ignored
  abbrev pub ignore : (S → Option Bytes × S) → S → Option Bytes × S
  ignore step s = (some no_bytes, (step s).1)

  -- what follows the header, by opcode. The result is `payload`; `none` is the return value false.
  unfoldable pub read_body : ℕ → Bool → Bytes → ℕ → S → Option Bytes × S
  unfolding read_payload send_pong
  read_body opcode masked mask pay_len =
      if opcode == 0x08
      then fail
      else if opcode == 0x09
      then (read_payload masked mask pay_len >>= λ ping_data s.
          (some no_bytes, send_pong ping_data s))
      else if opcode == 0x0a
      then (if ltb 0 pay_len then ignore (recv_exact pay_len) else return no_bytes)
      else read_payload masked mask pay_len

  -- what follows the two bytes `hdr`
  unfoldable pub read_after : Bytes → S → Option Bytes × S
  read_after hdr =
      let opcode = bit_and (get_or hdr 0 0) 0x0f in
      let masked = not (bit_and (get_or hdr 1 0) 0x80 == 0) in
      let len7 = bit_and (get_or hdr 1 0) 0x7f in
      read_len len7 >>= λ pay_len.
      read_mask masked >>= λ mask_key. read_body opcode masked mask_key pay_len

  unfoldable pub read_frame : S → Option Bytes × S
  unfolding read_after
  read_frame = recv_exact 2 >>= read_after

  -- The loop of `run` over one connection, while `running_` stays set: what it hands to the callback,
  -- in order, for at most `fuel` frames.
  unfoldable pub serve : ℕ → S → List Bytes × S
  serve zero s = ([], s)
  serve (suc fuel) s = serve_next (read_frame s) (serve fuel)
