-- ===== src/WebSocket/Client.antt =====
-- client/src/transport/websocket/ws_client.c: the mask generator, sending a text frame, closing.
pub mod Random
pub mod Frame
use accel_observer.Prelude.{
  ℕ, zero, suc, ◌+◌, ◌-◌, ◌*◌, ◌/◌, ◌%◌, ◌^◌, Bool, true, false, not, List, [], ◌∷◌, ◌++◌, Option,
  none, some, ltb, ◌==◌, if◌then◌else◌, length, take, drop, min, Bytes, u8, u32, shl, shr,
}
use accel_observer.Prelude.Bits.{bit_or, bit_xor}
use accel_observer.Prelude.State.{and_then}
use accel_observer.Net.Stream.{Socket}
use accel_observer.Net.{net_send_exact, net_recv_exact}
use accel_observer.WebSocket.Mask.{xor_mask}

-- `ws_error_code_t`
pub data WsError : Type 0 where
  ws_ok net_error handshake_error frame_error closed alloc_error param_error : WsError

-- `struct ws_client_t`; `valid` is `SOCK_VALID(sock)`, and the socket itself is the state `S`
pub record WsClient (S : Type 0) : Type 0 where
  pub valid : Bool
  pub sock : S
  pub rng_state : ℕ

-- Xorshift32: the new state, which is also the number drawn
unfoldable pub prng_next : ℕ → ℕ
prng_next x =
    let x1 = bit_xor x (u32 (shl x 13)) in
    let x2 = bit_xor x1 (shr x1 17) in bit_xor x2 (u32 (shl x2 5))

-- the loop of `prng_seed`
unfoldable pub stir : ℕ → ℕ → ℕ
unfolding prng_next
stir zero s = s
stir (suc rounds) s = stir rounds (prng_next s)

-- `prng_seed`, from the clock and the process id
unfoldable pub prng_seed : ℕ → ℕ → ℕ
unfolding stir
prng_seed time pid =
    let s = stir 16 (bit_xor (u32 time) (u32 (u32 pid * 2654435761))) in
    if s == 0 then 0xdeadbeef else s

-- the four bytes of the mask, most significant first
unfoldable pub mask_bytes : ℕ → Bytes
mask_bytes mask32 = u8 (shr mask32 24) ∷ u8 (shr mask32 16) ∷ u8 (shr mask32 8) ∷ u8 mask32 ∷ []

-- `hdr[hdr_len++] = (uint8_t)(len >> (i * 8))` from `i` down to 0, on the rounds left
unfoldable pub be_bytes : ℕ → ℕ → Bytes
be_bytes len zero = []
be_bytes len (suc i) = u8 (shr len (i * 8)) ∷ be_bytes len i

-- the frame header before the mask: FIN, opcode text, the mask bit and the length
unfoldable pub text_header : ℕ → Bytes
unfolding be_bytes
text_header len =
    0x81
    ∷ (if ltb len 126
        then bit_or 0x80 (u8 len) ∷ []
        else if ltb len 65536
        then bit_or 0x80 126 ∷ u8 (shr len 8) ∷ u8 len ∷ []
        else bit_or 0x80 127 ∷ be_bytes len 8)

-- the answer of a chain of sends
abbrev pub sent_code : {S : Type 0} → WsClient S → Option (Unit {0}) × S → WsError × WsClient S
sent_code ws (none, s) = (net_error, record ws { sock = s })
sent_code ws (some u, s) = (ws_ok, record ws { sock = s })

module _ {S : Type 0} (net : Socket S) where
  -- `while (sent < len)`; `left` is `data[sent ..]`. A round sends 4096 bytes or what is left.
  unfoldable pub send_chunks : ℕ → Bytes → ℕ → Bytes → S → Option (Unit {0}) × S
  send_chunks zero mask sent left s = (none, s)
  send_chunks (suc fuel) mask sent [] s = (some tt, s)
  send_chunks (suc fuel) mask sent (x ∷ xs) s =
      let chunk = take 4096 (x ∷ xs) in
      and_then (net_send_exact net (xor_mask mask sent chunk) s)
        (λ _. send_chunks fuel mask (sent + length chunk) (drop 4096 (x ∷ xs)))

  -- `data` is `none` for a null pointer; else it has `len` bytes
  unfoldable pub ws_send_text : Option Bytes → WsClient S → WsError × WsClient S
  ws_send_text none ws = (param_error, ws)
  ws_send_text (some bytes) ws =
      if not ws.valid
      then (param_error, ws)
      else (let mask32 = prng_next ws.rng_state in
          let mask = mask_bytes mask32 in
          let drawn = record ws { rng_state = mask32 } in
          sent_code drawn (
            and_then (net_send_exact net (text_header (length bytes) ++ mask) ws.sock)
              (λ _. send_chunks (suc (length bytes)) mask 0 bytes)))

  -- The close frame with status 1000, then up to two bytes of the peer's answer; the results of both
  -- calls are ignored. The descriptor is closed and the client freed, so `valid` ends as false.
  unfoldable pub ws_close : WsClient S → WsClient S
  ws_close ws =
      if not ws.valid
      then ws
      else (let mask32 = prng_next ws.rng_state in
          let mask = mask_bytes mask32 in
          let frame = 0x88 ∷ bit_or 0x80 2 ∷ mask ++ xor_mask mask 0 (0x03 ∷ 0xe8 ∷ []) in
          let s1 = (net_send_exact net frame ws.sock).1 in
          let s2 = (net_recv_exact net 2 s1).1 in
          record { valid = false; sock = s2; rng_state = mask32 })
