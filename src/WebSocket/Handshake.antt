-- ===== src/WebSocket/Handshake.antt =====
-- server/src/transport/websocket/ws_subscriber.cpp: the HTTP upgrade, as the server answers it.
pub mod Answer
mod Tests
use accel_observer.Prelude.{
  ℕ, zero, suc, ◌+◌, Bool, true, false, not, ◌&&◌, ◌||◌, List, [], ◌∷◌, ◌++◌, Option, none, some,
  ◌==◌, if◌then◌else◌, get_or, length, Bytes, codes,
}
use accel_observer.Prelude.State.{and_then}
use accel_observer.Prelude.Text.{find_rest}
use accel_observer.Crypto.Base64.{base64_encode}
use accel_observer.Crypto.Sha1.{sha1_compute}
use accel_observer.Net.Stream.{Socket}
use accel_observer.Net.{strip_cr}
use accel_observer.WebSocket.Server.{send_exact}

unfoldable pub compute_accept_key : Bytes → Bytes
compute_accept_key client_key =
    base64_encode (sha1_compute (client_key ++ codes "258EAFA5-E914-47DA-95CA-C5AB0DC85B11"))

-- `ws_chars`
abbrev pub is_ws_char : ℕ → Bool
is_ws_char c = (c == b' ') || ((c == b'\t') || ((c == b'\r') || (c == b'\n')))

abbrev pub skip_ws : Bytes → Bytes
skip_ws [] = []
skip_ws (c ∷ cs) = if is_ws_char c then skip_ws cs else c ∷ cs

abbrev pub keep_word : ℕ → Bytes → Bytes
keep_word c [] = if is_ws_char c then [] else c ∷ []
keep_word c (d ∷ ds) = c ∷ d ∷ ds

abbrev pub cut_ws : Bytes → Bytes
cut_ws [] = []
cut_ws (c ∷ cs) = keep_word c (cut_ws cs)

abbrev pub names_key : Option Bytes → Option Bytes → Bool
names_key none none = false
names_key none (some rest) = true
names_key (some rest) other = true

abbrev pub after_colon : Bytes → Option Bytes → Bytes
after_colon key none = key
after_colon key (some value) = cut_ws (skip_ws value)

-- `ws_key` after one header line
unfoldable pub key_of_line : Bytes → Bytes → Bytes
key_of_line key line =
    if names_key (find_rest (codes "Sec-WebSocket-Key:") line)
      (find_rest (codes "Sec-Websocket-Key:") line)
    then after_colon key (find_rest (codes ":") line)
    else key

unfoldable pub response : Bytes → Bytes
unfolding compute_accept_key
response key =
    codes
      "HTTP/1.1 101 Switching Protocols\r\nUpgrade: websocket\r\nConnection: Upgrade\r\nSec-WebSocket-Accept: "
    ++ (compute_accept_key key ++ codes "\r\n\r\n")

module _ {S : Type 0} (net : Socket S) where
  -- `while (true)`, on fuel for the bytes of the line
  unfoldable pub recv_line : ℕ → Bytes → S → Option Bytes × S
  recv_line zero line s = (none, s)
  recv_line (suc fuel) line s = and_then (net.recv 1 s) (λ part s'.
      let c = get_or part 0 0 in
      let more = recv_line fuel (line ++ c ∷ []) s' in
      if c == b'\n' then (some (strip_cr line), s') else more)

  -- `while (recv_line(client, line) && !line.empty())`, for at most `lines` lines
  abbrev pub at_header : Bytes → Option Bytes × S → (Bytes → S → Bytes × S) → Bytes × S
  at_header key (none, s) next = (key, s)
  at_header key (some [], s) next = (key, s)
  at_header key (some (c ∷ cs), s) next = next (key_of_line key (c ∷ cs)) s

  unfoldable pub header_loop : ℕ → ℕ → Bytes → S → Bytes × S
  unfolding recv_line key_of_line
  header_loop fuel zero key s = (key, s)
  header_loop fuel (suc lines) key s = at_header key (recv_line fuel [] s) (header_loop fuel lines)

  abbrev pub answer : Bytes × S → Option (Unit {0}) × S
  answer ([], s) = (none, s)
  answer (k ∷ ks, s) = send_exact net (response (k ∷ ks)) s

  -- A result is there where the method returns true. The first line is not looked at.
  unfoldable pub do_handshake : ℕ → ℕ → S → Option (Unit {0}) × S
  unfolding header_loop
  do_handshake fuel lines s =
      and_then (recv_line fuel [] s) (λ line s'. answer (header_loop fuel lines [] s'))
