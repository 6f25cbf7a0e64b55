-- ===== src/WebSocket/Upgrade.antt =====
-- client/src/transport/websocket/ws_client.c: the HTTP upgrade, as the client asks for it.
pub mod Lines
pub mod Agrees
pub mod Joined
mod Tests
use accel_observer.Prelude.{
  ℕ, zero, suc, ◌+◌, ◌-◌, ◌<◌, Bool, true, false, not, ◌&&◌, ◌||◌, List, [], ◌∷◌, ◌++◌, Option,
  none, some, ltb, leb, ◌==◌, if◌then◌else◌, length, Bytes, codes, u8,
}
use accel_observer.Prelude.Bits.{bit_and}
use accel_observer.Prelude.State.{and_then}
use accel_observer.Prelude.Text.{show_decimal, same_text}
use accel_observer.Conf.Strings.{to_lower, split_at, before_first}
use accel_observer.Crypto.Base64.{base64_encode}
use accel_observer.Crypto.Sha1.{sha1_compute}
use accel_observer.Net.Stream.{Socket}
use accel_observer.Net.{net_send_exact, net_recv_line}
use accel_observer.WebSocket.Client.{
  WsError, ws_ok, net_error, handshake_error, param_error, WsClient, prng_next,
}

-- the inner loop of `istr_contains`, at one place
abbrev pub istarts : Bytes → Bytes → Bool
istarts [] text = true
istarts (n ∷ ns) [] = false
istarts (n ∷ ns) (h ∷ hs) = (to_lower h == to_lower n) && istarts ns hs

unfoldable pub istr_contains : Bytes → Bytes → Bool
istr_contains [] needle = istarts needle []
istr_contains (h ∷ hs) needle = istarts needle (h ∷ hs) || istr_contains hs needle

abbrev pub is_blank : ℕ → Bool
is_blank c = (c == b' ') || (c == b'\t')

abbrev pub skip_blanks : Bytes → Bytes
skip_blanks [] = []
skip_blanks (c ∷ cs) = if is_blank c then skip_blanks cs else c ∷ cs

abbrev pub is_line_blank : ℕ → Bool
is_line_blank c = is_blank c || ((c == b'\r') || (c == b'\n'))

abbrev pub keep_last : ℕ → Bytes → Bytes
keep_last c [] = if is_line_blank c then [] else c ∷ []
keep_last c (d ∷ ds) = c ∷ d ∷ ds

abbrev pub cut_blanks : Bytes → Bytes
cut_blanks [] = []
cut_blanks (c ∷ cs) = keep_last c (cut_blanks cs)

abbrev pub fits_in : ℕ → Bytes → Option Bytes
fits_in out_size value = if leb out_size (length value) then none else some value

abbrev pub behind_colon : ℕ → Option (Bytes × Bytes) → Option Bytes
behind_colon out_size none = none
behind_colon out_size (some (before, after)) = fits_in out_size (cut_blanks (skip_blanks after))

-- `none` where the C function returns false, and `out` is left as it was
unfoldable pub extract_header_value : Bytes → Bytes → ℕ → Option Bytes
unfolding istr_contains
extract_header_value line name out_size =
    if not (istr_contains line name)
    then none
    else behind_colon out_size (split_at (λ c. c == b':') line)

-- the random bytes, and the state of the generator behind them
unfoldable pub nonce : ℕ → ℕ → Bytes × ℕ
unfolding prng_next
nonce zero rng = ([], rng)
nonce (suc n) rng =
    let drawn = prng_next rng in
    let (later, last) = nonce n drawn in (u8 (bit_and drawn 0xff) ∷ later, last)

unfoldable pub upgrade_request : Bytes → Bytes → ℕ → Bytes → Bytes
upgrade_request path host port nonce_b64 =
    codes "GET "
    ++ (path
        ++ (codes " HTTP/1.1\r\nHost: "
            ++ (host
                ++ (codes ":"
                    ++ (show_decimal port
                        ++ (codes
                              "\r\nUpgrade: websocket\r\nConnection: Upgrade\r\nSec-WebSocket-Key: "
                            ++ (nonce_b64 ++ codes "\r\nSec-WebSocket-Version: 13\r\n\r\n")))))))

unfoldable pub expected_accept : Bytes → Bytes
expected_accept nonce_b64 =
    base64_encode (sha1_compute (nonce_b64 ++ codes "258EAFA5-E914-47DA-95CA-C5AB0DC85B11"))

-- what the headers have shown so far
pub record Seen : Type 0 where
  pub got_upgrade : Bool
  pub got_connection : Bool
  pub server_accept : Bytes

abbrev pub kept_or : Bytes → Option Bytes → Bytes
kept_or old none = old
kept_or old (some value) = value

-- one header line; `server_accept` has room for 64 bytes
unfoldable pub see_line : Bytes → Seen → Seen
unfolding istr_contains extract_header_value
see_line line seen = record {
  got_upgrade =
      seen.got_upgrade
      || (istr_contains line (codes "upgrade:") && istr_contains line (codes "websocket"));
  got_connection =
      seen.got_connection
      || (istr_contains line (codes "connection:") && istr_contains line (codes "upgrade"));
  server_accept =
      if istr_contains line (codes "sec-websocket-accept:")
      then kept_or seen.server_accept (extract_header_value line (codes "sec-websocket-accept:") 64)
      else seen.server_accept;
}

-- a C string ends at a NUL
abbrev pub c_string : Bytes → Bytes
c_string line = before_first (λ c. c == 0) line

-- the tests behind the headers
unfoldable pub verdict : Bytes → Seen → WsError
verdict expected seen =
    if not seen.got_upgrade
    then handshake_error
    else if not seen.got_connection
    then handshake_error
    else if length seen.server_accept == 0
    then handshake_error
    else if not (same_text seen.server_accept expected)
    then handshake_error
    else ws_ok

abbrev pub nothing_seen : Seen
nothing_seen = record { got_upgrade = false; got_connection = false; server_accept = [] }

abbrev pub judged : {S : Type 0} → Bytes → Option Seen × S → WsError × S
judged expected (none, s) = (net_error, s)
judged expected (some seen, s) = (verdict expected seen, s)

module _ {S : Type 0} (net : Socket S) where
  -- `while (true)`, for at most `fuel` lines
  abbrev pub at_line : Seen → Option Bytes × S → (Seen → S → Option Seen × S) → Option Seen × S
  at_line seen (none, s) next = (none, s)
  at_line seen (some [], s) next = (some seen, s)
  at_line seen (some (c ∷ cs), s) next = next (see_line (c_string (c ∷ cs)) seen) s

  unfoldable pub read_headers : ℕ → Seen → S → Option Seen × S
  unfolding see_line
  read_headers zero seen s = (none, s)
  read_headers (suc fuel) seen s = at_line seen (net_recv_line net 2048 s) (read_headers fuel)

  -- the status line, then the headers
  abbrev pub at_status : ℕ → Bytes → Option Bytes × S → WsError × S
  at_status fuel expected (none, s) = (net_error, s)
  at_status fuel expected (some line, s) =
      if not (istr_contains (c_string line) (codes "101"))
      then (handshake_error, s)
      else judged expected (read_headers fuel nothing_seen s)

  abbrev pub at_sent : ℕ → Bytes → Option (Unit {0}) × S → WsError × S
  at_sent fuel expected (none, s) = (net_error, s)
  at_sent fuel expected (some done, s) = at_status fuel expected (net_recv_line net 2048 s)

  abbrev pub with_sock : WsClient S → ℕ → WsError × S → WsError × WsClient S
  with_sock ws rng (code, s) = (code, record { valid = ws.valid; sock = s; rng_state = rng })

  unfoldable pub do_handshake : ℕ → Bytes → ℕ → Bytes → WsClient S → WsError × WsClient S
  unfolding nonce upgrade_request expected_accept verdict read_headers
  do_handshake fuel host port path ws =
      let (nonce_raw, rng) = nonce 16 ws.rng_state in
      let nonce_b64 = base64_encode nonce_raw in
      let request = upgrade_request path host port nonce_b64 in
      if ltb (length request) 1024
      then with_sock ws rng
          (at_sent fuel (expected_accept nonce_b64) (net_send_exact net request ws.sock))
      else (param_error, record ws { rng_state = rng })
