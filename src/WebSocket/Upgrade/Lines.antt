-- ===== src/WebSocket/Upgrade/Lines.antt =====
-- The lines of the server's answer, as the client reads them.
use accel_observer.Prelude.{
  ◌<◌, ◌≡◌, refl, ap, ◌∙◌, true, false, [], ◌∷◌, ◌++◌, some, arith, ◌==◌, leb, if_false, length,
  Bytes, codes,
}
use accel_observer.Conf.Strings.{before_first}
use accel_observer.Crypto.Base64.{base64_encoded_size}
use accel_observer.Crypto.Base64.RoundTrip.{length-base64_encode}
use accel_observer.Crypto.Base64.Printable.{Printable, base64_encode-Printable}
use accel_observer.Crypto.Sha1.{sha1_compute}
use accel_observer.Net.Line.{OneLine}
use accel_observer.WebSocket.Upgrade.{
  skip_blanks, keep_last, cut_blanks, fits_in, extract_header_value, see_line, c_string,
  expected_accept, istr_contains, kept_or,
}

pub Printable-OneLine : (cs : Bytes) → Printable cs → OneLine cs
Printable-OneLine [] h = tt
Printable-OneLine (c ∷ cs) (lo, hi, h) = (ground arith, Printable-OneLine cs h)

pub Printable-c_string : (cs : Bytes) → Printable cs → before_first (λ c. c == 0) cs ≡ cs
Printable-c_string [] h = refl
Printable-c_string (c ∷ cs) (lo, hi, h) =
    let other : (c == 0) ≡ false = ground arith in
    if_false [] (c ∷ before_first (λ d. d == 0) cs) other ∙ ap (◌∷◌ c) (Printable-c_string cs h)

Printable-cut_blanks : (cs : Bytes) → Printable cs → cut_blanks cs ≡ cs
Printable-cut_blanks [] h = refl
Printable-cut_blanks (c ∷ []) (lo, hi, h) = ground arith
Printable-cut_blanks (c ∷ d ∷ ds) (lo, hi, h) = ap (keep_last c) (Printable-cut_blanks (d ∷ ds) h)

Printable-skip_blanks : (cs : Bytes) → Printable cs → skip_blanks cs ≡ cs
Printable-skip_blanks [] h = refl
Printable-skip_blanks (c ∷ cs) (lo, hi, h) = ground arith

-- the accept key has 28 characters
pub length-expected_accept : (key : Bytes) → length (expected_accept key) ≡ 28
unfolding expected_accept base64_encoded_size sha1_compute
length-expected_accept key =
    length-base64_encode (sha1_compute (key ++ codes "258EAFA5-E914-47DA-95CA-C5AB0DC85B11"))
      (omega arith)

pub expected_accept-Printable : (key : Bytes) → Printable (expected_accept key)
unfolding expected_accept
expected_accept-Printable key =
    base64_encode-Printable (sha1_compute (key ++ codes "258EAFA5-E914-47DA-95CA-C5AB0DC85B11"))

abbrev pub accept_line : Bytes → Bytes
accept_line accept = codes "Sec-WebSocket-Accept: " ++ accept

-- The value of that line is taken as it is.
extract_accept :
    (accept : Bytes)
    → Printable accept
    → length accept < 64
    → extract_header_value (accept_line accept) (codes "sec-websocket-accept:") 64 ≡ some accept
unfolding extract_header_value istr_contains
extract_accept accept h short =
    let same : cut_blanks (skip_blanks accept) ≡ accept =
      ap cut_blanks (Printable-skip_blanks accept h) ∙ Printable-cut_blanks accept h in
    let room : leb 64 (length accept) ≡ false = ground arith in
    ap (fits_in 64) same ∙ if_false _ _ room

-- Behind the two lines before it, the line completes what the client looks for.
pub see_accept :
    (accept : Bytes)
    → Printable accept
    → length accept < 64
    → see_line
        (c_string (accept_line accept))
        (record { got_upgrade = true; got_connection = true; server_accept = [] })
      ≡ record { got_upgrade = true; got_connection = true; server_accept = accept }
unfolding see_line
see_accept accept h short =
    ap
      (λ line.
        see_line line (record { got_upgrade = true; got_connection = true; server_accept = [] }))
      (ap (λ t. codes "Sec-WebSocket-Accept: " ++ t) (Printable-c_string accept h))
    ∙ ap (λ a. record { got_upgrade = true; got_connection = true; server_accept = a })
        (ap (kept_or []) (extract_accept accept h short))
