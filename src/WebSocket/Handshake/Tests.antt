-- ===== src/WebSocket/Handshake/Tests.antt =====
-- The handshake of RFC 6455, section 1.3, at the server.
use accel_observer.Prelude.{◌≡◌, refl, List, [], ◌∷◌, ◌++◌, some, arith, Bytes, codes}
use accel_observer.Net.Line.{OneLine_lem}
use accel_observer.Net.Loopback.{Wire, flat, loopback, loopback-Delivers, loopback-Accepts}
use accel_observer.WebSocket.Handshake.{compute_accept_key, key_of_line, response, do_handshake}
use accel_observer.WebSocket.Handshake.Answer.{with_end, header_text, key_of, do_handshake-response}

accept_of :
    compute_accept_key (codes "dGhlIHNhbXBsZSBub25jZQ==") ≡ codes "s3pPLMBiTxaQ9kYGzzhZRbK+xOo="
unfolding compute_accept_key accel_observer.Crypto.Sha1.sha1_compute
    accel_observer.Crypto.Base64.base64_encode
accept_of = refl

abbrev headers : List Bytes
headers = codes "Host: server" ∷ codes "Sec-WebSocket-Key: \tdGhlIHNhbXBsZSBub25jZQ== " ∷ []

abbrev request_wire : Wire
request_wire = record {
  arrivals = (with_end (codes "GET / HTTP/1.1") ++ (header_text headers ++ (7 ∷ []))) ∷ [];
  sent = [];
}

the_key : key_of [] headers ≡ b'd' ∷ codes "GhlIHNhbXBsZSBub25jZQ=="
unfolding key_of_line
the_key = refl

do_handshake-response_example :
    (w : Wire) × (do_handshake loopback 100 10 request_wire ≡ (some tt, w))
    × (flat w.arrivals ≡ 7 ∷ [])
    × (w.sent ≡ [] ++ response (codes "dGhlIHNhbXBsZSBub25jZQ=="))
do_handshake-response_example =
    do_handshake-response loopback loopback-Delivers loopback-Accepts 100 10
      (codes "GET / HTTP/1.1") headers b'd' (codes "GhlIHNhbXBsZSBub25jZQ==") (7 ∷ []) request_wire
      (omega arith) (omega arith) (OneLine_lem (codes "GET / HTTP/1.1") refl)
      (
        omega arith,
        omega arith,
        OneLine_lem (codes "Host: server") refl,
        (
          omega arith,
          omega arith,
          OneLine_lem (codes "Sec-WebSocket-Key: \tdGhlIHNhbXBsZSBub25jZQ== ") refl,
          tt,
        ),
      )
      the_key refl
