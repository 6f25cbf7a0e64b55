-- ===== src/Crypto/Tests.antt =====
-- Published vectors, and the theorems at concrete inputs.
use accel_observer.Prelude.{◌%◌, ◌≡◌, refl, [], ◌∷◌, ◌++◌, some, arith, length, replicate, codes}
use accel_observer.Crypto.Base64.{base64_encode}
use accel_observer.Crypto.Base64.RoundTrip.{decode, decode-base64_encode}
use accel_observer.Crypto.Sha1.{sha1_compute, pad, padded_len}
use accel_observer.Crypto.Sha1.Padding.{be64, pad_lem}

-- RFC 3174, test 1, and the handshake of RFC 6455, section 1.3
sha1_abc :
    sha1_compute (codes "abc")
    ≡ 0xa9 ∷ 0x99 ∷ 0x3e ∷ 0x36 ∷ 0x47 ∷ 0x06 ∷ 0x81 ∷ 0x6a ∷ 0xba ∷ 0x3e ∷ 0x25 ∷ 0x71 ∷ 0x78
      ∷ 0x50 ∷ 0xc2 ∷ 0x6c ∷ 0x9c ∷ 0xd0 ∷ 0xd8 ∷ 0x9d ∷ []
unfolding sha1_compute
sha1_abc = refl

accept_key :
    base64_encode
      (sha1_compute (codes "dGhlIHNhbXBsZSBub25jZQ==258EAFA5-E914-47DA-95CA-C5AB0DC85B11"))
    ≡ codes "s3pPLMBiTxaQ9kYGzzhZRbK+xOo="
unfolding sha1_compute base64_encode
accept_key = refl

base64_paddings :
    (base64_encode (codes "f") ≡ codes "Zg==")
    × (base64_encode (codes "fo") ≡ codes "Zm8=")
    × (base64_encode (codes "foob") ≡ codes "Zm9vYg==")
unfolding base64_encode
base64_paddings = (refl, refl, refl)

decode-base64_encode_example :
    decode (base64_encode (255 ∷ 0 ∷ 128 ∷ 7 ∷ [])) ≡ some (255 ∷ 0 ∷ 128 ∷ 7 ∷ [])
decode-base64_encode_example = decode-base64_encode (255 ∷ 0 ∷ 128 ∷ 7 ∷ []) (omega arith)

pad_lem_example :
    (pad (7 ∷ 9 ∷ []) ≡ (7 ∷ 9 ∷ []) ++ (0x80 ∷ replicate 53 0) ++ be64 16)
    × (length (pad (7 ∷ 9 ∷ [])) ≡ padded_len 2)
    × (padded_len 2 % 64 ≡ 0)
pad_lem_example = pad_lem (7 ∷ 9 ∷ []) (omega arith)
