-- ===== src/Crypto/Base64.antt =====
-- client/src/crypto/base64.c (RFC 4648, section 4).
pub mod RoundTrip
pub mod Printable
use accel_observer.Prelude.{
  ℕ, ◌+◌, ◌*◌, ◌/◌, ◌%◌, ◌^◌, List, [], ◌∷◌, ◌++◌, length, get_or, Bytes, codes, u32, u64, shl, shr,
}
use accel_observer.Prelude.Bits.{bit_and, bit_or}

abbrev pub b64_table : Bytes
b64_table = codes "ABCDEFGHIJKLMNOPQRSTUVWXYZabcdefghijklmnopqrstuvwxyz0123456789+/"

-- `b` of one round of the loop, from the bytes `data[i ..]`: a byte that is missing adds nothing.
unfoldable pub group_word : Bytes → ℕ
group_word [] = 0
group_word (a ∷ []) = shl a 16
group_word (a ∷ b ∷ []) = bit_or (shl a 16) (shl b 8)
group_word (a ∷ b ∷ c ∷ rest) = bit_or (bit_or (shl a 16) (shl b 8)) c

-- `B64_TABLE[(b >> shift) & 0x3F]`; the table has 64 entries, so the read is in range
unfoldable pub b64_char : ℕ → ℕ → ℕ
b64_char b shift = get_or b64_table (bit_and (shr b shift) 0x3f) 0

-- The loop: one group of three bytes a round, padded by `=` at the end. The C function also
-- writes the terminating NUL, and returns the length of the text.
unfoldable pub base64_encode : Bytes → Bytes
unfolding group_word b64_char
base64_encode [] = []
base64_encode (a ∷ []) =
    let w = group_word (a ∷ []) in b64_char w 18 ∷ b64_char w 12 ∷ b'=' ∷ b'=' ∷ []
base64_encode (a ∷ b ∷ []) =
    let w = group_word (a ∷ b ∷ []) in b64_char w 18 ∷ b64_char w 12 ∷ b64_char w 6 ∷ b'=' ∷ []
base64_encode (a ∷ b ∷ c ∷ rest) =
    let w = group_word (a ∷ b ∷ c ∷ []) in
    b64_char w 18 ∷ b64_char w 12 ∷ b64_char w 6 ∷ b64_char w 0 ∷ base64_encode rest

unfoldable pub base64_encoded_size : ℕ → ℕ
base64_encoded_size len = u64 (u64 (len + 2) / 3 * 4)
