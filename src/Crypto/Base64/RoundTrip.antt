-- ===== src/Crypto/Base64/RoundTrip.antt =====
-- A decoder written from RFC 4648, and the encoder's length and round trip against it.
use accel_observer.Prelude.{
  ℕ, ◌+◌, ◌-◌, ◌*◌, ◌/◌, ◌%◌, ◌^◌, ◌<◌, ◌≡◌, refl, ap, ◌∙◌, Bool, true, false, not, ◌&&◌, [], ◌∷◌,
  ◌++◌, Option, none, some, arith, ◌==◌, leb, if◌then◌else◌, length, get_or, Bytes, shl, shr,
  IsBytes, all_below, all_below_sound,
}
use accel_observer.Prelude.Bits.{bit_and, bit_or, bit_and_mask, bit_or_fields}
use accel_observer.Crypto.Base64.{
  b64_table, group_word, b64_char, base64_encode, base64_encoded_size,
}

-- the value of a digit, by the ranges of the RFC's table
unfoldable pub digit_value : ℕ → Option ℕ
digit_value c =
    if leb b'A' c && leb c b'Z'
    then some (c - b'A')
    else if leb b'a' c && leb c b'z'
    then some (c - b'a' + 26)
    else if leb b'0' c && leb c b'9'
    then some (c - b'0' + 52)
    else if c == b'+'
    then some 62
    else if c == b'/'
    then some 63
    else none

-- the bytes of one group of four digits, of which `=` stands only at the end
unfoldable pub decode_group : Option ℕ → Option ℕ → ℕ → ℕ → Option Bytes
unfolding digit_value
decode_group none y c d = none
decode_group (some x) none c d = none
decode_group (some x) (some y) c d =
    if c == b'=' && d == b'=' then some ((x * 4 + y / 16) ∷ []) else elim (digit_value c) [
      | none ↦ none
      | some z ↦
          if d == b'='
          then some ((x * 4 + y / 16) ∷ (y % 16 * 16 + z / 4) ∷ [])
          else elim (digit_value d) [
            | none ↦ none
            | some w ↦ some ((x * 4 + y / 16) ∷ (y % 16 * 16 + z / 4) ∷ (z % 4 * 64 + w) ∷ [])
          ]
    ]

abbrev join : Option Bytes → Option Bytes → Option Bytes
join none q = none
join (some p) none = none
join (some p) (some q) = some (p ++ q)

unfoldable pub decode : Bytes → Option Bytes
unfolding digit_value decode_group
decode [] = some []
decode (a ∷ b ∷ c ∷ d ∷ rest) =
    join (decode_group (digit_value a) (digit_value b) c d) (decode rest)
decode _ = none

-- What the encoder's table must satisfy at the value `v`.
abbrev table_entry_ok : ℕ → Bool
table_entry_ok v =
    let c = get_or b64_table v 0 in
    not (c == b'=') && elim (digit_value c) [ none ↦ false | some x ↦ x == v ]

table_ok : all_below 64 table_entry_ok ≡ true
unfolding digit_value
table_ok = refl

entry_ok :
    (c v : ℕ)
    → (not (c == b'=') && elim (digit_value c) [ none ↦ false | some x ↦ x == v ]) ≡ true
    → (digit_value c ≡ some v) × ((c == b'=') ≡ false)
entry_ok c v h = ground arith

-- A digit of the encoder has the value of the six bits that it stands for, and is not `=`.
char_lem :
    (w shift : ℕ)
    → (digit_value (b64_char w shift) ≡ some (shr w shift % 64))
      × ((b64_char w shift == b'=') ≡ false)
unfolding b64_char
char_lem w shift =
    let six : bit_and (shr w shift) 0x3f ≡ shr w shift % 64 = bit_and_mask 6 (shr w shift) in
    rw six (
      entry_ok (get_or b64_table (shr w shift % 64) 0) (shr w shift % 64)
        (all_below_sound 64 table_entry_ok (shr w shift % 64) table_ok (omega arith)))

one_byte : (a : ℕ) → group_word (a ∷ []) ≡ a * 65536
unfolding group_word
one_byte a = refl

two_bytes : (a b : ℕ) → b < 256 → group_word (a ∷ b ∷ []) ≡ a * 65536 + b * 256
unfolding group_word
two_bytes a b h = bit_or_fields 16 a (b * 256) (omega arith)

three_bytes :
    (a b c : ℕ) → b < 256 → c < 256 → group_word (a ∷ b ∷ c ∷ []) ≡ a * 65536 + b * 256 + c
unfolding group_word
three_bytes a b c hb hc =
    let high : bit_or (shl a 16) (shl b 8) ≡ (a * 256 + b) * 2 ^ 8 =
      bit_or_fields 16 a (b * 256) (omega arith) ∙ omega arith in
    rw high (bit_or_fields 8 (a * 256 + b) c (omega arith) ∙ omega arith)

module _ (x y z w c d : ℕ) (third : digit_value c ≡ some z) (third_ne : (c == b'=') ≡ false) where
  half_group :
      decode_group (some x) (some y) c b'=' ≡ some ((x * 4 + y / 16) ∷ (y % 16 * 16 + z / 4) ∷ [])
  unfolding decode_group
  half_group = rw (third_ne, third)

  full_group :
      digit_value d ≡ some w
      → (d == b'=') ≡ false
      → decode_group (some x) (some y) c d
        ≡ some ((x * 4 + y / 16) ∷ (y % 16 * 16 + z / 4) ∷ (z % 4 * 64 + w) ∷ [])
  unfolding decode_group
  full_group fourth fourth_ne = rw (third_ne, third, fourth_ne, fourth)

-- The two first digits of a group, by their values.
first_digits :
    (word c d : ℕ)
    → decode_group (digit_value (b64_char word 18)) (digit_value (b64_char word 12)) c d
      ≡ decode_group (some (shr word 18 % 64)) (some (shr word 12 % 64)) c d
first_digits word c d = rw ((char_lem word 18).0, (char_lem word 12).0)

group_one :
    (a : ℕ)
    → a < 256
    → let w = group_word (a ∷ []) in
      decode_group (digit_value (b64_char w 18)) (digit_value (b64_char w 12)) b'=' b'='
      ≡ some (a ∷ [])
group_one a ha =
    let e = one_byte a in
    first_digits (group_word (a ∷ [])) b'=' b'='
    ∙ unfold decode_group in
      let byte : shr (group_word (a ∷ [])) 18 % 64 * 4 + shr (group_word (a ∷ [])) 12 % 64 / 16
          ≡ a =
        omega arith in
      ap (λ t. some (t ∷ [])) byte

group_two :
    (a b : ℕ)
    → a < 256
    → b < 256
    → let w = group_word (a ∷ b ∷ []) in
      decode_group (digit_value (b64_char w 18)) (digit_value (b64_char w 12)) (b64_char w 6) b'='
      ≡ some (a ∷ b ∷ [])
group_two a b ha hb =
    let w = group_word (a ∷ b ∷ []) in
    let e = two_bytes a b hb in
    let c6 = char_lem w 6 in
    first_digits w (b64_char w 6) b'='
    ∙ half_group (shr w 18 % 64) (shr w 12 % 64) (shr w 6 % 64) 0 (b64_char w 6) 0 c6.0 c6.1
    ∙ ground arith

group_three :
    (a b c : ℕ)
    → a < 256
    → b < 256
    → c < 256
    → let w = group_word (a ∷ b ∷ c ∷ []) in
      decode_group
        (digit_value (b64_char w 18))
        (digit_value (b64_char w 12))
        (b64_char w 6)
        (b64_char w 0)
      ≡ some (a ∷ b ∷ c ∷ [])
group_three a b c ha hb hc =
    let w = group_word (a ∷ b ∷ c ∷ []) in
    let e = three_bytes a b c hb hc in
    let c6 = char_lem w 6 in
    let c0 = char_lem w 0 in
    first_digits w (b64_char w 6) (b64_char w 0)
    ∙ full_group (shr w 18 % 64) (shr w 12 % 64) (shr w 6 % 64) (shr w 0 % 64) (b64_char w 6)
        (b64_char w 0) c6.0 c6.1 c0.0 c0.1
    ∙ ground arith

-- Decoding what `base64_encode` makes of a list of bytes gives the list back.
pub decode-base64_encode :
    (bytes : Bytes) → IsBytes bytes → decode (base64_encode bytes) ≡ some bytes
unfolding decode base64_encode
decode-base64_encode [] h = refl
decode-base64_encode (a ∷ []) (ha, hn) = rw (group_one a ha)
decode-base64_encode (a ∷ b ∷ []) (ha, (hb, hn)) = rw (group_two a b ha hb)
decode-base64_encode (a ∷ b ∷ c ∷ rest) (ha, (hb, (hc, hr))) =
    rw (group_three a b c ha hb hc, decode-base64_encode rest hr)

-- The text that `base64_encode` makes has the length `base64_encoded_size`, for inputs of less than
-- 2^63 - 2 bytes.
pub length-base64_encode :
    (bytes : Bytes)
    → length bytes + 2 < 2 ^ 63
    → length (base64_encode bytes) ≡ base64_encoded_size (length bytes)
unfolding base64_encode base64_encoded_size
length-base64_encode [] h = refl
length-base64_encode (a ∷ []) h = refl
length-base64_encode (a ∷ b ∷ []) h = refl
length-base64_encode (a ∷ b ∷ c ∷ rest) h = omega (arith, length-base64_encode rest (omega arith))
