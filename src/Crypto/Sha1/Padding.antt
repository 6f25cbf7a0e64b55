-- ===== src/Crypto/Sha1/Padding.antt =====
-- The padded message, which the C code writes into a zeroed buffer piece by piece, against the
-- layout of RFC 3174, section 4.
use accel_observer.Prelude.{
  ℕ, zero, suc, ◌+◌, ◌-◌, ◌*◌, ◌%◌, ◌^◌, ◌<◌, ◌≡◌, refl, sym, ap, ◌∙◌, List, [], ◌∷◌, ◌++◌,
  append_assoc, arith, length, length-append, length-replicate, set, drop, replicate, Bytes, u8,
  u64, shr,
}
use accel_observer.Crypto.Sha1.{padded_len, write_bit_len, pad}

-- a 64-bit number, big-endian
abbrev pub be64 : ℕ → Bytes
be64 v =
    u8 (shr v 56)
    ∷ u8 (shr v 48)
    ∷ u8 (shr v 40)
    ∷ u8 (shr v 32)
    ∷ u8 (shr v 24)
    ∷ u8 (shr v 16)
    ∷ u8 (shr v 8)
    ∷ u8 v
    ∷ []

module _ {T : Type 0} where
  pub set-append :
      (xs ys : List T) (i j : ℕ) (v : T) → i ≡ length xs + j → set (xs ++ ys) i v ≡ xs ++ set ys j v
  set-append [] ys i j v e = let same : i ≡ j = omega arith in ap (λ t. set ys t v) same
  set-append (x ∷ xs) ys zero j v e = absurd (omega arith)
  set-append (x ∷ xs) ys (suc i) j v e = ap (◌∷◌ x) (set-append xs ys i j v (omega arith))

  drop-replicate : (n m k : ℕ) (a : T) → m ≡ n + k → drop n (replicate m a) ≡ replicate k a
  drop-replicate zero m k a e = let same : m ≡ k = omega arith in ap (λ t. replicate t a) same
  drop-replicate (suc n) zero k a e = absurd (omega arith)
  drop-replicate (suc n) (suc m) k a e = drop-replicate n m k a (omega arith)

  replicate-add : (m n k : ℕ) (a : T) → m ≡ n + k → replicate m a ≡ replicate n a ++ replicate k a
  replicate-add m zero k a e = let same : m ≡ k = omega arith in ap (λ t. replicate t a) same
  replicate-add zero (suc n) k a e = absurd (omega arith)
  replicate-add (suc m) (suc n) k a e = ap (◌∷◌ a) (replicate-add m n k a (omega arith))

-- The bit length goes into the last eight bytes.
write_bit_len-append :
    (bit_len size i : ℕ) (front back : Bytes)
    → length front + 8 ≡ size
    → write_bit_len bit_len size i (front ++ back) ≡ front ++ write_bit_len bit_len 8 i back
unfolding write_bit_len
write_bit_len-append bit_len size zero front back e = refl
write_bit_len-append bit_len size (suc i) front back e =
    ap (write_bit_len bit_len size i) (
      set-append front back (size - 8 + (7 - i)) (8 - 8 + (7 - i)) (u8 (shr bit_len (i * 8)))
        (omega arith))
    ∙ write_bit_len-append bit_len size i front
        (set back (8 - 8 + (7 - i)) (u8 (shr bit_len (i * 8)))) e

write_bit_len_eight : (bit_len : ℕ) → write_bit_len bit_len 8 8 (replicate 8 0) ≡ be64 bit_len
unfolding write_bit_len
write_bit_len_eight v =
    let last : u8 (shr v 0) ≡ u8 v = omega arith in
    ap
      (λ t.
        u8 (shr v 56)
        ∷ u8 (shr v 48)
        ∷ u8 (shr v 40)
        ∷ u8 (shr v 32)
        ∷ u8 (shr v 24)
        ∷ u8 (shr v 16)
        ∷ u8 (shr v 8)
        ∷ t
        ∷ [])
      last

-- The number of zero bytes: as few as make the length a multiple of 64.
abbrev pub zero_count : ℕ → ℕ
zero_count len = 63 - (len + 8) % 64

-- How the padded length splits.
padded_len_parts :
    (len : ℕ)
    → len < 2 ^ 60
    → (padded_len len ≡ len + suc (zero_count len + 8)) × (padded_len len % 64 ≡ 0)
unfolding padded_len
padded_len_parts len small = omega arith

module _ (message : Bytes) (small : length message < 2 ^ 60) where
  abbrev pub size : ℕ
  size = padded_len (length message)

  abbrev pub zeros : ℕ
  zeros = zero_count (length message)

  -- the buffer before the bit length is written, split where that goes
  abbrev pub front : Bytes
  front = message ++ (0x80 ∷ replicate zeros 0)

  marked_lem :
      set (message ++ drop (length message) (replicate size 0)) (length message) 0x80
      ≡ front ++ replicate 8 0
  marked_lem =
      let parts = padded_len_parts (length message) small in
      ap (λ t. set (message ++ t) (length message) 0x80)
        (drop-replicate (length message) size (suc (zeros + 8)) 0 parts.0)
      ∙ set-append message (replicate (suc (zeros + 8)) 0) (length message) 0 0x80 (omega arith)
      ∙ ap (λ t. message ++ (0x80 ∷ t)) (replicate-add (zeros + 8) zeros 8 0 refl)
      ∙ sym (append_assoc message (0x80 ∷ replicate zeros 0) (replicate 8 0))

  length-front : length front + 8 ≡ size
  length-front =
      let parts = padded_len_parts (length message) small in
      omega
        (arith, length-append message (0x80 ∷ replicate zeros 0), length-replicate {A = ℕ} zeros 0)

  -- For a message that fits the address space, the padded buffer is the message, the byte 0x80,
  -- zeros, and the length in bits in eight bytes; its length is `padded_len`, a multiple of 64.
  pub pad_lem :
      (pad message ≡ front ++ be64 (length message * 8))
      × (length (pad message) ≡ padded_len (length message))
      × (padded_len (length message) % 64 ≡ 0)
  unfolding pad
  pad_lem =
      let bits : u64 (length message * 8) ≡ length message * 8 = omega arith in
      let layout : pad message ≡ front ++ be64 (length message * 8) =
        ap (write_bit_len (u64 (length message * 8)) size 8) marked_lem
        ∙ write_bit_len-append (u64 (length message * 8)) size 8 front (replicate 8 0) length-front
        ∙ ap (◌++◌ front) (write_bit_len_eight (u64 (length message * 8)))
        ∙ ap (λ t. front ++ be64 t) bits in
      (
        layout,
        ap length layout ∙ length-append front (be64 (length message * 8)) ∙ length-front,
        (padded_len_parts (length message) small).1,
      )
