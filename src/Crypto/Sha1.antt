-- ===== src/Crypto/Sha1.antt =====
-- client/src/crypto/sha1.c (RFC 3174). A word is a number below 2^32, with the wrap written out.
pub mod Padding
use accel_observer.Prelude.{
  ℕ, zero, suc, ◌+◌, ◌-◌, ◌*◌, ◌/◌, ◌%◌, ◌^◌, List, [], ◌∷◌, ◌++◌, if◌then◌else◌, ltb, length,
  get_or, set, drop, replicate, Bytes, u8, u32, u64, shl, shr,
}
use accel_observer.Prelude.Bits.{bit_and, bit_or, bit_xor}

unfoldable pub rotl32 : ℕ → ℕ → ℕ
rotl32 v n = bit_or (u32 (shl v n)) (shr v (32 - n))

-- the word at `p[i]`
unfoldable pub load_be32 : Bytes → ℕ → ℕ
load_be32 p i =
    bit_or
      (bit_or (bit_or (shl (get_or p i 0) 24) (shl (get_or p (i + 1) 0) 16))
        (shl (get_or p (i + 2) 0) 8))
      (get_or p (i + 3) 0)

-- the four bytes that are stored
unfoldable pub store_be32 : ℕ → Bytes
store_be32 v = u8 (shr v 24) ∷ u8 (shr v 16) ∷ u8 (shr v 8) ∷ u8 v ∷ []

unfoldable pub padded_len : ℕ → ℕ
padded_len len = u64 ((u64 (len + 8) / 64 + 1) * 64)

-- The loop that writes the bit length, on the rounds left: `i` is the round's counter, from 7 down.
unfoldable pub write_bit_len : ℕ → ℕ → ℕ → Bytes → Bytes
write_bit_len bit_len size zero buf = buf
write_bit_len bit_len size (suc i) buf =
    write_bit_len bit_len size i (set buf (size - 8 + (7 - i)) (u8 (shr bit_len (i * 8))))

-- `calloc`, `memcpy`, the byte 0x80 and the bit length
unfoldable pub pad : Bytes → Bytes
pad message =
    let len = length message in
    let size = padded_len len in
    let zeroed : Bytes = replicate size 0 in
    let copied = message ++ drop len zeroed in
    let marked = set copied len 0x80 in write_bit_len (u64 (len * 8)) size 8 marked

-- `W[0 .. 16)` of the block at `blk`, on the words left
unfoldable pub block_words : Bytes → ℕ → ℕ → ℕ → List ℕ
block_words padded blk t zero = []
block_words padded blk t (suc n) = load_be32 padded (blk + t * 4) ∷ block_words padded blk (t + 1) n

-- the loop from 16 to 80; `n` is the number of words still to append
unfoldable pub extend_words : ℕ → List ℕ → List ℕ
extend_words zero w = w
extend_words (suc n) w =
    let t = length w in
    let mixed =
      bit_xor (bit_xor (bit_xor (get_or w (t - 3) 0) (get_or w (t - 8) 0)) (get_or w (t - 14) 0))
        (get_or w (t - 16) 0) in
    extend_words n (w ++ rotl32 mixed 1 ∷ [])

pub record Hash : Type 0 where
  pub a : ℕ
  pub b : ℕ
  pub c : ℕ
  pub d : ℕ
  pub e : ℕ

-- `~x` of a word
abbrev pub bit_not : ℕ → ℕ
bit_not x = bit_xor x 0xffffffff

unfoldable pub round_f : ℕ → Hash → ℕ
round_f t s =
    if ltb t 20
    then bit_or (bit_and s.b s.c) (bit_and (bit_not s.b) s.d)
    else if ltb t 40
    then bit_xor (bit_xor s.b s.c) s.d
    else if ltb t 60
    then bit_or (bit_or (bit_and s.b s.c) (bit_and s.b s.d)) (bit_and s.c s.d)
    else bit_xor (bit_xor s.b s.c) s.d

unfoldable pub round_k : ℕ → ℕ
round_k t =
    if ltb t 20
    then 0x5a827999
    else if ltb t 40
    then 0x6ed9eba1
    else if ltb t 60
    then 0x8f1bbcdc
    else 0xca62c1d6

unfoldable pub round : ℕ → ℕ → Hash → Hash
unfolding rotl32 round_f round_k
round t w s =
    let tmp = u32 (u32 (u32 (u32 (rotl32 s.a 5 + round_f t s) + s.e) + round_k t) + w) in
    record { e = s.d; d = s.c; c = rotl32 s.b 30; b = s.a; a = tmp }

-- the loop over `t`, on the words from `W[t]` on
unfoldable pub rounds : ℕ → List ℕ → Hash → Hash
unfolding round
rounds t [] s = s
rounds t (w ∷ ws) s = rounds (t + 1) ws (round t w s)

unfoldable pub compress : Bytes → ℕ → Hash → Hash
unfolding rounds extend_words block_words load_be32 rotl32
compress padded blk h =
    let s = rounds 0 (extend_words 64 (block_words padded blk 0 16)) h in
    record {
      a = u32 (h.a + s.a);
      b = u32 (h.b + s.b);
      c = u32 (h.c + s.c);
      d = u32 (h.d + s.d);
      e = u32 (h.e + s.e);
    }

-- the loop over the blocks, on the blocks left
unfoldable pub blocks : ℕ → Bytes → ℕ → Hash → Hash
unfolding compress
blocks zero padded blk h = h
blocks (suc n) padded blk h = blocks n padded (blk + 64) (compress padded blk h)

abbrev pub initial_hash : Hash
initial_hash = record {
  a = 0x67452301;
  b = 0xefcdab89;
  c = 0x98badcfe;
  d = 0x10325476;
  e = 0xc3d2e1f0;
}

unfoldable pub sha1_compute : Bytes → Bytes
unfolding pad padded_len write_bit_len blocks store_be32
sha1_compute message =
    let h = blocks (padded_len (length message) / 64) (pad message) 0 initial_hash in
    store_be32 h.a ++ store_be32 h.b ++ store_be32 h.c ++ store_be32 h.d ++ store_be32 h.e
