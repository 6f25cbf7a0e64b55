-- ===== src/WebSocket/Server/Reader.antt =====
-- Reading the pieces of a frame whose bytes the peer has sent.
use accel_observer.Prelude.{
  ℕ, ◌/◌, ◌^◌, ◌<◌, ◌≡◌, refl, ap, ◌∙◌, Bool, true, false, not, [], ◌∷◌, ◌++◌, Option, some, arith,
  ◌==◌, length, get_or, Bytes, all_below, all_below_sound, ◌&&◌, u8, u64, shl, shr,
}
use accel_observer.Prelude.Bits.{bit_and, bit_or, bit_or_fields}
use accel_observer.Prelude.State.{and_then, ◌>>=◌}
use accel_observer.Net.Stream.{Socket, Delivers}
use accel_observer.Net.{net_recv_exact}
use accel_observer.Net.Exact.{net_recv_exact-message}
use accel_observer.WebSocket.Client.{be_bytes}
use accel_observer.WebSocket.Server.{be_value, recv_exact, read_len}

-- One more byte of a big-endian number.
be_value_step :
    (n m : ℕ) (xs : Bytes) → n ≡ m / 256 → m < 2 ^ 64 → be_value n (u8 m ∷ xs) ≡ be_value m xs
unfolding be_value
be_value_step n m xs e h =
    let fits : u64 (shl n 8) ≡ shl n 8 = omega arith in
    let joined : bit_or (u64 (shl n 8)) (u8 m) ≡ m =
      ap (λ t. bit_or t (u8 m)) fits ∙ bit_or_fields 8 n (u8 m) (omega arith) ∙ omega arith in
    ap (λ t. be_value t xs) joined

-- Big-endian bytes read back as the number.
pub be_value-be_bytes : (len : ℕ) → len < 2 ^ 64 → be_value 0 (be_bytes len 8) ≡ len
unfolding be_bytes
be_value-be_bytes len h =
    be_value_step 0 (shr len 56) _ (omega arith) (omega arith)
    ∙ be_value_step (shr len 56) (shr len 48) _ (omega arith) (omega arith)
    ∙ be_value_step (shr len 48) (shr len 40) _ (omega arith) (omega arith)
    ∙ be_value_step (shr len 40) (shr len 32) _ (omega arith) (omega arith)
    ∙ be_value_step (shr len 32) (shr len 24) _ (omega arith) (omega arith)
    ∙ be_value_step (shr len 24) (shr len 16) _ (omega arith) (omega arith)
    ∙ be_value_step (shr len 16) (shr len 8) _ (omega arith) (omega arith)
    ∙ be_value_step (shr len 8) (shr len 0) [] (omega arith) (omega arith)
    ∙ (unfold be_value in omega arith)

-- What the reader finds in the second byte of a header whose length is in that byte.
abbrev second_byte_ok : ℕ → Bool
second_byte_ok len = let h = bit_or 0x80 len in bit_and h 0x7f == len && not (bit_and h 0x80 == 0)

second_byte_table : all_below 126 second_byte_ok ≡ true
second_byte_table = refl

pub second_byte :
    (len : ℕ)
    → len < 126
    → (bit_and (bit_or 0x80 (u8 len)) 0x7f ≡ len)
      × ((bit_and (bit_or 0x80 (u8 len)) 0x80 == 0) ≡ false)
second_byte len h =
    let same : u8 len ≡ len = omega arith in
    rw same (
      split (bit_and (bit_or 0x80 len) 0x7f) len (bit_and (bit_or 0x80 len) 0x80)
        (all_below_sound 126 second_byte_ok len second_byte_table h))
  where
    split : (x y z : ℕ) → (x == y && not (z == 0)) ≡ true → (x ≡ y) × ((z == 0) ≡ false)
    split x y z e = ground arith

module _ {S : Type 0} (net : Socket S) (up : Delivers net) where
  open net use {incoming, outgoing}

  -- A step of the reader takes a piece of the stream: it succeeds with the value, and leaves the rest.
  pub record Takes {A : Type 0} (step : S → Option A × S) (value : A) (s : S) (rest : Bytes)
      : Type 0 where
    pub after : S
    pub ran : step s ≡ (some value, after)
    pub left : incoming after ≡ rest
    pub quiet : outgoing after ≡ outgoing s

  pub recv_exact-Takes :
      (n : ℕ) (piece rest : Bytes) (s : S)
      → n ≡ length piece
      → incoming s ≡ piece ++ rest
      → Takes (recv_exact net n) piece s rest
  unfolding recv_exact net_recv_exact
  recv_exact-Takes n piece rest s size e =
      let (s', ran, left, quiet) = net_recv_exact-message net up piece rest s e in
      record {
        after = s';
        ran = ap (λ k. recv_exact net k s) size ∙ ran;
        left = left;
        quiet = quiet;
      }

  pub Takes-bind :
      {A B : Type 0} {step : S → Option A × S} {value : A} {s : S} {rest : Bytes}
      (next : A → S → Option B × S) (result : B) (rest' : Bytes)
      → (t : Takes step value s rest) → Takes (next value) result t.after rest'
      → Takes (step >>= next) result s rest'
  Takes-bind next result rest' t u = record {
    after = u.after;
    ran = ap (λ r. and_then r next) t.ran ∙ u.ran;
    left = u.left;
    quiet = u.quiet ∙ t.quiet;
  }

  pub Takes-return :
      {A : Type 0} (value : A) (s : S) → Takes (λ t. (some value, t)) value s (incoming s)
  Takes-return value s = record { after = s; ran = refl; left = refl; quiet = refl }

  -- the length that stands in the second byte
  pub read_len_short : (len : ℕ) (s : S) → len < 126 → Takes (read_len net len) len s (incoming s)
  unfolding read_len
  read_len_short len s h =
      let no126 : (len == 126) ≡ false = ground arith in
      let no127 : (len == 127) ≡ false = ground arith in rw (no126, no127) (Takes-return len s)

  -- the length in two bytes, and in eight
  pub read_len_two :
      (len : ℕ) (rest : Bytes) (s : S)
      → len < 65536
      → incoming s ≡ (u8 (shr len 8) ∷ u8 len ∷ []) ++ rest
      → Takes (read_len net 126) len s rest
  unfolding read_len
  read_len_two len rest s h e =
      let t = recv_exact-Takes 2 (u8 (shr len 8) ∷ u8 len ∷ []) rest s refl e in
      let value : bit_or (shl (u8 (shr len 8)) 8) (u8 len) ≡ len =
        bit_or_fields 8 (u8 (shr len 8)) (u8 len) (omega arith) ∙ omega arith in
      record {
        after = t.after;
        ran =
            ap
              (λ r.
                and_then r (λ ext u. (some (bit_or (shl (get_or ext 0 0) 8) (get_or ext 1 0)), u)))
              t.ran
            ∙ ap (λ v. (some v, t.after)) value;
        left = t.left;
        quiet = t.quiet;
      }

  pub read_len_eight :
      (len : ℕ) (rest : Bytes) (s : S)
      → len < 2 ^ 64
      → incoming s ≡ be_bytes len 8 ++ rest
      → Takes (read_len net 127) len s rest
  unfolding read_len be_bytes
  read_len_eight len rest s h e =
      let t = recv_exact-Takes 8 (be_bytes len 8) rest s refl e in
      record {
        after = t.after;
        ran =
            ap (λ r. and_then r (λ ext u. (some (be_value 0 ext), u))) t.ran
            ∙ ap (λ v. (some v, t.after)) (be_value-be_bytes len h);
        left = t.left;
        quiet = t.quiet;
      }
