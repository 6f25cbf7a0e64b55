-- ===== src/Crypto/Base64/Printable.antt =====
-- The characters that `base64_encode` writes: no blank, no end of line, no NUL.
use accel_observer.Prelude.{
  ℕ, ◌%◌, ◌≤◌, ◌≡◌, refl, Bool, true, ◌&&◌, [], ◌∷◌, arith, leb, get_or, Bytes, shr, all_below,
  all_below_sound,
}
use accel_observer.Prelude.Bits.{bit_and, bit_and_mask}
use accel_observer.Crypto.Base64.{b64_table, group_word, b64_char, base64_encode}

abbrev pub Printable : Bytes → Type 0
Printable [] = Unit
Printable (c ∷ cs) = (33 ≤ c) × (c ≤ 126) × Printable cs

printable_entry : ℕ → Bool
printable_entry v = leb 33 (get_or b64_table v 0) && leb (get_or b64_table v 0) 126

table_printable : all_below 64 printable_entry ≡ true
unfolding printable_entry
table_printable = refl

in_bounds : (c : ℕ) → (leb 33 c && leb c 126) ≡ true → (33 ≤ c) × (c ≤ 126)
in_bounds c h = ground arith

char_printable : (w shift : ℕ) → (33 ≤ b64_char w shift) × (b64_char w shift ≤ 126)
unfolding b64_char printable_entry
char_printable w shift =
    let six : bit_and (shr w shift) 0x3f ≡ shr w shift % 64 = bit_and_mask 6 (shr w shift) in
    rw six (
      in_bounds (get_or b64_table (shr w shift % 64) 0)
        (all_below_sound 64 printable_entry (shr w shift % 64) table_printable (omega arith)))

pub base64_encode-Printable : (bytes : Bytes) → Printable (base64_encode bytes)
unfolding base64_encode
base64_encode-Printable [] = tt
base64_encode-Printable (a ∷ []) =
    let w = group_word (a ∷ []) in
    let p = char_printable w 18 in
    let q = char_printable w 12 in
    (p.0, p.1, (q.0, q.1, (omega arith, omega arith, (omega arith, omega arith, tt))))
base64_encode-Printable (a ∷ b ∷ []) =
    let w = group_word (a ∷ b ∷ []) in
    let p = char_printable w 18 in
    let q = char_printable w 12 in
    let r = char_printable w 6 in (p.0, p.1, (q.0, q.1, (r.0, r.1, (omega arith, omega arith, tt))))
base64_encode-Printable (a ∷ b ∷ c ∷ rest) =
    let w = group_word (a ∷ b ∷ c ∷ []) in
    let p = char_printable w 18 in
    let q = char_printable w 12 in
    let r = char_printable w 6 in
    let t = char_printable w 0 in
    (p.0, p.1, (q.0, q.1, (r.0, r.1, (t.0, t.1, base64_encode-Printable rest))))
