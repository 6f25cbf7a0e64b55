-- ===== src/Prelude/Text.antt =====
-- Text as bytes: searching, and decimal numbers as the C library prints and reads them.
use Prim.Native.Nat.{ℕ, zero, suc, ◌+◌, ◌-◌, ◌*◌, ◌/◌, ◌%◌, ◌^◌, ◌≤◌, ◌<◌}
use mathlib.Core.Path.{◌≡◌, refl, sym, ap, ◌∙◌, subst}
use mathlib.Core.Bool.{Bool, true, false, ◌&&◌, ◌||◌}
use mathlib.Core.Option.{Option, none, some}
use mathlib.Core.List.{[], ◌∷◌, ◌++◌, append_assoc}
use mathlib.Core.Logic.{inl, inr}
use native.Mathlib.Omega.{arith}
use accel_observer.Prelude.Tests.{
  ltb, leb, ◌==◌, if◌then◌else◌, if_true, if_false, if_either, Bool-cases, ltb→lt, lt→ltb,
  ltb_false→le,
}
use accel_observer.Prelude.Words.{Bytes}

-- `isspace` in the C locale, and `isdigit`
abbrev pub is_space : ℕ → Bool
is_space c = (c == 32) || (leb 9 c && leb c 13)

abbrev pub is_digit : ℕ → Bool
is_digit c = leb 48 c && leb c 57

abbrev pub strip_prefix : Bytes → Bytes → Option Bytes
strip_prefix [] text = some text
strip_prefix (p ∷ ps) [] = none
strip_prefix (p ∷ ps) (c ∷ cs) = if p == c then strip_prefix ps cs else none

abbrev pub or_else : {A : Type 0} → Option A → Option A → Option A
or_else none other = other
or_else (some a) other = some a

-- what follows the first occurrence of the pattern; `none` is `npos`
abbrev pub find_rest : Bytes → Bytes → Option Bytes
find_rest pattern [] = strip_prefix pattern []
find_rest pattern (c ∷ cs) = or_else (strip_prefix pattern (c ∷ cs)) (find_rest pattern cs)

abbrev pub drop_spaces : Bytes → Bytes
drop_spaces [] = []
drop_spaces (c ∷ cs) = if is_space c then drop_spaces cs else c ∷ cs

-- the value of the digits in front, after the value of those before
abbrev pub read_digits : ℕ → Bytes → ℕ
read_digits v [] = v
read_digits v (c ∷ cs) =
    let more = read_digits (v * 10 + (c - 48)) cs in if is_digit c then more else v

-- A conversion without digits, and one that does not fit (`ERANGE`), has no result.
abbrev pub in_64_bits : ℕ → Option ℕ
in_64_bits v = if ltb v (2 ^ 64) then some v else none

abbrev pub unsigned_digits : Bytes → Option ℕ
unsigned_digits [] = none
unsigned_digits (c ∷ cs) = if is_digit c then in_64_bits (read_digits 0 (c ∷ cs)) else none

abbrev pub negated : Option ℕ → Option ℕ
negated none = none
negated (some v) = some ((2 ^ 64 - v) % 2 ^ 64)

abbrev pub after_spaces : Bytes → Option ℕ
after_spaces [] = none
after_spaces (c ∷ cs) =
    if c == b'-'
    then negated (unsigned_digits cs)
    else if c == b'+'
    then unsigned_digits cs
    else unsigned_digits (c ∷ cs)

-- `strtoull(text, &end, 10)`; a minus sign negates the value modulo 2^64
unfoldable pub strtoull : Bytes → Option ℕ
strtoull text = after_spaces (drop_spaces text)

-- `%llu`: the digits of the number, on fuel above it
abbrev pub decimal : ℕ → ℕ → Bytes
decimal zero n = []
decimal (suc fuel) n =
    let front = decimal fuel (n / 10) in
    if ltb n 10 then (48 + n % 10) ∷ [] else front ++ (48 + n % 10) ∷ []

unfoldable pub show_decimal : ℕ → Bytes
show_decimal n = decimal (suc n) n

read_digits-digit :
    (v d : ℕ) (rest : Bytes)
    → d < 10
    → read_digits v ((48 + d) ∷ rest) ≡ read_digits (v * 10 + d) rest
read_digits-digit v d rest h = ground arith

read_digits-decimal :
    (fuel n : ℕ) (rest : Bytes)
    → n < fuel
    → read_digits 0 (decimal fuel n ++ rest) ≡ read_digits n rest
read_digits-decimal zero n rest h = absurd (omega arith)
read_digits-decimal (suc fuel) n rest h =
    let last = (48 + n % 10) ∷ [] in
    elim (Bool-cases (ltb n 10)) [
      | inl e ↦
          let small = ltb→lt n 10 e in
          let same : 0 * 10 + n % 10 ≡ n = omega arith in
          ap (λ t. read_digits 0 (t ++ rest)) (if_true last (decimal fuel (n / 10) ++ last) e)
          ∙ read_digits-digit 0 (n % 10) rest (omega arith)
          ∙ ap (λ v. read_digits v rest) same
      | inr e ↦
          let big = ltb_false→le n 10 e in
          let same : n / 10 * 10 + n % 10 ≡ n = omega arith in
          ap (λ t. read_digits 0 (t ++ rest)) (if_false last (decimal fuel (n / 10) ++ last) e)
          ∙ ap (read_digits 0) (append_assoc (decimal fuel (n / 10)) last rest)
          ∙ read_digits-decimal fuel (n / 10) (last ++ rest) (omega arith)
          ∙ read_digits-digit (n / 10) (n % 10) rest (omega arith)
          ∙ ap (λ v. read_digits v rest) same
    ]

-- The text has a digit in front, and no quotation mark.
pub record IsNumeral (text : Bytes) : Type 0 where
  pub first : ℕ
  pub others : Bytes
  pub split : text ≡ first ∷ others
  pub from_0 : 48 ≤ first
  pub to_9 : first ≤ 57

-- No byte of the text is the one that the pattern begins with.
abbrev pub Lacks : ℕ → Bytes → Type 0
Lacks q [] = Unit
Lacks q (c ∷ cs) = ((q == c) ≡ false) × Lacks q cs

pub Lacks-append : (q : ℕ) (xs ys : Bytes) → Lacks q xs → Lacks q ys → Lacks q (xs ++ ys)
Lacks-append q [] ys h k = k
Lacks-append q (x ∷ xs) ys (other, h) k = (other, Lacks-append q xs ys h k)

-- The search passes over a text without the first byte of the pattern.
pub find_rest-skip :
    (q : ℕ) (pattern text rest : Bytes)
    → Lacks q text
    → find_rest (q ∷ pattern) (text ++ rest) ≡ find_rest (q ∷ pattern) rest
find_rest-skip q pattern [] rest h = refl
find_rest-skip q pattern (c ∷ cs) rest (other, h) =
    ap (λ o. or_else o (find_rest (q ∷ pattern) (cs ++ rest)))
      (if_false (strip_prefix pattern (cs ++ rest)) none other)
    ∙ find_rest-skip q pattern cs rest h

decimal-IsNumeral : (fuel n : ℕ) → n < fuel → IsNumeral (decimal fuel n)
decimal-IsNumeral zero n h = absurd (omega arith)
decimal-IsNumeral (suc fuel) n h =
    let last = (48 + n % 10) ∷ [] in
    elim (Bool-cases (ltb n 10)) [
      | inl e ↦ record {
        first = 48 + n % 10;
        others = [];
        split = if_true last (decimal fuel (n / 10) ++ last) e;
        from_0 = omega arith;
        to_9 = omega arith;
      }
      | inr e ↦
          let big = ltb_false→le n 10 e in
          let front = decimal-IsNumeral fuel (n / 10) (omega arith) in
          record {
            first = front.first;
            others = front.others ++ last;
            split =
                if_false last (decimal fuel (n / 10) ++ last) e ∙ ap (λ t. t ++ last) front.split;
            from_0 = front.from_0;
            to_9 = front.to_9;
          }
    ]

decimal-Lacks : (fuel n : ℕ) → Lacks b'"' (decimal fuel n)
decimal-Lacks zero n = tt
decimal-Lacks (suc fuel) n =
    let last = (48 + n % 10) ∷ [] in
    let digit : (b'"' == (48 + n % 10)) ≡ false = ground arith in
    if_either (Lacks b'"') (ltb n 10) last (decimal fuel (n / 10) ++ last) (digit, tt)
      (Lacks-append b'"' (decimal fuel (n / 10)) last (decimal-Lacks fuel (n / 10)) (digit, tt))

pub show_decimal-IsNumeral : (n : ℕ) → IsNumeral (show_decimal n)
unfolding show_decimal
show_decimal-IsNumeral n = decimal-IsNumeral (suc n) n (omega arith)

pub show_decimal-Lacks : (n : ℕ) → Lacks b'"' (show_decimal n)
unfolding show_decimal
show_decimal-Lacks n = decimal-Lacks (suc n) n

-- What stands after a number and ends it.
abbrev pub Ends : Bytes → Type 0
Ends [] = Unit
Ends (c ∷ cs) = is_digit c ≡ false

read_digits-end : (v : ℕ) (rest : Bytes) → Ends rest → read_digits v rest ≡ v
read_digits-end v [] h = refl
read_digits-end v (c ∷ cs) h = if_false (read_digits (v * 10 + (c - 48)) cs) v h

numeral_read :
    (first : ℕ) (cs : Bytes)
    → 48 ≤ first
    → first ≤ 57
    → strtoull (first ∷ cs) ≡ in_64_bits (read_digits 0 (first ∷ cs))
unfolding strtoull
numeral_read first cs lo hi = ground arith

-- `strtoull` reads back what `%llu` has printed, if something other than a digit follows.
pub strtoull-show_decimal :
    (n : ℕ) (rest : Bytes) → n < 2 ^ 64 → Ends rest → strtoull (show_decimal n ++ rest) ≡ some n
unfolding show_decimal
strtoull-show_decimal n rest small ends =
    let text = decimal-IsNumeral (suc n) n (omega arith) in
    let whole = ap (λ t. t ++ rest) text.split in
    let fits : ltb n (2 ^ 64) ≡ true = lt→ltb n (2 ^ 64) small in
    ap strtoull whole
    ∙ numeral_read text.first (text.others ++ rest) text.from_0 text.to_9
    ∙ ap (λ t. in_64_bits (read_digits 0 t)) (sym whole)
    ∙ ap in_64_bits (read_digits-decimal (suc n) n rest (omega arith) ∙ read_digits-end n rest ends)
    ∙ if_true (some n) none fits

-- A number that a conversion gives fits in 64 bits.
abbrev pub Fits : Option ℕ → Type 0
Fits none = Unit
Fits (some v) = v < 2 ^ 64

in_64_bits-Fits : (v : ℕ) → Fits (in_64_bits v)
in_64_bits-Fits v = elim (Bool-cases (ltb v (2 ^ 64))) [
  | inl e ↦ subst Fits (sym (if_true (some v) none e)) (ltb→lt v (2 ^ 64) e)
  | inr e ↦ subst Fits (sym (if_false (some v) none e)) tt
]

unsigned_digits-Fits : (text : Bytes) → Fits (unsigned_digits text)
unsigned_digits-Fits [] = tt
unsigned_digits-Fits (c ∷ cs) =
    if_either Fits (is_digit c) (in_64_bits (read_digits 0 (c ∷ cs))) none
      (in_64_bits-Fits (read_digits 0 (c ∷ cs))) tt

negated-Fits : (o : Option ℕ) → Fits (negated o)
negated-Fits none = tt
negated-Fits (some v) = omega arith

after_spaces-Fits : (text : Bytes) → Fits (after_spaces text)
after_spaces-Fits [] = tt
after_spaces-Fits (c ∷ cs) =
    if_either Fits (c == b'-') _ _ (negated-Fits (unsigned_digits cs))
      (if_either Fits (c == b'+') _ _ (unsigned_digits-Fits cs) (unsigned_digits-Fits (c ∷ cs)))

pub strtoull-Fits : (text : Bytes) → Fits (strtoull text)
unfolding strtoull
strtoull-Fits text = after_spaces-Fits (drop_spaces text)

-- whether two texts are equal
abbrev pub same_text : Bytes → Bytes → Bool
same_text [] [] = true
same_text [] (d ∷ ds) = false
same_text (c ∷ cs) [] = false
same_text (c ∷ cs) (d ∷ ds) = (c == d) && same_text cs ds

pub same_text_refl : (cs : Bytes) → same_text cs cs ≡ true
same_text_refl [] = refl
same_text_refl (c ∷ cs) = ground (arith, same_text_refl cs)
