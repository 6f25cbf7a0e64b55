-- ===== src/Prelude/Number.antt =====
-- The conversions of the C library that take a base and give the end of the number: `strtol`,
-- `strtoull` and `atoi`, on a 64-bit `long`.
use Prim.Native.Nat.{ℕ, zero, suc, ◌+◌, ◌-◌, ◌*◌, ◌/◌, ◌%◌, ◌^◌, ◌<◌, ◌≤◌}
use mathlib.Core.Path.{◌≡◌, sym, ap, ◌∙◌}
use mathlib.Core.Bool.{Bool, true, false, ◌&&◌, ◌||◌}
use mathlib.Core.Option.{Option, none, some}
use mathlib.Core.List.{[], ◌∷◌, ◌++◌, append_assoc, append-nil}
use mathlib.Core.Logic.{inl, inr}
use native.Mathlib.Omega.{arith}
use accel_observer.Prelude.Tests.{
  ltb, leb, ◌==◌, if◌then◌else◌, if_true, if_false, Bool-cases, ltb→lt, ltb_false→le,
}
use accel_observer.Prelude.Words.{Bytes}
use accel_observer.Prelude.Text.{drop_spaces, decimal, show_decimal, show_decimal-IsNumeral}
use accel_observer.Prelude.Int.{ℤ, pos, negsuc, signed_32, to_int}

-- the value of a digit, of a letter too; 36 stands for any other byte
abbrev pub digit_value : ℕ → ℕ
digit_value c =
    if leb b'0' c && leb c b'9'
    then c - b'0'
    else if leb b'a' c && leb c b'z'
    then c - b'a' + 10
    else if leb b'A' c && leb c b'Z'
    then c - b'A' + 10
    else 36

-- the digits in front, after those that give `v`, and what follows them
unfoldable pub scan : ℕ → ℕ → Bytes → ℕ × Bytes
scan base v [] = (v, [])
scan base v (c ∷ cs) =
    let more = scan base (v * base + digit_value c) cs in
    if ltb (digit_value c) base then more else (v, c ∷ cs)

-- a number needs a digit
unfoldable pub scan_number : ℕ → Bytes → Option (ℕ × Bytes)
unfolding scan
scan_number base [] = none
scan_number base (c ∷ cs) = if ltb (digit_value c) base then some (scan base 0 (c ∷ cs)) else none

-- behind the digit 0 in front, for base 0: "0x" and a hexadecimal digit, or an octal number
abbrev pub hex_or_zero : Bytes → Option (ℕ × Bytes) → Option (ℕ × Bytes)
hex_or_zero rest none = some (0, rest)
hex_or_zero rest (some found) = some found

unfoldable pub after_zero : Bytes → Option (ℕ × Bytes)
unfolding scan scan_number
after_zero [] = some (0, [])
after_zero (x ∷ cs) =
    if (x == b'x') || (x == b'X')
    then hex_or_zero (x ∷ cs) (scan_number 16 cs)
    else some (scan 8 0 (x ∷ cs))

unfoldable pub any_base : Bytes → Option (ℕ × Bytes)
unfolding after_zero scan_number
any_base [] = none
any_base (c ∷ cs) = if c == b'0' then after_zero cs else scan_number 10 (c ∷ cs)

-- base 10, or base 0 if the flag is set
abbrev pub unsigned_number : Bool → Bytes → Option (ℕ × Bytes)
unsigned_number true text = any_base text
unsigned_number false text = scan_number 10 text

-- a number with its sign, and the text at `end`
pub record Number : Type 0 where
  pub negative : Bool
  pub magnitude : ℕ
  pub rest : Bytes

abbrev pub with_sign : Bool → Option (ℕ × Bytes) → Option Number
with_sign negative none = none
with_sign negative (some (v, rest)) =
    some (record { negative = negative; magnitude = v; rest = rest })

abbrev pub signed_number : Bool → Bytes → Option Number
signed_number detect [] = none
signed_number detect (c ∷ cs) =
    if c == b'-'
    then with_sign true (unsigned_number detect cs)
    else if c == b'+'
    then with_sign false (unsigned_number detect cs)
    else with_sign false (unsigned_number detect (c ∷ cs))

-- `none`: no conversion, `end` is the start of the text
unfoldable pub read_number : Bool → Bytes → Option Number
unfolding scan_number any_base
read_number detect text = signed_number detect (drop_spaces text)

-- what `strtol` returns: a value out of range is cut to `LONG_MIN` or `LONG_MAX`
abbrev pub negated : ℕ → ℤ
negated zero = pos 0
negated (suc n) = if ltb (2 ^ 63) (suc n) then negsuc (2 ^ 63 - 1) else negsuc n

unfoldable pub long_value : Number → ℤ
long_value n =
    if n.negative
    then negated n.magnitude
    else pos (if ltb n.magnitude (2 ^ 63) then n.magnitude else 2 ^ 63 - 1)

-- what `strtoull` returns: cut to `ULLONG_MAX`, else negated modulo 2^64 after a minus sign
unfoldable pub ulong_value : Number → ℕ
ulong_value n =
    if ltb n.magnitude (2 ^ 64)
    then (if n.negative then (2 ^ 64 - n.magnitude) % 2 ^ 64 else n.magnitude)
    else 2 ^ 64 - 1

-- the cast of a `long` to `int`
unfoldable pub int_of_long : ℤ → ℤ
int_of_long (pos n) = to_int n
int_of_long (negsuc n) = signed_32 (2 ^ 32 - 1 - n % 2 ^ 32)

-- `atoi`
abbrev pub int_or_zero : Option Number → ℤ
int_or_zero none = pos 0
int_or_zero (some n) = int_of_long (long_value n)

unfoldable pub atoi : Bytes → ℤ
unfolding read_number long_value int_of_long
atoi text = int_or_zero (read_number false text)

scan-digit :
    (v d : ℕ) (rest : Bytes) → d < 10 → scan 10 v ((48 + d) ∷ rest) ≡ scan 10 (v * 10 + d) rest
unfolding scan
scan-digit v d rest h = ground arith

scan-decimal :
    (fuel n : ℕ) (rest : Bytes) → n < fuel → scan 10 0 (decimal fuel n ++ rest) ≡ scan 10 n rest
scan-decimal zero n rest h = absurd (omega arith)
scan-decimal (suc fuel) n rest h =
    let last = (48 + n % 10) ∷ [] in
    elim (Bool-cases (ltb n 10)) [
      | inl e ↦
          let small = ltb→lt n 10 e in
          let same : 0 * 10 + n % 10 ≡ n = omega arith in
          ap (λ t. scan 10 0 (t ++ rest)) (if_true last (decimal fuel (n / 10) ++ last) e)
          ∙ scan-digit 0 (n % 10) rest (omega arith)
          ∙ ap (λ v. scan 10 v rest) same
      | inr e ↦
          let big = ltb_false→le n 10 e in
          let same : n / 10 * 10 + n % 10 ≡ n = omega arith in
          ap (λ t. scan 10 0 (t ++ rest)) (if_false last (decimal fuel (n / 10) ++ last) e)
          ∙ ap (scan 10 0) (append_assoc (decimal fuel (n / 10)) last rest)
          ∙ scan-decimal fuel (n / 10) (last ++ rest) (omega arith)
          ∙ scan-digit (n / 10) (n % 10) rest (omega arith)
          ∙ ap (λ v. scan 10 v rest) same
    ]

numeral_read :
    (first : ℕ) (cs : Bytes)
    → 48 ≤ first
    → first ≤ 57
    → read_number false (first ∷ cs) ≡ with_sign false (some (scan 10 0 (first ∷ cs)))
unfolding read_number scan_number
numeral_read first cs lo hi = ground arith

-- The whole text of a printed number is read, in base 10.
pub read_number-show_decimal :
    (n : ℕ)
    → read_number false (show_decimal n)
      ≡ some (record { negative = false; magnitude = n; rest = [] })
unfolding show_decimal scan
read_number-show_decimal n =
    let text = show_decimal-IsNumeral n in
    ap (read_number false) text.split
    ∙ numeral_read text.first text.others text.from_0 text.to_9
    ∙ ap (λ t. with_sign false (some (scan 10 0 t)))
        (sym text.split ∙ sym (append-nil (decimal (suc n) n)))
    ∙ ap (λ r. with_sign false (some r)) (scan-decimal (suc n) n [] (omega arith))
