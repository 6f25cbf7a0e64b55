-- ===== src/Conf/Numbers.antt =====
-- shared/include/confparser.h: the getters of numbers, and `conf_get_entry`.
use accel_observer.Prelude.{
  ℕ, ◌≤◌, true, [], ◌∷◌, Option, none, some, leb, if◌then◌else◌, if_cases, leb→le, get_elem?, Bytes,
  u32,
}
use accel_observer.Prelude.Int.{ℤ, pos, negsuc}
use accel_observer.Prelude.Number.{Number, read_number, long_value, ulong_value, int_of_long}
use accel_observer.Conf.{Entry, ConfResult}
use accel_observer.Conf.Lookup.{find_entry, value_or}

-- `(end != e->value) ? (..)v : fallback`
abbrev pub converted : {A : Type 0} → A → (Number → A) → Option Number → A
converted fallback use_number none = fallback
converted fallback use_number (some n) = use_number n

-- An empty value counts as absent.
abbrev pub number_or : {A : Type 0} → A → (Number → A) → Bytes → A
number_or fallback use_number [] = fallback
number_or fallback use_number (c ∷ cs) = converted fallback use_number (read_number true (c ∷ cs))

unfoldable pub conf_get_int : ConfResult → Bytes → Bytes → ℤ → ℤ
unfolding find_entry read_number long_value int_of_long
conf_get_int conf section key fallback =
    value_or fallback (number_or fallback (λ n. int_of_long (long_value n)))
      (find_entry conf section key)

unfoldable pub conf_get_long : ConfResult → Bytes → Bytes → ℤ → ℤ
unfolding find_entry read_number long_value
conf_get_long conf section key fallback =
    value_or fallback (number_or fallback long_value) (find_entry conf section key)

-- `(uint16_t)v`, where `v` is in range
abbrev pub uint16_or : ℕ → ℤ → ℕ
uint16_or fallback (pos n) = if leb n 65535 then n else fallback
uint16_or fallback (negsuc n) = fallback

unfoldable pub conf_get_uint16 : ConfResult → Bytes → Bytes → ℕ → ℕ
unfolding conf_get_int
conf_get_uint16 conf section key fallback =
    uint16_or fallback (conf_get_int conf section key (pos fallback))

unfoldable pub conf_get_uint32 : ConfResult → Bytes → Bytes → ℕ → ℕ
unfolding find_entry read_number ulong_value
conf_get_uint32 conf section key fallback =
    value_or fallback (number_or fallback (λ n. u32 (ulong_value n))) (find_entry conf section key)

unfoldable pub conf_get_size : ConfResult → Bytes → Bytes → ℕ → ℕ
unfolding find_entry read_number ulong_value
conf_get_size conf section key fallback =
    value_or fallback (number_or fallback ulong_value) (find_entry conf section key)

-- `strtod` of the C library is a parameter: no result where it converts nothing.
abbrev pub or_default : {A : Type 0} → A → Option A → A
or_default fallback none = fallback
or_default fallback (some a) = a

abbrev pub double_or : {D : Type 0} → (Bytes → Option D) → D → Bytes → D
double_or strtod fallback [] = fallback
double_or strtod fallback (c ∷ cs) = or_default fallback (strtod (c ∷ cs))

unfoldable pub conf_get_double :
    {D : Type 0} → (Bytes → Option D) → ConfResult → Bytes → Bytes → D → D
unfolding find_entry
conf_get_double strtod conf section key fallback =
    value_or fallback (double_or strtod fallback) (find_entry conf section key)

-- A null pointer, for an index out of range, is `none`.
unfoldable pub conf_get_entry : ConfResult → ℤ → Option Entry
conf_get_entry conf (pos i) = get_elem? conf.entries i
conf_get_entry conf (negsuc i) = none

uint16_or-le : (fallback : ℕ) (v : ℤ) → fallback ≤ 65535 → uint16_or fallback v ≤ 65535
uint16_or-le fallback (pos n) h =
    if_cases (λ r. r ≤ 65535) (leb n 65535) n fallback (λ e. leb→le n 65535 e) (λ e. h)
uint16_or-le fallback (negsuc n) h = h

-- What `conf_get_uint16` returns fits 16 bits, whatever the file says, if the fallback does.
pub conf_get_uint16-le :
    (conf : ConfResult) (section key : Bytes) (fallback : ℕ)
    → fallback ≤ 65535
    → conf_get_uint16 conf section key fallback ≤ 65535
unfolding conf_get_uint16
conf_get_uint16-le conf section key fallback h =
    uint16_or-le fallback (conf_get_int conf section key (pos fallback)) h
