-- ===== src/Conf/Strings.antt =====
-- shared/include/confparser.h: the string helpers, and those of the C library that the parser calls.
use accel_observer.Prelude.{
  ℕ, ◌+◌, Bool, false, ◌&&◌, [], ◌∷◌, map, Option, none, some, leb, ◌==◌, if◌then◌else◌, Bytes,
}
use accel_observer.Prelude.Text.{is_space, drop_spaces}

-- `tolower` in the C locale
abbrev pub to_lower : ℕ → ℕ
to_lower c = if leb b'A' c && leb c b'Z' then c + 32 else c

unfoldable pub str_tolower : Bytes → Bytes
str_tolower s = map to_lower s

-- without the spaces at the end
abbrev pub keep : ℕ → Bytes → Bytes
keep c [] = if is_space c then [] else c ∷ []
keep c (d ∷ ds) = c ∷ d ∷ ds

abbrev pub trim_right : Bytes → Bytes
trim_right [] = []
trim_right (c ∷ cs) = keep c (trim_right cs)

unfoldable pub str_trim : Bytes → Bytes
str_trim s = trim_right (drop_spaces s)

-- what stands before the first byte of the kind, and what follows it; `none` is a null pointer
abbrev pub put_back : ℕ → Option (Bytes × Bytes) → Option (Bytes × Bytes)
put_back c none = none
put_back c (some (before, after)) = some (c ∷ before, after)

abbrev pub split_at : (ℕ → Bool) → Bytes → Option (Bytes × Bytes)
split_at kind [] = none
split_at kind (c ∷ cs) = if kind c then some ([], cs) else put_back c (split_at kind cs)

abbrev pub before_first : (ℕ → Bool) → Bytes → Bytes
before_first kind [] = []
before_first kind (c ∷ cs) = if kind c then [] else c ∷ before_first kind cs

-- the text without its last byte, if that is a quotation mark
abbrev pub cons_if : ℕ → Option Bytes → Option Bytes
cons_if c none = none
cons_if c (some cs) = some (c ∷ cs)

abbrev pub open_end : Bytes → Option Bytes
open_end [] = none
open_end (c ∷ []) = if c == b'"' then some [] else none
open_end (c ∷ d ∷ ds) = cons_if c (open_end (d ∷ ds))

abbrev pub or_text : Bytes → Option Bytes → Bytes
or_text text none = text
or_text text (some inner) = inner

-- both quotation marks, which are two bytes
unfoldable pub str_unquote : Bytes → Bytes
str_unquote [] = []
str_unquote (c ∷ cs) = if c == b'"' then or_text (c ∷ cs) (open_end cs) else c ∷ cs

abbrev pub ends_in_space : Bytes → Bool
ends_in_space [] = false
ends_in_space (c ∷ []) = is_space c
ends_in_space (c ∷ d ∷ ds) = ends_in_space (d ∷ ds)
