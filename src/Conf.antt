-- ===== src/Conf.antt =====
-- shared/include/confparser.h: the configuration file. A C string is the bytes before its NUL, and the
-- fixed buffers cut what is put into them. Allocation does not fail here, and the texts of the error
-- messages are constructors.
pub mod Strings
pub mod Load
pub mod Lookup
pub mod Numbers
pub mod Find
mod Tests
use accel_observer.Prelude.{
  ℕ, zero, suc, ◌+◌, ◌-◌, ◌*◌, Bool, true, false, List, [], ◌∷◌, ◌++◌, Option, none, some, min, ltb,
  leb, ◌==◌, if◌then◌else◌, length, take, Bytes, codes,
}
use accel_observer.Conf.Strings.{str_tolower}

abbrev pub conf_max_entries : ℕ
conf_max_entries = 512

abbrev pub conf_max_section : ℕ
conf_max_section = 64

abbrev pub conf_max_key : ℕ
conf_max_key = 64

abbrev pub conf_max_value : ℕ
conf_max_value = 512

abbrev pub conf_max_line : ℕ
conf_max_line = 1024

-- `conf_entry_t`
pub record Entry : Type 0 where
  pub section : Bytes
  pub key : Bytes
  pub value : Bytes
  pub line_n : ℕ

-- `last_error_msg`, with the line that it names
pub data Message : Type 0 where
  no_message too_many cannot_open : Message
  unclosed no_equals : ℕ → Message

-- `conf_result_t`; `entries` has `filled_count` elements
pub record ConfResult : Type 0 where
  pub entries : List Entry
  pub capacity : ℕ
  pub last_error_msg : Message
  pub error_line : ℕ

-- `conf_alloc`
unfoldable pub conf_alloc : ConfResult
conf_alloc = record { entries = []; capacity = 64; last_error_msg = no_message; error_line = 0 }

-- the capacity after the first part of `conf_push`; `none` where it returns false
unfoldable pub grown : ℕ → ℕ → Option ℕ
grown filled_count capacity =
    if leb capacity filled_count
    then (if leb conf_max_entries capacity
        then none
        else some (min (capacity * 2) conf_max_entries))
    else some capacity

-- `strncpy(buf, text, size - 1)` with the NUL at the end
abbrev pub copied : ℕ → Bytes → Bytes
copied size text = take (size - 1) text

unfoldable pub entry_of : Bytes → Bytes → Bytes → ℕ → Entry
entry_of section key value line_n = record {
  section = copied conf_max_section section;
  key = str_tolower (copied conf_max_key key);
  value = copied conf_max_value value;
  line_n = line_n;
}

abbrev pub add_entry : Entry → ConfResult → Option ℕ → Bool × ConfResult
add_entry entry conf none = (false, conf)
add_entry entry conf (some capacity) =
    (true, record conf { entries = conf.entries ++ entry ∷ []; capacity = capacity })

unfoldable pub conf_push : ConfResult → Bytes → Bytes → Bytes → ℕ → Bool × ConfResult
unfolding grown entry_of
conf_push conf section key value line_n =
    add_entry (entry_of section key value line_n) conf (grown (length conf.entries) conf.capacity)
