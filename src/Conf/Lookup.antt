-- ===== src/Conf/Lookup.antt =====
-- shared/include/confparser.h: finding an entry, and the getters.
use accel_observer.Prelude.{
  ℕ, ◌≡◌, refl, sym, ap, ◌∙◌, Bool, true, false, ◌&&◌, ◌||◌, List, [], ◌∷◌, ◌++◌, Option, none,
  some, if◌then◌else◌, if_true, if_false, Bool-cases, inl, inr, length, Bytes, codes,
}
use accel_observer.Conf.{
  Entry, ConfResult, conf_push, entry_of, add_entry, grown, copied, conf_max_section, conf_max_key,
  conf_max_value,
}
use accel_observer.Conf.Strings.{str_tolower}
use accel_observer.Prelude.Text.{same_text, or_else}

-- `strcasecmp(section, sec) == 0 && strcmp(key, key_lc) == 0`
unfoldable pub matches : Bytes → Bytes → Entry → Bool
matches section key_lc e =
    same_text (str_tolower e.section) (str_tolower section) && same_text e.key key_lc

unfoldable pub first_match : Bytes → Bytes → List Entry → Option Entry
unfolding matches
first_match section key_lc [] = none
first_match section key_lc (e ∷ es) =
    if matches section key_lc e then some e else first_match section key_lc es

-- A null section is the empty one.
unfoldable pub find_entry : ConfResult → Bytes → Bytes → Option Entry
unfolding first_match
find_entry conf section key =
    first_match section (str_tolower (copied conf_max_key key)) conf.entries

unfoldable pub conf_has_key : ConfResult → Bytes → Bytes → Bool
unfolding find_entry
conf_has_key conf section key = elim (find_entry conf section key) [ none ↦ false | some e ↦ true ]

unfoldable pub conf_count : ConfResult → ℕ
conf_count conf = length conf.entries

abbrev pub value_or : {A : Type 0} → A → (Bytes → A) → Option Entry → A
value_or fallback use_value none = fallback
value_or fallback use_value (some e) = use_value e.value

-- The fallback may be a null pointer, `none`.
unfoldable pub conf_get_str : ConfResult → Bytes → Bytes → Option Bytes → Option Bytes
unfolding find_entry
conf_get_str conf section key fallback = value_or fallback some (find_entry conf section key)

-- the texts of true and false, in lower case
unfoldable pub bool_of : Bool → Bytes → Bool
bool_of fallback [] = fallback
bool_of fallback (c ∷ cs) =
    let v = str_tolower (copied 16 (c ∷ cs)) in
    if same_text v (codes "true")
      || (same_text v (codes "yes") || (same_text v (codes "on") || same_text v (codes "1")))
    then true
    else if same_text v (codes "false")
        || (same_text v (codes "no") || (same_text v (codes "off") || same_text v (codes "0")))
    then false
    else fallback

unfoldable pub conf_get_bool : ConfResult → Bytes → Bytes → Bool → Bool
unfolding find_entry bool_of
conf_get_bool conf section key fallback =
    value_or fallback (bool_of fallback) (find_entry conf section key)

first_match-append :
    (section key : Bytes) (es fs : List Entry)
    → first_match section key (es ++ fs)
      ≡ or_else (first_match section key es) (first_match section key fs)
unfolding first_match
first_match-append section key [] fs = refl
first_match-append section key (e ∷ es) fs = elim (Bool-cases (matches section key e)) [
  | inl h ↦
      if_true (some e) (first_match section key (es ++ fs)) h
      ∙ sym (
          ap (λ o. or_else o (first_match section key fs))
            (if_true (some e) (first_match section key es) h))
  | inr h ↦
      if_false (some e) (first_match section key (es ++ fs)) h
      ∙ first_match-append section key es fs
      ∙ sym (
          ap (λ o. or_else o (first_match section key fs))
            (if_false (some e) (first_match section key es) h))
]

added :
    (entry : Entry) (conf conf' : ConfResult) (capacity : Option ℕ)
    → add_entry entry conf capacity ≡ (true, conf')
    → conf'.entries ≡ conf.entries ++ entry ∷ []
added entry conf conf' none e = cc
added entry conf conf' (some capacity) e = sym (ap (λ r. r.1.entries) e)

-- Whether a lookup asks for the section and the key of a push: both as their buffers hold them, and in
-- lower case.
abbrev pub asks_for : Bytes → Bytes → Bytes → Bytes → Bool
asks_for s k section key =
    same_text (str_tolower (copied conf_max_section section)) (str_tolower s)
    && same_text (str_tolower (copied conf_max_key key)) (str_tolower (copied conf_max_key k))

-- what stands first of two values
abbrev pub first_of : Option Bytes → Option Bytes → Option Bytes
first_of none later = later
first_of (some v) later = some v

lookup_first :
    (found : Option Entry) (b : Bool) (entry : Entry) (fallback : Option Bytes)
    → value_or fallback some (or_else found (if b then some entry else none))
      ≡ first_of (value_or none some found) (if b then some entry.value else fallback)
lookup_first none true entry fallback = refl
lookup_first none false entry fallback = refl
lookup_first (some e) b entry fallback = refl

-- After a `conf_push` that succeeds, `conf_get_str` gives for any section and key: what it gave before
-- the push, if it found one; the pushed value, cut to its buffer, if not and the lookup asks for the
-- pushed section and key; and the fallback if neither. A lookup asks for them when the sections agree,
-- the pushed one cut to its buffer, and the keys, both cut to theirs, whatever their case.
pub conf_get_str-push :
    (conf conf' : ConfResult) (section key value : Bytes) (line_n : ℕ) (s k : Bytes)
    (fallback : Option Bytes)
    → conf_push conf section key value line_n ≡ (true, conf')
    → conf_get_str conf' s k fallback
      ≡ first_of
          (conf_get_str conf s k none)
          (if asks_for s k section key then some (copied conf_max_value value) else fallback)
unfolding conf_get_str find_entry conf_push first_match matches entry_of
conf_get_str-push conf conf' section key value line_n s k fallback e =
    let key_lc = str_tolower (copied conf_max_key k) in
    let entry = entry_of section key value line_n in
    ap (λ es. value_or fallback some (first_match s key_lc es))
      (added entry conf conf' (grown (length conf.entries) conf.capacity) e)
    ∙ ap (value_or fallback some) (first_match-append s key_lc conf.entries (entry ∷ []))
    ∙ lookup_first (first_match s key_lc conf.entries) (asks_for s k section key) entry fallback
