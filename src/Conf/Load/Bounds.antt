-- ===== src/Conf/Load/Bounds.antt =====
-- The bounds of the configuration parser: its array, and the buffers of each entry.
use accel_observer.Prelude.{
  ℕ, ◌+◌, ◌≤◌, ◌<◌, ◌≡◌, refl, Bool, true, false, ◌||◌, List, [], ◌∷◌, ◌++◌, Option, none, some,
  arith, ◌==◌, if_either, length, length-append, length-take, length-map, take, Bytes,
}
use accel_observer.Conf.{
  Entry, ConfResult, conf_max_entries, conf_max_section, conf_max_key, conf_max_value, conf_alloc,
  Message, grown, entry_of, add_entry, conf_push, too_many, no_message, cannot_open, unclosed,
  no_equals,
}
use accel_observer.Conf.Strings.{
  to_lower, str_tolower, str_trim, split_at, before_first, str_unquote,
}
use accel_observer.Conf.Load.{
  Loader, strip_comment, after_push, pair_line, at_equals, at_bracket, trimmed_line, load_line,
  load_lines, fgets_lines, conf_load_fp, conf_load,
}

-- Each string of an entry fits its buffer, with the NUL.
abbrev pub Sized : Entry → Type 0
Sized e =
    (length e.section < conf_max_section)
    × (length e.key < conf_max_key)
    × (length e.value < conf_max_value)

abbrev pub AllSized : List Entry → Type 0
AllSized [] = Unit
AllSized (e ∷ es) = Sized e × AllSized es

pub record InBounds (conf : ConfResult) : Type 0 where
  pub fits : length conf.entries ≤ conf.capacity
  pub room : 0 < conf.capacity
  pub bounded : conf.capacity ≤ conf_max_entries
  pub sized : AllSized conf.entries

AllSized-append : (es : List Entry) (e : Entry) → AllSized es → Sized e → AllSized (es ++ e ∷ [])
AllSized-append [] e h k = (k, tt)
AllSized-append (f ∷ fs) e (hf, h) k = (hf, AllSized-append fs e h k)

entry_of-Sized :
    (section key value : Bytes) (line_n : ℕ) → Sized (entry_of section key value line_n)
unfolding entry_of str_tolower
entry_of-Sized section key value line_n = (
  omega (arith, length-take 63 section),
  omega (arith, length-take 63 key, length-map (take 63 key) to_lower),
  omega (arith, length-take 511 value),
)

grown_lem :
    (filled_count capacity new : ℕ)
    → filled_count ≤ capacity
    → capacity ≤ conf_max_entries
    → 0 < capacity
    → grown filled_count capacity ≡ some new
    → (filled_count < new) × (new ≤ conf_max_entries)
unfolding grown
grown_lem filled_count capacity new h k pos e = ground arith

added-InBounds :
    (entry : Entry) (conf : ConfResult) (capacity : Option ℕ)
    → Sized entry
    → InBounds conf
    → grown (length conf.entries) conf.capacity ≡ capacity
    → InBounds (add_entry entry conf capacity).1
added-InBounds entry conf none sized h e = h
added-InBounds entry conf (some new) sized h e =
    let (more, top) = grown_lem (length conf.entries) conf.capacity new h.fits h.bounded h.room e in
    record {
      fits = omega (arith, length-append conf.entries (entry ∷ []));
      room = omega arith;
      bounded = top;
      sized = AllSized-append conf.entries entry h.sized sized;
    }

-- `conf_push` keeps the bounds, whether it takes the entry or not, and whatever it is given.
conf_push-InBounds :
    (conf : ConfResult) (section key value : Bytes) (line_n : ℕ)
    → InBounds conf
    → InBounds (conf_push conf section key value line_n).1
unfolding conf_push
conf_push-InBounds conf section key value line_n h =
    added-InBounds (entry_of section key value line_n) conf
      (grown (length conf.entries) conf.capacity) (entry_of-Sized section key value line_n) h refl

-- the same bounds with other messages
noted :
    (conf : ConfResult) (m : Message) (n : ℕ)
    → InBounds conf
    → InBounds (record conf { last_error_msg = m; error_line = n })
noted conf m n h = record { fits = h.fits; room = h.room; bounded = h.bounded; sized = h.sized }

after_push-InBounds :
    (l : Loader) (r : Bool × ConfResult) → InBounds r.1 → InBounds (after_push l r).conf
after_push-InBounds l (true, conf) h = h
after_push-InBounds l (false, conf) h = noted conf too_many conf.error_line h

pair_line-InBounds :
    (l : Loader) (key value : Bytes) → InBounds l.conf → InBounds (pair_line l key value).conf
unfolding pair_line
pair_line-InBounds l [] value h = h
pair_line-InBounds l (k ∷ ks) value h =
    after_push-InBounds l
      (conf_push l.conf l.cur_section (k ∷ ks) (str_unquote (strip_comment value)) l.line_n)
      (conf_push-InBounds l.conf l.cur_section (k ∷ ks) (str_unquote (strip_comment value)) l.line_n
        h)

at_equals-InBounds :
    (l : Loader) (parts : Option (Bytes × Bytes))
    → InBounds l.conf
    → InBounds (at_equals l parts).conf
at_equals-InBounds l none h =
    if_either (λ (r : Loader). InBounds r.conf) (l.conf.error_line == 0) _ l
      (noted l.conf (no_equals l.line_n) l.line_n h) h
at_equals-InBounds l (some (key, value)) h = pair_line-InBounds l (str_trim key) (str_trim value) h

at_bracket-InBounds :
    (l : Loader) (parts : Option (Bytes × Bytes))
    → InBounds l.conf
    → InBounds (at_bracket l parts).conf
at_bracket-InBounds l none h = noted l.conf (unclosed l.line_n) l.line_n h
at_bracket-InBounds l (some (section, rest)) h = h

trimmed_line-InBounds :
    (l : Loader) (line : Bytes) → InBounds l.conf → InBounds (trimmed_line l line).conf
unfolding trimmed_line
trimmed_line-InBounds l [] h = h
trimmed_line-InBounds l (c ∷ cs) h =
    if_either (λ (r : Loader). InBounds r.conf) ((c == b'#') || (c == b';')) l _ h
      (if_either (λ (r : Loader). InBounds r.conf) (c == b'[') _ _
        (at_bracket-InBounds l (split_at (λ d. d == b']') cs) h)
        (at_equals-InBounds l (split_at (λ d. d == b'=') (c ∷ cs)) h))

load_line-InBounds :
    (l : Loader) (line : Bytes) → InBounds l.conf → InBounds (load_line l line).conf
unfolding load_line
load_line-InBounds l line h =
    if_either (λ (r : Loader). InBounds r.conf) l.stopped l _ h
      (trimmed_line-InBounds (record l { line_n = l.line_n + 1 })
        (str_trim (before_first (λ d. (d == b'\r') || (d == b'\n')) line)) h)

load_lines-InBounds :
    (l : Loader) (lines : List Bytes) → InBounds l.conf → InBounds (load_lines l lines).conf
unfolding load_lines
load_lines-InBounds l [] h = h
load_lines-InBounds l (line ∷ lines) h =
    let text = before_first (λ d. d == 0) line in
    load_lines-InBounds (load_line l text) lines (load_line-InBounds l text h)

conf_alloc-InBounds : (m : Message) → InBounds (record conf_alloc { last_error_msg = m })
unfolding conf_alloc
conf_alloc-InBounds m = record {
  fits = omega arith;
  room = omega arith;
  bounded = omega arith;
  sized = tt;
}

-- Whatever the file holds, and if it does not open, the loaded configuration has at most 512 entries, no
-- more than the array has room for, and every string of an entry fits its buffer with the NUL.
pub conf_load-InBounds : (text : Option Bytes) → InBounds (conf_load text)
unfolding conf_load conf_load_fp conf_alloc
conf_load-InBounds none = conf_alloc-InBounds cannot_open
conf_load-InBounds (some text) =
    load_lines-InBounds
      (record { conf = conf_alloc; cur_section = []; line_n = 0; stopped = false })
      (fgets_lines 1023 [] text) (conf_alloc-InBounds no_message)
