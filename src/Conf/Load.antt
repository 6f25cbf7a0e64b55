-- ===== src/Conf/Load.antt =====
-- shared/include/confparser.h, `conf_load_fp`: the loop over the lines. `conf_load` has the same loop.
pub mod Bounds
pub mod Pair
use accel_observer.Prelude.{
  ℕ, zero, suc, ◌+◌, ◌-◌, Bool, true, false, not, ◌&&◌, ◌||◌, List, [], ◌∷◌, ◌++◌, Option, none,
  some, ◌==◌, if◌then◌else◌, Bytes,
}
use accel_observer.Conf.{
  ConfResult, Message, unclosed, no_equals, too_many, cannot_open, conf_alloc, conf_push, copied,
  conf_max_section, conf_max_line,
}
use accel_observer.Conf.Strings.{str_trim, split_at, before_first, str_unquote, ends_in_space}

-- The local variables of the loop; `stopped` is set by `break`.
pub record Loader : Type 0 where
  pub conf : ConfResult
  pub cur_section : Bytes
  pub line_n : ℕ
  pub stopped : Bool

-- What successive calls of `fgets` read: up to a newline, or what the buffer holds. The first argument
-- is the room left, the second what the line has so far.
abbrev pub last_line : Bytes → List Bytes
last_line [] = []
last_line (c ∷ cs) = (c ∷ cs) ∷ []

unfoldable pub fgets_lines : ℕ → Bytes → Bytes → List Bytes
fgets_lines room line [] = last_line line
fgets_lines room line (c ∷ cs) =
    let next = (line ++ c ∷ []) ∷ fgets_lines (conf_max_line - 1) [] cs in
    let longer = fgets_lines (room - 1) (line ++ c ∷ []) cs in
    if (c == b'\n') || (room == 1) then next else longer

-- an inline comment, where a space stands before it
unfoldable pub strip_comment : Bytes → Bytes
strip_comment [] = []
strip_comment (c ∷ cs) =
    if c == b'"'
    then c ∷ cs
    else (let before = before_first (λ d. (d == b'#') || (d == b';')) (c ∷ cs) in
        if ends_in_space before then str_trim before else c ∷ cs)

abbrev pub after_push : Loader → Bool × ConfResult → Loader
after_push l (true, conf) = record l { conf = conf }
after_push l (false, conf) = record l {
  conf = record conf { last_error_msg = too_many };
  stopped = true;
}

-- `key = value`, once both are trimmed; an empty key is skipped
unfoldable pub pair_line : Loader → Bytes → Bytes → Loader
unfolding strip_comment
pair_line l [] val_raw = l
pair_line l (k ∷ ks) val_raw =
    after_push l
      (conf_push l.conf l.cur_section (k ∷ ks) (str_unquote (strip_comment val_raw)) l.line_n)

abbrev pub at_equals : Loader → Option (Bytes × Bytes) → Loader
at_equals l none =
    if l.conf.error_line == 0
    then record l {
      conf = record l.conf { last_error_msg = no_equals l.line_n; error_line = l.line_n };
    }
    else l
at_equals l (some (key, value)) = pair_line l (str_trim key) (str_trim value)

abbrev pub at_bracket : Loader → Option (Bytes × Bytes) → Loader
at_bracket l none = record l {
  conf = record l.conf { last_error_msg = unclosed l.line_n; error_line = l.line_n };
}
at_bracket l (some (section, rest)) = record l {
  cur_section = copied conf_max_section (str_trim section);
}

-- the line without its end and the spaces around it
unfoldable pub trimmed_line : Loader → Bytes → Loader
unfolding pair_line
trimmed_line l [] = l
trimmed_line l (c ∷ cs) =
    if (c == b'#') || (c == b';')
    then l
    else if c == b'['
    then at_bracket l (split_at (λ d. d == b']') cs)
    else at_equals l (split_at (λ d. d == b'=') (c ∷ cs))

-- one round of the loop
unfoldable pub load_line : Loader → Bytes → Loader
unfolding trimmed_line
load_line l line =
    if l.stopped
    then l
    else trimmed_line (record l { line_n = l.line_n + 1 })
        (str_trim (before_first (λ d. (d == b'\r') || (d == b'\n')) line))

-- The functions on strings see a line up to its first NUL.
unfoldable pub load_lines : Loader → List Bytes → Loader
unfolding load_line
load_lines l [] = l
load_lines l (line ∷ lines) = load_lines (load_line l (before_first (λ d. d == 0) line)) lines

-- `conf_load_fp`, on the text of the file
unfoldable pub conf_load_fp : Bytes → ConfResult
unfolding load_lines fgets_lines conf_alloc
conf_load_fp text =
    (load_lines (record { conf = conf_alloc; cur_section = []; line_n = 0; stopped = false })
      (fgets_lines (conf_max_line - 1) [] text)).conf

-- `conf_load`; `none` is a file that does not open
unfoldable pub conf_load : Option Bytes → ConfResult
unfolding conf_load_fp conf_alloc
conf_load none = record conf_alloc { last_error_msg = cannot_open }
conf_load (some text) = conf_load_fp text
