-- ===== src/Conf/Load/Pair.antt =====
-- A line `key = value` of the configuration file.
use accel_observer.Prelude.{
  ℕ, ◌+◌, ◌≡◌, refl, sym, ap, ap₂, ◌∙◌, Bool, false, ◌||◌, [], ◌∷◌, ◌++◌, append_assoc, append-nil,
  some, arith, ◌==◌, if◌then◌else◌, if_false, if_either, Bytes, codes,
}
use accel_observer.Prelude.Text.{is_space, drop_spaces}
use accel_observer.Conf.{conf_push}
use accel_observer.Conf.Strings.{
  keep, trim_right, str_trim, put_back, split_at, before_first, str_unquote, or_text, open_end,
  ends_in_space,
}
use accel_observer.Conf.Load.{
  Loader, strip_comment, after_push, pair_line, at_equals, at_bracket, trimmed_line, load_line,
}

-- the bytes that end a string or a line, begin a comment, or divide the line
abbrev pub special : ℕ → Bool
special c =
    (c == 0)
    || ((c == b'\r')
        || ((c == b'\n')
            || ((c == b'#') || ((c == b';') || ((c == b'=') || ((c == b'"') || (c == b'[')))))))

abbrev pub NoSpecial : Bytes → Type 0
NoSpecial [] = Unit
NoSpecial (c ∷ cs) = (special c ≡ false) × NoSpecial cs

-- A text of one byte or more with no special byte, and with no space at either end.
pub record Plain (text : Bytes) : Type 0 where
  pub first : ℕ
  pub others : Bytes
  pub split : text ≡ first ∷ others
  pub begins : is_space first ≡ false
  pub ends : ends_in_space text ≡ false
  pub ordinary : NoSpecial text

not_end : (c : ℕ) → special c ≡ false → ((c == b'\r') || (c == b'\n')) ≡ false
not_end c h = ground arith

not_comment : (c : ℕ) → special c ≡ false → ((c == b'#') || (c == b';')) ≡ false
not_comment c h = ground arith

not_equals : (c : ℕ) → special c ≡ false → (c == b'=') ≡ false
not_equals c h = ground arith

not_quote : (c : ℕ) → special c ≡ false → (c == b'"') ≡ false
not_quote c h = ground arith

not_bracket : (c : ℕ) → special c ≡ false → (c == b'[') ≡ false
not_bracket c h = ground arith

trim_right-ended :
    (c : ℕ) (cs : Bytes) → ends_in_space (c ∷ cs) ≡ false → trim_right (c ∷ cs) ≡ c ∷ cs
trim_right-ended c [] h = if_false [] (c ∷ []) h
trim_right-ended c (d ∷ ds) h = ap (keep c) (trim_right-ended d ds h)

trim_right-space : (s : Bytes) → trim_right (s ++ b' ' ∷ []) ≡ trim_right s
trim_right-space [] = refl
trim_right-space (c ∷ cs) = ap (keep c) (trim_right-space cs)

trim_right-Plain : (text : Bytes) → Plain text → trim_right text ≡ text
trim_right-Plain [] p = refl
trim_right-Plain (c ∷ cs) p = trim_right-ended c cs p.ends

drop_spaces-begun :
    (c : ℕ) (cs rest : Bytes)
    → is_space c ≡ false
    → drop_spaces ((c ∷ cs) ++ rest) ≡ (c ∷ cs) ++ rest
drop_spaces-begun c cs rest h = if_false (drop_spaces (cs ++ rest)) ((c ∷ cs) ++ rest) h

drop_spaces-Plain : (text rest : Bytes) → Plain text → drop_spaces (text ++ rest) ≡ text ++ rest
drop_spaces-Plain text rest p =
    ap (λ t. drop_spaces (t ++ rest)) p.split
    ∙ drop_spaces-begun p.first p.others rest p.begins
    ∙ sym (ap (λ t. t ++ rest) p.split)

before_first-ordinary :
    (kind : ℕ → Bool) (text : Bytes)
    → ((c : ℕ) → special c ≡ false → kind c ≡ false)
    → NoSpecial text
    → before_first kind text ≡ text
before_first-ordinary kind [] h k = refl
before_first-ordinary kind (c ∷ cs) h (plain, k) =
    if_false [] (c ∷ before_first kind cs) (h c plain)
    ∙ ap (◌∷◌ c) (before_first-ordinary kind cs h k)

before_first-passes :
    (kind : ℕ → Bool) (text rest : Bytes)
    → ((c : ℕ) → special c ≡ false → kind c ≡ false)
    → NoSpecial text
    → before_first kind (text ++ rest) ≡ text ++ before_first kind rest
before_first-passes kind [] rest h k = refl
before_first-passes kind (c ∷ cs) rest h (plain, k) =
    if_false [] (c ∷ before_first kind (cs ++ rest)) (h c plain)
    ∙ ap (◌∷◌ c) (before_first-passes kind cs rest h k)

split_at-passes :
    (kind : ℕ → Bool) (text rest before after : Bytes)
    → ((c : ℕ) → special c ≡ false → kind c ≡ false)
    → NoSpecial text
    → split_at kind rest ≡ some (before, after)
    → split_at kind (text ++ rest) ≡ some (text ++ before, after)
split_at-passes kind [] rest before after h k e = e
split_at-passes kind (c ∷ cs) rest before after h (plain, k) e =
    if_false (some ([], cs ++ rest)) (put_back c (split_at kind (cs ++ rest))) (h c plain)
    ∙ ap (put_back c) (split_at-passes kind cs rest before after h k e)

trim_right-append :
    (xs : Bytes) (y : ℕ) (ys : Bytes)
    → trim_right (y ∷ ys) ≡ y ∷ ys
    → trim_right (xs ++ y ∷ ys) ≡ xs ++ y ∷ ys
trim_right-append [] y ys h = h
trim_right-append (c ∷ []) y ys h = ap (keep c) h
trim_right-append (c ∷ d ∷ ds) y ys h = ap (keep c) (trim_right-append (d ∷ ds) y ys h)

trim_right-after : (xs text : Bytes) → Plain text → trim_right (xs ++ text) ≡ xs ++ text
trim_right-after xs [] p = absurd (cc (p.split))
trim_right-after xs (c ∷ cs) p = trim_right-append xs c cs (trim_right-Plain (c ∷ cs) p)

strip_comment-Plain : (text : Bytes) → Plain text → strip_comment text ≡ text
unfolding strip_comment
strip_comment-Plain [] p = refl
strip_comment-Plain (c ∷ cs) p =
    let same : before_first (λ d. (d == b'#') || (d == b';')) (c ∷ cs) ≡ c ∷ cs =
      before_first-ordinary (λ d. (d == b'#') || (d == b';')) (c ∷ cs) not_comment p.ordinary in
    if_either (λ (r : Bytes). r ≡ c ∷ cs) (c == b'"') _ _ refl
      (ap (λ b. if ends_in_space b then str_trim b else c ∷ cs) same
        ∙ if_false (str_trim (c ∷ cs)) (c ∷ cs) p.ends)

str_unquote-Plain : (text : Bytes) → Plain text → str_unquote text ≡ text
unfolding str_unquote
str_unquote-Plain [] p = refl
str_unquote-Plain (c ∷ cs) p =
    let other : (c == b'"') ≡ false = not_quote c p.ordinary.0 in
    if_false (or_text (c ∷ cs) (open_end cs)) (c ∷ cs) other

-- A line that begins with an ordinary text is divided at its equals sign.
trimmed_line-Plain :
    (l : Loader) (text rest : Bytes)
    → Plain text
    → trimmed_line l (text ++ rest) ≡ at_equals l (split_at (λ d. d == b'=') (text ++ rest))
unfolding trimmed_line
trimmed_line-Plain l [] rest p = absurd (cc (p.split))
trimmed_line-Plain l (c ∷ cs) rest p =
    let pair = at_equals l (split_at (λ d. d == b'=') ((c ∷ cs) ++ rest)) in
    let section = at_bracket l (split_at (λ d. d == b']') (cs ++ rest)) in
    if_false l (if c == b'[' then section else pair) (not_comment c p.ordinary.0)
    ∙ if_false section pair (not_bracket c p.ordinary.0)

pair_line-Plain :
    (l : Loader) (key value : Bytes)
    → Plain key
    → pair_line l key value
      ≡ after_push l
          (conf_push l.conf l.cur_section key (str_unquote (strip_comment value)) l.line_n)
unfolding pair_line
pair_line-Plain l [] value p = absurd (cc (p.split))
pair_line-Plain l (k ∷ ks) value p = refl

abbrev pub line_text : Bytes → Bytes → Bytes
line_text key value = key ++ (codes " = " ++ value)

module _ (key value : Bytes) (plain_key : Plain key) (plain_value : Plain value) where
  cut_line :
      before_first (λ d. (d == b'\r') || (d == b'\n')) (line_text key value ++ codes "\n")
      ≡ line_text key value
  cut_line =
      let cut = before_first (λ d. (d == b'\r') || (d == b'\n')) in
      ap cut (append_assoc key (codes " = " ++ value) (codes "\n"))
      ∙ before_first-passes (λ d. (d == b'\r') || (d == b'\n')) key
          ((codes " = " ++ value) ++ codes "\n") not_end plain_key.ordinary
      ∙ ap (λ t. key ++ (codes " = " ++ t))
          (before_first-passes (λ d. (d == b'\r') || (d == b'\n')) value (codes "\n") not_end
              plain_value.ordinary
            ∙ append-nil value)

  trimmed : str_trim (line_text key value) ≡ line_text key value
  unfolding str_trim
  trimmed =
      ap trim_right (drop_spaces-Plain key (codes " = " ++ value) plain_key)
      ∙ ap trim_right (sym (append_assoc key (codes " = ") value))
      ∙ trim_right-after (key ++ codes " = ") value plain_value
      ∙ append_assoc key (codes " = ") value

  divided :
      split_at (λ d. d == b'=') (line_text key value) ≡ some (key ++ codes " ", codes " " ++ value)
  divided =
      split_at-passes (λ d. d == b'=') key (codes " = " ++ value) (codes " ") (codes " " ++ value)
        not_equals plain_key.ordinary refl

  key_trimmed : str_trim (key ++ codes " ") ≡ key
  unfolding str_trim
  key_trimmed =
      ap trim_right (drop_spaces-Plain key (codes " ") plain_key)
      ∙ trim_right-space key
      ∙ trim_right-Plain key plain_key

  value_trimmed : str_trim (codes " " ++ value) ≡ value
  unfolding str_trim
  value_trimmed =
      ap (λ t. trim_right (drop_spaces t)) (sym (append-nil value))
      ∙ ap trim_right (drop_spaces-Plain value [] plain_value ∙ append-nil value)
      ∙ trim_right-Plain value plain_value

-- While the loop has not been stopped, a line `key = value` whose two sides are plain texts makes
-- one round of it push exactly that pair, in the current section and with the number of the line.
pub load_line-pair :
    (l : Loader) (key value : Bytes)
    → l.stopped ≡ false
    → Plain key
    → Plain value
    → let l' = record l { line_n = l.line_n + 1 } in
      load_line l (line_text key value ++ codes "\n")
      ≡ after_push l' (conf_push l.conf l.cur_section key value (l.line_n + 1))
unfolding load_line
load_line-pair l key value on plain_key plain_value =
    let l' = record l { line_n = l.line_n + 1 } in
    let cut =
      before_first (λ d. (d == b'\r') || (d == b'\n')) (line_text key value ++ codes "\n") in
    if_false l (trimmed_line l' (str_trim cut)) on
    ∙ ap (λ t. trimmed_line l' (str_trim t)) (cut_line key value plain_key plain_value)
    ∙ ap (trimmed_line l') (trimmed key value plain_key plain_value)
    ∙ trimmed_line-Plain l' key (codes " = " ++ value) plain_key
    ∙ ap (at_equals l') (divided key value plain_key plain_value)
    ∙ ap₂ (pair_line l') (key_trimmed key value plain_key plain_value)
        (value_trimmed key value plain_key plain_value)
    ∙ pair_line-Plain l' key value plain_key
    ∙ ap (λ t. after_push l' (conf_push l.conf l.cur_section key t (l.line_n + 1)))
        (ap str_unquote (strip_comment-Plain value plain_value)
          ∙ str_unquote-Plain value plain_value)
