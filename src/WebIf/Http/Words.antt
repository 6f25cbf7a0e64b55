-- ===== src/WebIf/Http/Words.antt =====
-- What a request asks for, by its words.
use accel_observer.Prelude.{
  ℕ, ◌≡◌, refl, sym, ap, ◌∙◌, Bool, true, false, ◌||◌, List, [], ◌∷◌, Option, none, some, ◌==◌,
  if◌then◌else◌, Bool-cases, inl, inr, Bytes, codes,
}
use accel_observer.Prelude.Text.{find_rest, or_else, strip_prefix}
use accel_observer.Conf.Strings.{put_back, split_at}
use accel_observer.WebIf.Http.{
  further, at_front, find_at, is_there, second_space, first_space, extract_path, asks_for_upgrade,
}

-- a text, cut at each space
abbrev pub onto_first : ℕ → List Bytes → List Bytes
onto_first c [] = (c ∷ []) ∷ []
onto_first c (w ∷ ws) = (c ∷ w) ∷ ws

abbrev pub words : Bytes → List Bytes
words [] = [] ∷ []
words (c ∷ cs) = if c == b' ' then [] ∷ words cs else onto_first c (words cs)

-- the path of a request: the second of its words, if there are three at least
abbrev pub path_in : List Bytes → Bytes
path_in (method ∷ path ∷ version ∷ more) = path
path_in _ = codes "/"

-- a text that has a pattern in it
abbrev found : Option Bytes → Bool
found none = false
found (some rest) = true

abbrev pub wants_upgrade : Bytes → Bool
wants_upgrade request =
    found (find_rest (codes "Upgrade: websocket") request)
    || found (find_rest (codes "Upgrade: WebSocket") request)

abbrev split_words : Bytes → Option (Bytes × Bytes) → List Bytes
split_words whole none = whole ∷ []
split_words whole (some (word, rest)) = word ∷ words rest

split_words-put_back :
    (c : ℕ) (cs : Bytes) (o : Option (Bytes × Bytes))
    → onto_first c (split_words cs o) ≡ split_words (c ∷ cs) (put_back c o)
split_words-put_back c cs none = refl
split_words-put_back c cs (some (word, rest)) = refl

words_lem : (text : Bytes) → words text ≡ split_words text (split_at (λ c. c == b' ') text)
words_lem [] = refl
words_lem (c ∷ cs) = elim (Bool-cases (c == b' ')) [
  | inl e ↦ rw e refl
  | inr e ↦
      rw e (
        ap (onto_first c) (words_lem cs) ∙ split_words-put_back c cs (split_at (λ d. d == b' ') cs))
]

third_word :
    (method path : Bytes) (whole : Bytes) (o : Option (Bytes × Bytes))
    → path ≡ path_in (method ∷ path ∷ split_words whole o)
third_word method path whole none = refl
third_word method path whole (some (word, rest)) = refl

second_word :
    (method whole : Bytes) (o : Option (Bytes × Bytes))
    → second_space o ≡ path_in (method ∷ split_words whole o)
second_word method whole none = refl
second_word method whole (some (path, rest)) =
    third_word method path rest (split_at (λ c. c == b' ') rest)
    ∙ ap (λ ws. path_in (method ∷ path ∷ ws)) (sym (words_lem rest))

first_word :
    (whole : Bytes) (o : Option (Bytes × Bytes)) → first_space o ≡ path_in (split_words whole o)
first_word whole none = refl
first_word whole (some (method, rest)) =
    second_word method rest (split_at (λ c. c == b' ') rest)
    ∙ ap (λ ws. path_in (method ∷ ws)) (sym (words_lem rest))

pub extract_path-words : (request : Bytes) → extract_path request ≡ path_in (words request)
unfolding extract_path
extract_path-words request =
    first_word request (split_at (λ c. c == b' ') request) ∙ sym (ap path_in (words_lem request))

is_there-further : (o : Option ℕ) → is_there (further o) ≡ is_there o
is_there-further none = refl
is_there-further (some n) = refl

is_there-at_front :
    (o : Option Bytes) (later : Option ℕ) (rest : Option Bytes)
    → is_there later ≡ found rest
    → is_there (at_front o later) ≡ found (or_else o rest)
is_there-at_front none later rest e = e
is_there-at_front (some text) later rest e = refl

is_there-find_at :
    (pattern text : Bytes) → is_there (find_at pattern text) ≡ found (find_rest pattern text)
is_there-find_at pattern [] = at_end (strip_prefix pattern [])
  where
    at_end : (o : Option Bytes) → is_there (at_front o none) ≡ found o
    at_end none = refl
    at_end (some rest) = refl
is_there-find_at pattern (c ∷ cs) =
    is_there-at_front (strip_prefix pattern (c ∷ cs)) (further (find_at pattern cs))
      (find_rest pattern cs) (is_there-further (find_at pattern cs) ∙ is_there-find_at pattern cs)

pub asks_for_upgrade-wants_upgrade :
    (request : Bytes) → asks_for_upgrade request ≡ wants_upgrade request
asks_for_upgrade-wants_upgrade request =
    rw (is_there-find_at (codes "Upgrade: websocket") request)
      (rw (is_there-find_at (codes "Upgrade: WebSocket") request) refl)
