-- ===== src/Storage/Paths.antt =====
-- server/src/storage/storage_manager.cpp: the path of the output file and its directory.
use accel_observer.Prelude.{
  ℕ, ◌≡◌, refl, sym, ap, ap₂, ◌∙◌, Bool, true, false, ◌&&◌, ◌||◌, List, [], ◌∷◌, ◌++◌, append_assoc,
  append-nil, ◌==◌, if◌then◌else◌, arith, Bytes, codes, Option, none, some,
}
use accel_observer.Prelude.Text.{same_text}

abbrev pub is_separator : ℕ → Bool
is_separator c = (c == b'/') || (c == b'\\')

abbrev pub is_empty : Bytes → Bool
is_empty [] = true
is_empty (c ∷ cs) = false

abbrev pub ends_in_separator : Bytes → Bool
ends_in_separator [] = false
ends_in_separator (c ∷ []) = is_separator c
ends_in_separator (c ∷ d ∷ ds) = ends_in_separator (d ∷ ds)

-- the constructor's choice of the file: a directory gets the generated name
unfoldable pub choose_path : Bytes → Bytes → Bytes
choose_path generated [] = generated
choose_path generated (c ∷ cs) =
    if ends_in_separator (c ∷ cs) then (c ∷ cs) ++ generated else c ∷ cs

-- what stands before the last separator; `none` is `npos`
abbrev pub cut_before : ℕ → Option Bytes → Option Bytes
cut_before c (some dir) = some (c ∷ dir)
cut_before c none = if is_separator c then some [] else none

abbrev pub before_last_separator : Bytes → Option Bytes
before_last_separator [] = none
before_last_separator (c ∷ cs) = cut_before c (before_last_separator cs)

unfoldable pub extract_directory : Bytes → Bytes
extract_directory path = elim (before_last_separator path) [ none ↦ [] | some dir ↦ dir ]

-- `partial.empty() || partial == "." || partial == ".."`
abbrev pub needs_no_mkdir : Bytes → Bool
needs_no_mkdir [] = true
needs_no_mkdir (c ∷ []) = c == b'.'
needs_no_mkdir (c ∷ d ∷ []) = (c == b'.') && (d == b'.')
needs_no_mkdir (c ∷ d ∷ e ∷ rest) = false

-- the rest of the loop, unless the step has failed
abbrev pub unless_failed : {F : Type 0} → Bool × F → (F → Bool × F) → Bool × F
unless_failed (false, f) next = (false, f)
unless_failed (true, f) next = next f

module _ {F : Type 0} (mkdir : Bytes → F → Bool × F) where
  -- `mkdir(partial)`, where it is called. The parameter answers `rc == 0 || errno == EEXIST`: an
  -- existing file of any kind passes for the directory.
  abbrev pub make_dir : Bytes → F → Bool × F
  make_dir partial f = if needs_no_mkdir partial then (true, f) else mkdir partial f

  -- The loop, on what is left of the path.
  unfoldable pub ensure_loop : Bytes → Bytes → F → Bool × F
  ensure_loop partial [] f = make_dir partial f
  ensure_loop partial (c ∷ cs) f =
      unless_failed (if is_separator c then make_dir partial f else (true, f))
        (ensure_loop (partial ++ c ∷ []) cs)

  unfoldable pub ensure_directory_exists : Bytes → F → Bool × F
  unfolding ensure_loop
  ensure_directory_exists path f = if is_empty path then (true, f) else ensure_loop [] path f

-- Every front part of a path that a separator or the end of the path comes behind, shortest first.
abbrev pub starting : ℕ → List Bytes → List Bytes
starting c [] = []
starting c (p ∷ ps) = (c ∷ p) ∷ starting c ps

abbrev pub parts_of : Bytes → List Bytes
parts_of [] = [] ∷ []
parts_of (c ∷ cs) =
    if is_separator c then [] ∷ starting c (parts_of cs) else starting c (parts_of cs)

-- The parts that name a directory to be made: all but "", "." and "..".
abbrev pub directories : List Bytes → List Bytes
directories [] = []
directories (p ∷ ps) =
    if same_text p [] || (same_text p (codes ".") || same_text p (codes ".."))
    then directories ps
    else p ∷ directories ps

needs_no_mkdir_lem :
    (p : Bytes)
    → (same_text p [] || (same_text p (codes ".") || same_text p (codes ".."))) ≡ needs_no_mkdir p
needs_no_mkdir_lem [] = refl
needs_no_mkdir_lem (c ∷ []) = ground arith
needs_no_mkdir_lem (c ∷ d ∷ []) = ground arith
needs_no_mkdir_lem (c ∷ d ∷ e ∷ rest) = ground arith

-- the parts, each behind what has been seen of the path
abbrev behind : Bytes → List Bytes → List Bytes
behind partial [] = []
behind partial (p ∷ ps) = (partial ++ p) ∷ behind partial ps

behind_nil : (ps : List Bytes) → behind [] ps ≡ ps
behind_nil [] = refl
behind_nil (p ∷ ps) = ap (◌∷◌ p) (behind_nil ps)

behind-starting :
    (partial : Bytes) (c : ℕ) (ps : List Bytes)
    → behind partial (starting c ps) ≡ behind (partial ++ c ∷ []) ps
behind-starting partial c [] = refl
behind-starting partial c (p ∷ ps) =
    ap₂ ◌∷◌ (sym (append_assoc partial (c ∷ []) p)) (behind-starting partial c ps)

module _ {F : Type 0} (mkdir : Bytes → F → Bool × F) where
  -- the calls, one after the other, until one of them fails
  abbrev pub call_each : List Bytes → F → Bool × F
  call_each [] f = (true, f)
  call_each (p ∷ ps) f = let (made, g) = mkdir p f in if made then call_each ps g else (false, g)

  failed_or_on :
      (r : Bool × F) (ps : List Bytes)
      → unless_failed r (call_each ps) ≡ (if r.0 then call_each ps r.1 else (false, r.1))
  failed_or_on (true, f) ps = refl
  failed_or_on (false, f) ps = refl

  call_first :
      (p : Bytes) (ps : List Bytes) (f : F)
      → unless_failed (make_dir mkdir p f) (call_each (directories ps))
        ≡ call_each (directories (p ∷ ps)) f
  call_first p ps f = rw (needs_no_mkdir_lem p) (either (needs_no_mkdir p))
    where
      either :
          (b : Bool)
          → unless_failed (if b then (true, f) else mkdir p f) (call_each (directories ps))
            ≡ call_each (if b then directories ps else p ∷ directories ps) f
      either true = refl
      either false = failed_or_on (mkdir p f) (directories ps)

  last_call : (r : Bool × F) → unless_failed r (call_each []) ≡ r
  last_call (true, f) = refl
  last_call (false, f) = refl

  ensure_loop-call_each :
      (partial rest : Bytes) (f : F)
      → ensure_loop mkdir partial rest f
        ≡ call_each (directories (behind partial (parts_of rest))) f
  unfolding ensure_loop
  ensure_loop-call_each partial [] f =
      sym (last_call (make_dir mkdir partial f))
      ∙ call_first partial [] f
      ∙ ap (λ p. call_each (directories (p ∷ [])) f) (sym (append-nil partial))
  ensure_loop-call_each partial (c ∷ cs) f =
      let later = ensure_loop-call_each (partial ++ c ∷ []) cs in
      let same = sym (behind-starting partial c (parts_of cs)) in
      either (is_separator c) (λ g. later g ∙ ap (λ ps. call_each (directories ps) g) same)
    where
      next :
          (r : Bool × F)
          → ((g : F)
              → ensure_loop mkdir (partial ++ c ∷ []) cs g
                ≡ call_each (directories (behind partial (starting c (parts_of cs)))) g)
          → unless_failed r (ensure_loop mkdir (partial ++ c ∷ []) cs)
            ≡ unless_failed r (call_each (directories (behind partial (starting c (parts_of cs)))))
      next (true, g) h = h g
      next (false, g) h = refl

      either :
          (b : Bool)
          → ((g : F)
              → ensure_loop mkdir (partial ++ c ∷ []) cs g
                ≡ call_each (directories (behind partial (starting c (parts_of cs)))) g)
          → unless_failed
              (if b then make_dir mkdir partial f else (true, f))
              (ensure_loop mkdir (partial ++ c ∷ []) cs)
            ≡ call_each
                (directories (
                  behind partial
                    (if b then [] ∷ starting c (parts_of cs) else starting c (parts_of cs))))
                f
      either false h = h f
      either true h =
          next (make_dir mkdir partial f) h
          ∙ call_first partial (behind partial (starting c (parts_of cs))) f
          ∙ ap (λ p. call_each (directories (p ∷ behind partial (starting c (parts_of cs)))) f)
              (sym (append-nil partial))

  -- For every path, `ensure_directory_exists` calls `mkdir` for each front part of the path that a
  -- separator or the end comes behind, but for "", "." and "..", the shortest first, and for nothing
  -- else. It stops at the first call that fails, answering false, and answers true if none does. A call
  -- fails unless it answers 0 or `errno` is EEXIST, so whatever has the name already counts as made.
  pub ensure_directory_exists-call_each :
      (path : Bytes) (f : F)
      → ensure_directory_exists mkdir path f ≡ call_each (directories (parts_of path)) f
  unfolding ensure_directory_exists
  ensure_directory_exists-call_each [] f = refl
  ensure_directory_exists-call_each (c ∷ cs) f =
      ensure_loop-call_each [] (c ∷ cs) f
      ∙ ap (λ ps. call_each (directories ps) f) (behind_nil (parts_of (c ∷ cs)))
