-- ===== src/Conf/Find.antt =====
-- shared/include/confparser.h, `conf_find_config`: where the configuration file is looked for, on Unix.
use accel_observer.Prelude.{
  ℕ, ◌-◌, Bool, true, false, List, [], ◌∷◌, ◌++◌, Option, none, some, if◌then◌else◌, take, Bytes,
  codes,
}

abbrev candidate_size : ℕ
candidate_size = 512

-- `snprintf(candidate, sizeof(candidate), ..)`
abbrev pub candidate : Bytes → Bytes
candidate text = take (candidate_size - 1) text

-- `strncpy(out_path, path, out_size - 1)` and the NUL
abbrev pub put_path : ℕ → Bytes → Bytes
put_path out_size path = take (out_size - 1) path

abbrev pub home_candidate : Bytes → Option Bytes → List Bytes
home_candidate app_name none = []
home_candidate app_name (some home) =
    candidate
      (home ++ (codes "/.config/" ++ (app_name ++ (codes "/" ++ (app_name ++ codes ".conf")))))
    ∷ []

-- The places, in the order of the source; `home` is what the environment or the user database says.
unfoldable pub candidates : Bytes → Option Bytes → List Bytes
candidates app_name home =
    candidate (codes "./" ++ (app_name ++ codes ".conf"))
    ∷ (home_candidate app_name home
        ++ candidate (codes "/etc/" ++ (app_name ++ (codes "/" ++ (app_name ++ codes ".conf"))))
          ∷ [])

module _ (file_exists : Bytes → Bool) where
  -- the first of the places where there is a file
  unfoldable pub first_existing : ℕ → List Bytes → Bool × Bytes
  first_existing out_size [] = (false, [])
  first_existing out_size (path ∷ paths) =
      if file_exists path then (true, put_path out_size path) else first_existing out_size paths

  unfoldable pub explicit_or : Bytes → ℕ → List Bytes → Bool × Bytes
  unfolding first_existing
  explicit_or [] out_size paths = first_existing out_size paths
  explicit_or (c ∷ cs) out_size paths = (file_exists (c ∷ cs), put_path out_size (c ∷ cs))

  abbrev given_text : Option Bytes → Bytes
  given_text none = []
  given_text (some text) = text

  -- the return value, and `out_path`
  unfoldable pub conf_find_config : Bytes → Option Bytes → Option Bytes → ℕ → Bool × Bytes
  unfolding explicit_or candidates
  conf_find_config app_name explicit_path home out_size =
      explicit_or (given_text explicit_path) out_size (candidates app_name home)
