-- ===== src/Conf/Tests.antt =====
-- A configuration file, read and asked.
use accel_observer.Prelude.{ℕ, ◌≡◌, refl, true, false, [], ◌∷◌, ◌++◌, some, none, Bytes, codes}
use Prim.Native.String.{String}
use accel_observer.Conf.{Entry, ConfResult, no_message, unclosed, conf_alloc, conf_push}
use accel_observer.Conf.Strings.{str_tolower, str_trim, str_unquote}
use accel_observer.Conf.Load.{Loader, after_push, load_line, conf_load_fp, conf_load, strip_comment}
use accel_observer.Conf.Load.Bounds.{InBounds, conf_load-InBounds}
use accel_observer.Conf.Load.Pair.{Plain, line_text, load_line-pair}
use accel_observer.Conf.Lookup.{
  find_entry, first_match, matches, conf_get_str, conf_get_bool, conf_get_str-push,
}

abbrev file : Bytes
file = codes "# demo\n[Web]\r\n  Port = 80 ; inline\nname = \"a;b\"\nport=81\n[bad\nenabled = Yes\n"

abbrev entry : String → String → String → ℕ → Entry
entry s k v n = record { section = codes s; key = codes k; value = codes v; line_n = n }

file_loaded : conf_load_fp file ≡ record {
  entries =
      entry "Web" "port" "80" 3
      ∷ entry "Web" "name" "a;b" 4
      ∷ entry "Web" "port" "81" 5
      ∷ entry "Web" "enabled" "Yes" 7
      ∷ [];
  capacity = 64;
  last_error_msg = unclosed 6;
  error_line = 6;
}
unfolding conf_load_fp str_trim str_unquote conf_push str_tolower
file_loaded = refl

abbrev loaded : ConfResult
loaded = conf_load_fp file

answers :
    (conf_get_str loaded (codes "WEB") (codes "PORT") none ≡ some (codes "80"))
    × (conf_get_str loaded (codes "web") (codes "host") none ≡ none)
    × (conf_get_bool loaded (codes "web") (codes "enabled") false ≡ true)
unfolding conf_load_fp str_trim str_unquote conf_push str_tolower conf_get_str conf_get_bool
answers = (refl, refl, refl)

-- A quoted value with a comment behind it keeps its quotation marks and the comment.
quoted_comment : str_unquote (strip_comment (codes "\"a\" # b")) ≡ codes "\"a\" # b"
unfolding str_unquote strip_comment
quoted_comment = refl

conf_load-InBounds_example : InBounds (conf_load (some file))
conf_load-InBounds_example = conf_load-InBounds (some file)

first_push : conf_push conf_alloc (codes "Web") (codes "Port") (codes "80") 3 ≡ (
  true,
  record {
    entries = entry "Web" "port" "80" 3 ∷ [];
    capacity = 64;
    last_error_msg = no_message;
    error_line = 0;
  },
)
unfolding conf_push conf_alloc str_tolower
first_push = refl

conf_get_str-push_example :
    conf_get_str
      (record {
        entries = entry "Web" "port" "80" 3 ∷ [];
        capacity = 64;
        last_error_msg = no_message;
        error_line = 0;
      })
      (codes "web")
      (codes "PORT")
      none
    ≡ some (codes "80")
unfolding conf_get_str find_entry first_match matches str_tolower conf_alloc
conf_get_str-push_example =
    conf_get_str-push conf_alloc _ (codes "Web") (codes "Port") (codes "80") 3 (codes "web")
      (codes "PORT") none first_push

abbrev at_start : Loader
at_start = record { conf = conf_alloc; cur_section = codes "web"; line_n = 4; stopped = false }

Plain-port : Plain (codes "port")
Plain-port = record {
  first = b'p';
  others = codes "ort";
  split = refl;
  begins = refl;
  ends = refl;
  ordinary = (refl, (refl, (refl, (refl, tt))));
}

Plain-80 : Plain (codes "80")
Plain-80 = record {
  first = b'8';
  others = codes "0";
  split = refl;
  begins = refl;
  ends = refl;
  ordinary = (refl, (refl, tt));
}

load_line-pair_example :
    load_line at_start (line_text (codes "port") (codes "80") ++ codes "\n")
    ≡ after_push
        (record at_start { line_n = 5 })
        (conf_push conf_alloc (codes "web") (codes "port") (codes "80") 5)
load_line-pair_example =
    load_line-pair at_start (codes "port") (codes "80") refl Plain-port Plain-80
