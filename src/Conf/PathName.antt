-- ===== src/Conf/PathName.antt =====
-- internal/conf/path.go: which names a path can have.
pub mod Laws
mod Tests
use Prim.Native.Char.{code}
use Prim.Native.String.{String}
use rtc_simple_server.Base.{
  ℕ, Bool, true, not, ◌&&◌, ◌||◌, Option, none, some, List, [], ◌∷◌, leb, ◌==◌, if◌then◌else◌,
}

-- The bytes of a name, if they are ASCII; beyond that, its code points, which no valid name has.
abbrev pub name_bytes : String → List ℕ
name_bytes String.[] = []
name_bytes (String.◌∷◌ first others) = code first ∷ name_bytes others

pub data NameError : Type 0 where
  empty begins_with_slash ends_with_slash bad_character : NameError

-- The class `[0-9a-zA-Z_\-/\.~]`.
unfoldable pub is_name_char : ℕ → Bool
is_name_char c =
    leb b'0' c && leb c b'9'
    || leb b'a' c && leb c b'z'
    || leb b'A' c && leb c b'Z'
    || c == b'_'
    || c == b'-'
    || c == b'/'
    || c == b'.'
    || c == b'~'

unfoldable pub all_name_chars : List ℕ → Bool
unfolding is_name_char
all_name_chars [] = true
all_name_chars (c ∷ cs) = is_name_char c && all_name_chars cs

-- `name[len(name)-1]`, of a name that begins with `c`.
unfoldable pub last_char : ℕ → List ℕ → ℕ
last_char c [] = c
last_char c (d ∷ ds) = last_char d ds

unfoldable pub check_codes : List ℕ → Option NameError
unfolding last_char all_name_chars
check_codes [] = some empty
check_codes (c ∷ cs) =
    if c == b'/'
    then some begins_with_slash
    else if last_char c cs == b'/'
    then some ends_with_slash
    else if not (all_name_chars (c ∷ cs))
    then some bad_character
    else none

-- `none` is a valid name.
unfoldable pub is_valid_path_name : String → Option NameError
unfolding check_codes
is_valid_path_name name = check_codes (name_bytes name)
