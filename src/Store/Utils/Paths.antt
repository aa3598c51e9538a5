-- ===== src/Store/Utils/Paths.antt =====
-- `make_path` of src/store/utils.cpp, on a system whose separator is a slash, and `std::to_string`.
pub mod Piers
use Prim.Native.Char.{code}
use webpier.Base.{
  ℕ, zero, suc, ◌/◌, ◌%◌, ℤ, pos, negsuc, String, ◌<>◌, Bool, true, false, Option, none, some, ◌||◌,
  same, is_empty, if◌then◌else◌,
}
use webpier.Store.Utils.{char_at}

unfoldable pub starts_with_slash : String → Bool
starts_with_slash String.[] = false
starts_with_slash (String.◌∷◌ c s) = same (code c) b'/'

unfoldable pub ends_with_slash : String → Bool
ends_with_slash String.[] = false
ends_with_slash (String.◌∷◌ c s) =
    let rest = ends_with_slash s in if is_empty s then same (code c) b'/' else rest

-- `std::filesystem::path::operator/=`: a path from the root replaces what is before
unfoldable pub append_path : String → String → String
append_path full part =
    if starts_with_slash part
    then part
    else if is_empty full || ends_with_slash full
    then full <> part
    else full <> ("/" <> part)

abbrev pub append_some : String → String → String
append_some full part = if is_empty part then full else append_path full part

unfoldable pub make_path : String → String → String → String → String
make_path one two three four = append_some (append_some (append_some one two) three) four

-- a file of a pier, which `context_impl` finds in the directory of the pier's name
unfoldable pub pier_file : (repo pier file : String) → String
pier_file repo pier file = append_path (append_path repo pier) file

-- what is before the first slash of a text, and after it
unfoldable pub before_slash : String → String
before_slash String.[] = ""
before_slash (String.◌∷◌ c s) =
    let rest = before_slash s in if same (code c) b'/' then "" else String.◌∷◌ c rest

unfoldable pub after_slash : String → Option String
after_slash String.[] = none
after_slash (String.◌∷◌ c s) =
    let rest = after_slash s in if same (code c) b'/' then some s else rest

-- the digits of a number in front of a text; a round takes a digit off, so the number is enough fuel
unfoldable pub to_digits : ℕ → ℕ → String → String
to_digits zero n text = text
to_digits (suc fuel) zero text = text
to_digits (suc fuel) (suc n) text =
    to_digits fuel (suc n / 10) (String.◌∷◌ (char_at (suc n % 10) "0123456789") text)

-- `std::to_string`
unfoldable pub to_string : ℕ → String
to_string zero = "0"
to_string (suc n) = to_digits (suc n) (suc n) ""

unfoldable pub int_to_string : ℤ → String
int_to_string (pos n) = to_string n
int_to_string (negsuc n) = "-" <> to_string (suc n)
