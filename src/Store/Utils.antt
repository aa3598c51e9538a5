-- ===== src/Store/Utils.antt =====
-- `is_utf8`, `make_text_hash` and `hexify` of src/store/utils.cpp. A `std::string` is the list of its
-- bytes there, and a `wchar_t` a code point.
pub mod Laws
pub mod Paths
use Prim.Native.Char.{Char, code}
use Prim.Native.Nat.{bit_xor}
use webpier.Base.{
  ℕ, zero, suc, ◌+◌, ◌-◌, ◌*◌, ◌/◌, ◌%◌, ◌^◌, String, Bool, true, false, Option, none, some, List,
  [], ◌∷◌, same, ltb, length, if◌then◌else◌,
}

-- How many bytes a character has, by its first one. `byte & 0xE0 == 0xC0` says that the upper three
-- bits are 110, and so on.
abbrev pub width : ℕ → Option ℕ
width byte =
    if same (byte / 128) 0
    then some 1
    else if same (byte / 32) 6
    then some 2
    else if same (byte / 16) 14
    then some 3
    else if same (byte / 8) 30
    then some 4
    else none

-- the inner loop: after the end of the text stands a 0, which is no byte of the kind
unfoldable pub continued : ℕ → List ℕ → Option (List ℕ)
continued zero bytes = some bytes
continued (suc n) [] = none
continued (suc n) (b ∷ bytes) = if same (b / 64) 2 then continued n bytes else none

-- the `++i` of the outer `for`
abbrev pub step : List ℕ → List ℕ
step [] = []
step (b ∷ bytes) = bytes

-- the outer loop, on fuel; each round takes a byte at least
unfoldable pub is_utf8_from : ℕ → List ℕ → Bool
is_utf8_from fuel [] = true
is_utf8_from zero (b ∷ bytes) = false
is_utf8_from (suc fuel) (b ∷ bytes) = elim (width b) [
  | none ↦ false
  | some n ↦ elim (continued (n - 1) bytes) [
    | none ↦ false
    | some rest ↦ is_utf8_from fuel (step rest)
  ]
]

unfoldable pub is_utf8 : List ℕ → Bool
is_utf8 bytes = is_utf8_from (length bytes) bytes

abbrev pub fnv_prime : ℕ
fnv_prime = 1099511628211

abbrev pub fnv_offset_basis : ℕ
fnv_offset_basis = 14695981039346656037

abbrev pub char_at : ℕ → String → Char
char_at n String.[] = "F"
char_at zero (String.◌∷◌ c s) = c
char_at (suc n) (String.◌∷◌ c s) = char_at n s

-- the digit of `std::hex` and `std::uppercase`
abbrev pub hex_digit : ℕ → Char
hex_digit d = char_at d "0123456789ABCDEF"

-- the last digits of a number in front of a text
unfoldable pub hex : ℕ → ℕ → String → String
hex zero value text = text
hex (suc n) value text = hex n (value / 16) (String.◌∷◌ (hex_digit (value % 16)) text)

-- a 64-bit number in 16 digits
unfoldable pub hexify : ℕ → String
hexify value = hex 16 value ""

-- the loop of `make_text_hash`, modulo 2 ^ 64
unfoldable pub fnv : ℕ → List ℕ → ℕ
fnv hash [] = hash
fnv hash (symbol ∷ text) = fnv (bit_xor hash symbol * fnv_prime % 2 ^ 64) text

-- `make_text_hash`, on the code points of the text
unfoldable pub make_text_hash : List ℕ → String
make_text_hash text = hexify (fnv fnv_offset_basis text)
