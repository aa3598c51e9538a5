-- ===== src/Store/Resolve.antt =====
-- `resolve_some`, `resolve_same` and the functions over them in src/store/utils.cpp. What the resolvers
-- of asio answer are functions; a name has no end of a line in it.
pub mod Names
pub mod Tests
use mathlib.Core.Option
use Prim.Native.Char.{Char, code}
use webpier.Base.{
  ℕ, String, ◌<>◌, Bool, true, false, Option, none, some, Result, ok, err, ◌&&◌, not, same, leb,
  is_empty, if◌then◌else◌,
}

-- `\d`
abbrev pub is_digit : Char → Bool
is_digit c = leb 48 (code c) && leb (code c) 57

unfoldable pub all_digits : String → Bool
all_digits String.[] = true
all_digits (String.◌∷◌ c s) = is_digit c && all_digits s

-- `\d+`
abbrev pub is_port : String → Bool
is_port s = not (is_empty s) && all_digits s

abbrev pub with_first : Char → String × String → String × String
with_first c (host, port) = (String.◌∷◌ c host, port)

-- a text that ends with `:(\d+)`, with what is before
unfoldable pub host_port : String → Option (String × String)
host_port String.[] = none
host_port (String.◌∷◌ c s) =
    let rest = Option.map (with_first c) (host_port s) in
    if same (code c) b':' && is_port s then some ("", s) else rest

-- a text that ends with `\]`, with what is before
unfoldable pub before_bracket : String → Option String
before_bracket String.[] = none
before_bracket (String.◌∷◌ c s) =
    let rest = Option.map (String.◌∷◌ c) (before_bracket s) in
    if same (code c) b']' && is_empty s then some "" else rest

-- `\[(.+)\]`
unfoldable pub bracketed : String → Option String
bracketed String.[] = none
bracketed (String.◌∷◌ c s) =
    if same (code c) b'['
    then elim (before_bracket s) [
      | none ↦ none
      | some host ↦ if is_empty host then none else some host
    ]
    else none

-- the match of `^(.+):(\d+)$`
unfoldable pub match_plain : String → Option (String × String)
match_plain text = elim (host_port text) [
  | none ↦ none
  | some (host, port) ↦ if is_empty host then none else some (host, port)
]

-- the match of `^\[(.+)\]:(\d+)$`
unfoldable pub match_bracketed : String → Option (String × String)
match_bracketed text = elim (host_port text) [
  | none ↦ none
  | some (whole, port) ↦ elim (bracketed whole) [ none ↦ none | some host ↦ some (host, port) ]
]

abbrev pub cannot_resolve : String → String → String
cannot_resolve hostname what = "can't resolve '" <> hostname <> "' endpoint: " <> what

module _ {Endpoint : Type 0} where
  -- the `catch`
  abbrev pub or_cannot : String → Result Endpoint → Result Endpoint
  or_cannot hostname (ok endpoint) = ok endpoint
  or_cannot hostname (err what) = err (cannot_resolve hostname what)

  -- `resolve_some`
  unfoldable pub resolve_some :
      (String → String → Result Endpoint) → String → String → Result Endpoint
  resolve_some resolve hostname service = or_cannot hostname (elim (match_bracketed hostname) [
    | some (host, port) ↦ resolve host port
    | none ↦ elim (match_plain hostname) [
      | some (host, port) ↦ resolve host port
      | none ↦ resolve hostname service
    ]
  ])

  -- `resolve_same`, on the resolver of the version
  unfoldable pub resolve_same :
      (v6 : Bool) → (String → String → Result Endpoint) → String → String → Result Endpoint
  resolve_same v6 resolve hostname service =
      or_cannot hostname (elim (if v6 then match_bracketed hostname else match_plain hostname) [
        | some (host, port) ↦ resolve host port
        | none ↦ resolve hostname service
      ])

  -- `resolve_udp_endpoint` and `resolve_tcp_endpoint` without a version; `unset` is an empty endpoint
  unfoldable pub resolve_endpoint :
      Endpoint → (String → String → Result Endpoint) → String → String → Result Endpoint
  resolve_endpoint unset resolve hostname service =
      if is_empty hostname then ok unset else resolve_some resolve hostname service

  -- with a version; `any` is its unspecified address
  unfoldable pub resolve_version :
      (v6 : Bool)
      → (Bool → Endpoint)
      → (Bool → String → String → Result Endpoint)
      → String
      → String
      → Result Endpoint
  resolve_version v6 any resolve hostname service =
      if is_empty hostname then ok (any v6) else resolve_same v6 (resolve v6) hostname service
