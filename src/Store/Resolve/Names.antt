-- ===== src/Store/Resolve/Names.antt =====
-- Which name and port the functions of src/store/utils.cpp ask a resolver for.
use text.Mathlib.TextLemmas.{nil-append, cons-append}
use webpier.Base.{String, ◌<>◌, Bool, true, false, none, some, ◌≡◌, refl, arith, Result, is_empty}
use webpier.Texts.{is_empty-append}
use webpier.Store.Resolve.{
  all_digits, is_port, host_port, bracketed, match_plain, match_bracketed, or_cannot, resolve_some,
  resolve_same, resolve_endpoint, resolve_version,
}

-- the colon written as the first character
colon_digits : (s port : String) → all_digits (s <> String.◌∷◌ ":" port) ≡ false
unfolding all_digits
colon_digits String.[] port = rw (nil-append (String.◌∷◌ ":" port)) refl
colon_digits (String.◌∷◌ c s) port =
    rw (cons-append c s (String.◌∷◌ ":" port), colon_digits s port) (ground arith)

host_port-first :
    (host port : String)
    → is_port port ≡ true
    → host_port (host <> String.◌∷◌ ":" port) ≡ some (host, port)
unfolding host_port
host_port-first String.[] port h = rw (nil-append (String.◌∷◌ ":" port), h) refl
host_port-first (String.◌∷◌ c s) port h =
    rw (cons-append c s (String.◌∷◌ ":" port), host_port-first s port h, colon_digits s port)
      (ground arith)

-- A name, a colon and a number that is a port are told apart at that colon.
pub host_port-colon :
    (host port : String)
    → is_port port ≡ true
    → host_port (host <> (":" <> port)) ≡ some (host, port)
host_port-colon host port h =
    rw (cons-append ":" "" port, nil-append port) (host_port-first host port h)

module _ {Endpoint : Type 0} (unset : Endpoint) (any : Bool → Endpoint)
    (resolve : String → String → Result Endpoint)
    (resolve_of : Bool → String → String → Result Endpoint) (host port service : String) where
  -- An endpoint `name:port` that is resolved without a version, or with that of v4, has the name and the
  -- port resolved; with the version v6 the whole text is resolved as a name, and the port is the
  -- default. The name is not empty and not in brackets, and the port is of digits.
  pub resolve-eq :
      is_empty host ≡ false
      → bracketed host ≡ none
      → is_port port ≡ true
      → let text = host <> (":" <> port) in
        (resolve_endpoint unset resolve text service ≡ or_cannot text (resolve host port))
        × (resolve_version false any resolve_of text service
            ≡ or_cannot text (resolve_of false host port))
        × (resolve_version true any resolve_of text service
            ≡ or_cannot text (resolve_of true text service))
  unfolding resolve_endpoint resolve_version resolve_some resolve_same match_plain match_bracketed
  resolve-eq named plain digits =
      rw (is_empty-append host (":" <> port) named, host_port-colon host port digits, plain)
        (rw (host_port-colon host port digits, named) (refl, refl, refl))
