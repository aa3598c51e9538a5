-- ===== src/Store/Resolve/Tests.antt =====
-- Runs of the functions that resolve a name, at a resolver that answers what it is asked.
use webpier.Base.{String, Result, ok, ◌≡◌, refl, false, true}
use webpier.Store.Resolve.{
  resolve_endpoint, resolve_version, host_port, before_bracket, bracketed, all_digits, resolve_some,
  resolve_same, match_plain, match_bracketed,
}

abbrev both : String → String → String × String
both host port = (host, port)

abbrev found : String → String → Result (String × String)
found host port = ok (host, port)

-- an address of v6 in brackets, under both versions
bracketed_v6 :
    resolve_version true (λ _. both "" "") (λ _. found) "[::1]:80" "6881" ≡ ok ("::1", "80")
unfolding resolve_version resolve_same match_bracketed host_port before_bracket bracketed all_digits
bracketed_v6 = refl

bracketed_v4 :
    resolve_version false (λ _. both "" "") (λ _. found) "[::1]:80" "6881" ≡ ok ("[::1]", "80")
unfolding resolve_version resolve_same match_plain host_port all_digits
bracketed_v4 = refl

-- a bare address of v6 without a version: its last part is taken for a port
bare_v6 : resolve_endpoint (both "" "") found "fe80::1" "6881" ≡ ok ("fe80:", "1")
unfolding resolve_endpoint resolve_some match_bracketed match_plain host_port bracketed all_digits
bare_v6 = refl
