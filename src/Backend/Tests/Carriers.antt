-- ===== src/Backend/Tests/Carriers.antt =====
-- The theorem about starting a tunnel process, on a small reader of options.
use mathlib.Core.Option
use Prim.Native.Char.{code}
use webpier.Base.{
  ◌<>◌, ℕ, pos, ◌+◌, ◌*◌, ◌-◌, ◌^◌, String, true, false, Option, none, some, List, [], ◌∷◌, ◌≡◌,
  refl, ap, ◌∙◌, eq_refl, arith, ◌==◌, ◌&&◌, not, same, ltb, is_empty, if◌then◌else◌, Bool-cases,
  inl, inr, eq_iff,
}
use webpier.Map.{Map, string_key, find}
use webpier.Store.Types.{Service}
use webpier.Store.Resolve.{is_port, all_digits}
use webpier.Store.Utils.Paths
use webpier.Store.Utils.Paths.{
  make_path, pier_file, to_string, int_to_string, to_digits, before_slash, after_slash,
  starts_with_slash,
}
use webpier.Store.Utils.Paths.Piers.{IsPier}
use webpier.Backend.Carrier.{Platform, identity_of, Contract, options_of, launch}
use webpier.Backend.Carrier.Program.{ProgramOptions, declared, set_up}
use webpier.Backend.Carrier.Launched.{set_up-launch}
use webpier.Backend.Tests.{config, ssh}

-- endpoints and criteria are their texts, and the environment is a list that is searched from its head
find-first :
    (k j v : String) (env : Map String String)
    → find j ((k, v) ∷ env) ≡ (if k == j then some v else find j env)
unfolding find
find-first k j v env = refl

abbrev texts : Platform
texts = record {
  Endpoint = String;
  Criteria = String;
  Environment = Map String String;
  endpoint_text = λ s. s;
  to_endpoint? = some;
  criteria_text = λ s. s;
  to_criteria? = some;
  set = λ k v env. (k, v) ∷ env;
  get = find;
  to_endpoint-endpoint_text = λ e. refl;
  to_criteria-criteria_text = λ c. refl;
  get-set = find-first;
}

-- the value behind the sign of equality, after the name
unfoldable value_after : String → String → Option String
value_after String.[] String.[] = none
value_after String.[] (String.◌∷◌ c s) =
    if same (code c) b'=' && not (is_empty s) then some s else none
value_after (String.◌∷◌ b name) String.[] = none
value_after (String.◌∷◌ b name) (String.◌∷◌ c s) =
    let rest = value_after name s in if same (code b) (code c) then rest else none

unfoldable parse_one : List String → String → Option (String × String)
parse_one [] arg = none
parse_one (name ∷ names) arg =
    let rest = parse_one names arg in
    elim (value_after ("--" <> name) arg) [ none ↦ rest | some value ↦ some (name, value) ]

unfoldable parse : List String → List String → Option (Map String String)
parse names [] = some []
parse names (arg ∷ args) =
    let rest = parse names args in
    elim (parse_one names arg) [
      | none ↦ none
      | some one ↦ Option.map (λ (os : Map String String). one ∷ os) rest
    ]

unfoldable read_environment : (String → String) → Map String String → Map String String
read_environment mapper [] = []
read_environment mapper ((k, v) ∷ env) =
    let rest = read_environment mapper env in
    if is_empty (mapper k) then rest else (mapper k, v) ∷ rest

find-read_environment :
    (mapper : String → String) (env : Map String String) (k name : String)
    → mapper k ≡ name
    → is_empty name ≡ false
    → ((j : String) → mapper j ≡ name → j ≡ k)
    → find name (read_environment mapper env) ≡ find k env
unfolding find read_environment
find-read_environment mapper [] k name m n u = refl
find-read_environment mapper ((j, v) ∷ env) k name m n u =
    let rest = find-read_environment mapper env k name m n u in
    elim (Bool-cases (j == k)) [
      | inl t ↦
          let named : mapper j ≡ name = ap mapper ((eq_iff j k).0 t) ∙ m in
          rw (named, n, find-first name name v (read_environment mapper env), eq_refl name, t) refl
      | inr t ↦ elim (Bool-cases (is_empty (mapper j))) [
        | inl e ↦ rw (e, t) rest
        | inr e ↦ elim (Bool-cases (mapper j == name)) [
          | inl g ↦
              let found = u j ((eq_iff (mapper j) name).0 g) in
              let no : ⊥ = ground (arith, found, t, eq_iff j k) in absurd no
          | inr g ↦ rw (e, find-first (mapper j) name v (read_environment mapper env), g, t) rest
        ]
      ]
    ]

unfoldable number_from : ℕ → String → ℕ
number_from n String.[] = n
number_from n (String.◌∷◌ c s) = number_from (n * 10 + (code c - 48)) s

abbrev read_number : String → Option ℕ
read_number s = let n = number_from 0 s in if is_port s && ltb n (2 ^ 64) then some n else none

abbrev reader : ProgramOptions texts
reader = record {
  parse_command_line = parse;
  parse_environment = read_environment;
  to_severity? = λ s. Option.map pos (read_number s);
  to_uint64? = read_number;
  info = pos 2;
  no_criteria = "";
  find-parse_environment = find-read_environment;
}

-- an import from one pier
abbrev bob_ssh : Service
bob_ssh = record ssh { pier = "venus/bob" }

abbrev term : Contract texts
term = record {
  inner = "192.168.0.2:4000";
  alien = "203.0.113.7:5000";
  qos = "tcp:client";
  secret = 1234567;
}

mars-IsPier : IsPier "mars/amy"
unfolding before_slash after_slash starts_with_slash
mars-IsPier = ("amy", refl, refl, refl, refl)

venus-IsPier : IsPier "venus/bob"
unfolding before_slash after_slash starts_with_slash
venus-IsPier = ("bob", refl, refl, refl, refl)

options_read :
    let host = identity_of "mars/amy" in
    let peer = identity_of "venus/bob" in
    parse declared (launch texts config bob_ssh host peer term []).0
    ≡ some (options_of texts config bob_ssh term)
unfolding launch options_of parse parse_one value_after make_path Paths.append_path
    Paths.starts_with_slash Paths.ends_with_slash int_to_string to_string to_digits
options_read = refl

level_read : reader.to_severity? (int_to_string config.log.level) ≡ some config.log.level
unfolding int_to_string to_string to_digits number_from all_digits
level_read = refl

secret_read : read_number (to_string 1234567) ≡ some 1234567
unfolding to_string to_digits number_from all_digits
secret_read = refl

set_up-launch_example :
    let r =
      launch texts config bob_ssh (identity_of "mars/amy") (identity_of "venus/bob") term [] in
    set_up texts reader r.0 r.1
    ≡ some (record {
      logging = pos 3;
      journal = make_path "/tmp" "carrier.%p.log" "" "";
      router = record {
        imports = true;
        service = "127.0.0.1:22";
        gateway = "192.168.0.2:4000";
        faraway = "203.0.113.7:5000";
        quality = "tcp:client";
        secret = 1234567;
        cert = pier_file "/home/amy" "mars/amy" "cert.crt";
        key = pier_file "/home/amy" "mars/amy" "private.key";
        ca = pier_file "/home/amy" "venus/bob" "cert.crt";
      };
    })
set_up-launch_example =
    set_up-launch texts reader config bob_ssh term [] "127.0.0.1:22" mars-IsPier venus-IsPier refl
      options_read level_read secret_read
