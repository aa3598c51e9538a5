-- ===== src/Backend/Carrier/Program.antt =====
-- The program of a tunnel process, src/backend/tunnel.cpp. The command line and the environment are
-- read by boost::program_options, the tunnel is wormhole's. An error ends the program with the code 1;
-- its text, which is only shown, is left out.
use webpier.Base.{
  ℕ, ℤ, String, Bool, false, Option, none, some, List, [], ◌∷◌, ◌≡◌, ◌==◌, is_empty, if◌then◌else◌,
}
use webpier.Map.{Map, string_key, find}
use webpier.Backend.Carrier.{Platform}

-- What boost::program_options does: `parse_command_line` for the declared names, `parse_environment`,
-- which takes the variables to which the mapper gives a name, and the readers of the values.
pub record ProgramOptions (sys : Platform) : Type 0 where
  pub parse_command_line : List String → List String → Option (Map String String)
  pub parse_environment : (String → String) → sys.Environment → Map String String
  pub to_severity? : String → Option ℤ
  pub to_uint64? : String → Option ℕ
  pub info : ℤ
  pub no_criteria : sys.Criteria
  pub find-parse_environment :
      (mapper : String → String) (env : sys.Environment) (k name : String)
      → mapper k ≡ name
      → is_empty name ≡ false
      → ((j : String) → mapper j ≡ name → j ≡ k)
      → find name (parse_environment mapper env) ≡ sys.get k env

-- `router`, with what it is created from
pub record Router (sys : Platform) : Type 0 where
  pub imports : Bool
  pub service : sys.Endpoint
  pub gateway : sys.Endpoint
  pub faraway : sys.Endpoint
  pub quality : sys.Criteria
  pub secret : ℕ
  pub cert : String
  pub key : String
  pub ca : String

-- the severity and the journal of the log, and the router
pub record Setup (sys : Platform) : Type 0 where
  pub logging : ℤ
  pub journal : String
  pub router : Router sys

-- `mapper`
unfoldable pub mapper : String → String
mapper env =
    if env == "WORMHOLE_SECRET"
    then "secret"
    else if env == "WORMHOLE_CERT"
    then "cert"
    else if env == "WORMHOLE_KEY"
    then "key"
    else if env == "WORMHOLE_CA"
    then "ca"
    else ""

abbrev pub declared : List String
declared = "purpose" ∷ "service" ∷ "gateway" ∷ "faraway" ∷ "quality" ∷ "journal" ∷ "logging" ∷ []

infixl 5 ◌>>=◌
-- the next step, unless there was an error
abbrev pub ◌>>=◌ {ℓ μ} : {A : Type ℓ} {B : Type μ} → Option A → (A → Option B) → Option B
none >>= next = none
some a >>= next = next a

-- the value of an option with a default, and of one that is required, when it is given or not
abbrev pub or_default {ℓ} : {A : Type ℓ} → A → (String → Option A) → Option String → Option A
or_default value read none = some value
or_default value read (some text) = read text

abbrev pub required {ℓ} : {A : Type ℓ} → (String → Option A) → Option String → Option A
required read none = none
required read (some text) = read text

module _ (sys : Platform) (po : ProgramOptions sys) where
  open sys use {Environment, to_endpoint?, to_criteria?}

  -- from the command line and the environment to the router
  unfoldable pub set_up : List String → Environment → Option (Setup sys)
  set_up args env = do
    given ← po.parse_command_line declared args
    let more = po.parse_environment mapper env in
        do
          purpose ← required some (find "purpose" given)
          service ← required to_endpoint? (find "service" given)
          gateway ← required to_endpoint? (find "gateway" given)
          faraway ← required to_endpoint? (find "faraway" given)
          quality ← or_default po.no_criteria to_criteria? (find "quality" given)
          journal ← or_default "" some (find "journal" given)
          logging ← or_default po.info po.to_severity? (find "logging" given)
          secret ← or_default 0 po.to_uint64? (find "secret" more)
          cert ← or_default "" some (find "cert" more)
          key ← or_default "" some (find "key" more)
          ca ← or_default "" some (find "ca" more)
          some (record {
            logging = logging;
            journal = journal;
            router = record {
              imports = purpose == "import";
              service = service;
              gateway = gateway;
              faraway = faraway;
              quality = quality;
              secret = secret;
              cert = cert;
              key = key;
              ca = ca;
            };
          })

  -- `main`: the exit code. `carries` is whether the tunnel works to its end without an exception.
  unfoldable pub run_carrier : Bool → (Setup sys → Bool) → List String → Environment → ℕ
  run_carrier is_module carries args env =
      if is_module
      then (elim (set_up args env) [ none ↦ 1 | some setup ↦ if carries setup then 0 else 1 ])
      else 1
