-- ===== src/Backend/Carrier.antt =====
-- The tunnel processes: how `connector::connect` of src/backend/server.cpp starts one, by its command
-- line and its environment. Backend/Carrier/Program is the program that is started. The endpoints and
-- criteria are wormhole's, the environment is boost's.
pub mod Program
pub mod Launched
use webpier.Base.{
  ℕ, ℤ, String, ◌<>◌, Bool, true, false, Option, none, some, List, [], ◌∷◌, ◌≡◌, Result, err, ok,
  map, same, is_empty, if◌then◌else◌, ◌==◌,
}
use Prim.Native.Char.{code}
use webpier.Map.{Map, string_key, find}
use webpier.Store.Types.{Config, Service}
use webpier.Store.Utils.Paths.{make_path, before_slash, after_slash, to_string, int_to_string}

-- What wormhole and boost::process do: endpoints and criteria are written and read, with what they are
-- written as, and a variable that is set is found.
pub record Platform : Type 1 where
  pub Endpoint : Type 0
  pub Criteria : Type 0
  pub Environment : Type 0
  pub endpoint_text : Endpoint → String
  pub to_endpoint? : String → Option Endpoint
  pub criteria_text : Criteria → String
  pub to_criteria? : String → Option Criteria
  pub set : String → String → Environment → Environment
  pub get : String → Environment → Option String
  pub to_endpoint-endpoint_text : (e : Endpoint) → to_endpoint? (endpoint_text e) ≡ some e
  pub to_criteria-criteria_text : (c : Criteria) → to_criteria? (criteria_text c) ≡ some c
  pub get-set :
      (k j v : String) (env : Environment)
      → get j (set k v env) ≡ (if k == j then some v else get j env)

-- `plexus::identity`
pub record Identity : Type 0 where
  pub owner : String
  pub pin : String

-- the two parts of a pier; without a slash, both are the whole of it
unfoldable pub identity_of : String → Identity
identity_of pier = record {
  owner = before_slash pier;
  pin = elim (after_slash pier) [ none ↦ pier | some pin ↦ pin ];
}

-- What plexus is asked for.
pub data Task (Options : Type 0) : Type 0 where
  spawn_accept spawn_invite : Options → (host peer : Identity) → Task Options

-- What the thread of a spawner does: a task, unless there are no options for it, and the fallback with
-- what was thrown.
pub record Spawned (Options : Type 0) : Type 0 where
  pub task : Option (Task Options)
  pub fallback : Option String

-- `spawner::startup`, with what `make_options` makes; `run` is what plexus comes to on a task
unfoldable pub startup :
    {Options : Type 0}
    → Config
    → Service
    → Result Options
    → (run : Task Options → Result (Unit {0})) → Spawned Options
startup config service made run =
    let host = identity_of config.pier in
    let peer = identity_of service.pier in
    elim made [
      | err e ↦ record { task = none; fallback = some e }
      | ok options ↦
          let task =
            if service.local
            then spawn_accept options host peer
            else spawn_invite options host peer in
          record {
            task = some task;
            fallback = elim (run task) [ err e ↦ some e | ok done ↦ none ];
          }
    ]

-- `--name=value`
abbrev pub long_option : String × String → String
long_option (name, value) = "--" <> (name <> ("=" <> value))

module _ (sys : Platform) where
  open sys use {Endpoint, Criteria, Environment, endpoint_text, criteria_text, set}

  -- `plexus::contract`, as far as it is passed on
  pub record Contract : Type 0 where
    pub inner : Endpoint
    pub alien : Endpoint
    pub qos : Criteria
    pub secret : ℕ

  abbrev pub cert_path : Config → Identity → String → String
  cert_path config id file = make_path config.repo id.owner id.pin file

  -- the arguments of `connect`
  unfoldable pub options_of : Config → Service → Contract → Map String String
  options_of config service term =
      ("purpose", if service.local then "export" else "import")
      ∷ ("service", service.address)
      ∷ ("gateway", endpoint_text term.inner)
      ∷ ("faraway", endpoint_text term.alien)
      ∷ ("quality", criteria_text term.qos)
      ∷ ("journal", make_path config.log.folder "carrier.%p.log" "" "")
      ∷ ("logging", int_to_string config.log.level)
      ∷ []

  unfoldable pub launch :
      Config → Service → (host peer : Identity) → Contract → Environment → List String × Environment
  launch config service host peer term env = (
    map long_option (options_of config service term),
    set "WORMHOLE_CA" (cert_path config peer "cert.crt") (
        set "WORMHOLE_KEY" (cert_path config host "private.key") (
          set "WORMHOLE_CERT" (cert_path config host "cert.crt")
            (set "WORMHOLE_SECRET" (to_string term.secret) env))),
  )
