-- ===== src/Store/Services.antt =====
-- The file of a pier's services: `save_pier_config` and `load_pier_config` of src/store/context.cpp,
-- and the two `load_config` of src/backend/server.cpp that read services.
pub mod Agreement
use webpier.Base.{
  ℤ, pos, String, Bool, true, false, Option, none, some, List, [], ◌∷◌, map, Result, ok, ◌>>=◌,
  ◌==◌, each, if◌then◌else◌,
}
use webpier.Ptree.{PropertyTree}
use webpier.Ptree.Fields.{Fields, put_all, string_or, int_or, bool_or, get_bool}
use webpier.Map.{Map, string_key, emplace}
use webpier.Store.Types.{Service, Enums}
use webpier.Backend.Message.Codec.{get_string, get_child_or, push_all}

-- the services of one pier
abbrev pub Services : Type 0
Services = Map String Service

-- the values of a map, in its order
abbrev pub values {ℓ} : {V : Type ℓ} → Map String V → List V
values [] = []
values ((k, v) ∷ m) = v ∷ values m

abbrev pub any_gateway : String
any_gateway = "0.0.0.0:0"

module _ (lib : PropertyTree) (enums : Enums) where
  open lib use {Tree, empty, put_child, of_int, of_bool, children}

  -- the texts that `save_pier_config` puts for a service, in its order
  unfoldable pub service_fields : Service → Fields
  service_fields s =
      ("local", of_bool s.local)
      ∷ ("name", s.name)
      ∷ ("pier", s.pier)
      ∷ ("address", s.address)
      ∷ ("gateway", s.gateway)
      ∷ ("rendezvous", s.rendezvous)
      ∷ ("proto", of_int s.proto)
      ∷ ("role", of_int s.role)
      ∷ ("route", of_int s.route)
      ∷ ("autostart", of_bool s.autostart)
      ∷ ("obscure", of_bool s.obscure)
      ∷ []

  unfoldable pub of_service : Service → Tree
  of_service s = put_all lib (service_fields s) empty

  -- the document of `save_pier_config`
  unfoldable pub of_services : Services → Tree
  of_services m = put_child "services" (push_all lib (map of_service (values m)) empty) empty

  -- the items that all three readers visit
  abbrev pub items : Tree → List Tree
  items doc = children (get_child_or lib "services" empty doc)

  -- an item of `load_pier_config`, which replaces what it cannot read by a default
  unfoldable pub to_service : Bool → Tree → Service
  to_service own item = record {
    local = bool_or lib "local" own item;
    name = string_or lib "name" "" item;
    pier = string_or lib "pier" "" item;
    address = string_or lib "address" "" item;
    gateway = string_or lib "gateway" any_gateway item;
    rendezvous = string_or lib "rendezvous" "" item;
    proto = int_or lib "proto" enums.udp item;
    role = int_or lib "role" enums.either item;
    route = int_or lib "route" enums.direct item;
    autostart = bool_or lib "autostart" false item;
    obscure = bool_or lib "obscure" true item;
  }

  -- its loop
  unfoldable pub emplace_all : List Service → Services → Services
  emplace_all [] m = m
  emplace_all (s ∷ ss) m = emplace_all ss (emplace s.name s m)

  unfoldable pub load_services : Bool → Tree → Services → Services
  load_services own doc m = emplace_all (map (to_service own) (items doc)) m

  -- a service of the backend, with its own default of the role
  unfoldable pub to_loaded : (Bool → ℤ) → Tree → Result Service
  to_loaded role item = do
    local ← get_bool lib "local" item
    name ← get_string lib "name" item
    pier ← get_string lib "pier" item
    address ← get_string lib "address" item
    ok (record {
      local = local;
      name = name;
      pier = pier;
      address = address;
      gateway = string_or lib "gateway" any_gateway item;
      rendezvous = string_or lib "rendezvous" "" item;
      proto = int_or lib "proto" enums.udp item;
      role = int_or lib "role" (role local) item;
      route = int_or lib "route" enums.direct item;
      autostart = bool_or lib "autostart" false item;
      obscure = bool_or lib "obscure" true item;
    })

  -- `load_config(repo)`: all services of one file
  unfoldable pub load_every : Tree → Result (List Service)
  load_every doc =
      each (to_loaded (λ local. if local then enums.server else enums.client)) (items doc)

  -- `webpier::service{}`
  abbrev pub nameless : Service
  nameless = record {
    local = false;
    name = "";
    pier = "";
    address = "";
    gateway = any_gateway;
    rendezvous = "bootstrap.jami.net";
    proto = enums.any;
    role = enums.either;
    route = enums.direct;
    autostart = false;
    obscure = true;
  }

  -- the loop of `load_config(repo, id)`
  unfoldable pub pick : String → List Tree → Result Service
  pick wanted [] = ok nameless
  pick wanted (item ∷ rest) = do
    name ← get_string lib "name" item
    if name == wanted then to_loaded (λ local. enums.either) item else pick wanted rest

  unfoldable pub load_named : String → Tree → Result Service
  load_named wanted doc = pick wanted (items doc)
