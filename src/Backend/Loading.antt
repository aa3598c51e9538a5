-- ===== src/Backend/Loading.antt =====
-- The three `load_config` of src/backend/server.cpp, on the disk that the store writes.
pub mod Served
use webpier.Base.{pos, String, Option, none, some, List, [], ◌∷◌, Result, ok, or_throw, ◌>>=◌}
use webpier.Ptree.{PropertyTree}
use webpier.Map.{Map, string_key, find}
use webpier.Store.Types.{Config, Service, Enums}
use webpier.Store.Settings.{to_config_with}
use webpier.Store.Services.{load_every, load_named, nameless}
use webpier.Store.Context.{PierDir, Disk, dir_of}
use webpier.Backend.Message.{Handle}
use webpier.Backend.Engine.{Home}

-- `webpier::config` with a network of 0; the other fields are read
abbrev pub no_network : Config
no_network = record {
  pier = "";
  repo = "";
  log = record { folder = ""; level = pos 0 };
  nat = record { udp_stun = ""; tcp_stun = ""; test = pos 0; hops = 0 };
  dht = record { bootstrap = ""; port = 0; network = 0 };
  email = record { smtp = ""; imap = ""; login = ""; password = ""; cert = ""; key = ""; ca = "" };
  relay = record { server = ""; cert = ""; key = ""; ca = "" };
}

module _ (lib : PropertyTree) (enums : Enums) (cannot_open : String) where
  open lib use {Text, Tree, read, bad_text}

  -- `read_json` of a file
  abbrev pub read_file : Option Text → Result Tree
  read_file file = do x ← or_throw file cannot_open; or_throw (read x) (bad_text x)

  -- `load_config()`
  unfoldable pub load_settings : Disk Text → Result Config
  load_settings d = do doc ← read_file d.settings; to_config_with lib enums "" no_network doc

  -- `load_config(repo, id)`; a pier without a file has no such service
  unfoldable pub load_service : String → Handle → Disk Text → Result Service
  load_service repo id d = elim (dir_of repo id.pier d) [
    | none ↦ ok (nameless lib enums)
    | some dir ↦ elim dir.file [
      | none ↦ ok (nameless lib enums)
      | some x ↦ do doc ← read_file (some x); load_named lib enums id.service doc
    ]
  ]

  -- `res[pier].emplace_back(...)`: a pier without services has no entry
  abbrev pub entry :
      String → List Service → List (String × List Service) → List (String × List Service)
  entry pier [] rest = rest
  entry pier (s ∷ ss) rest = (pier, s ∷ ss) ∷ rest

  -- the loops of `load_config(repo)`
  unfoldable pub load_dirs : Map String (PierDir Text) → Result (List (String × List Service))
  load_dirs [] = ok []
  load_dirs ((pier, dir) ∷ dirs) =
      let others = load_dirs dirs in
      elim dir.file [
        | none ↦ others
        | some x ↦ do
          doc ← read_file (some x)
          services ← load_every lib enums doc
          rest ← others
          ok (entry pier services rest)
      ]

  -- `load_config(repo)`
  unfoldable pub load_services_of : String → Disk Text → Result (List (String × List Service))
  load_services_of repo d = do dirs ← or_throw (find repo d.repos) cannot_open; load_dirs dirs

  -- what the commands of the engine read, when the lock answers `lock`
  unfoldable pub home_of : Result (Unit {0}) → Disk Text → Home
  home_of lock d = record {
    lock = lock;
    conf = load_settings d;
    services = λ repo. load_services_of repo d;
    service = λ repo id. load_service repo id d;
  }
