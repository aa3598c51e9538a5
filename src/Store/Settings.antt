-- ===== src/Store/Settings.antt =====
-- The file of settings: `save_config` and `load_config` of src/store/context.cpp, and the
-- `load_config` of src/backend/server.cpp that reads what they write.
pub mod Agreement
use webpier.Base.{ℤ, pos, String, Option, none, some, List, [], ◌∷◌, Result, ok, ◌>>=◌}
use webpier.Ptree.{PropertyTree}
use webpier.Ptree.Fields.{Fields, put_all, string_or, uint_or}
use webpier.Store.Types.{Config, Enums}
use webpier.Backend.Message.Codec.{get_string}

abbrev pub stun_server : String
stun_server = "stunserver2025.stunprotocol.org"

abbrev pub bootstrap_node : String
bootstrap_node = "bootstrap.jami.net"

module _ (lib : PropertyTree) (enums : Enums) where
  open lib use {Tree, empty, value?, of_int}

  -- the texts that `save_config` puts, in its order
  unfoldable pub config_fields : Config → Fields
  config_fields c =
      ("pier", c.pier)
      ∷ ("repo", c.repo)
      ∷ ("log.folder", c.log.folder)
      ∷ ("log.level", of_int c.log.level)
      ∷ ("nat.stun.udp", c.nat.udp_stun)
      ∷ ("nat.stun.tcp", c.nat.tcp_stun)
      ∷ ("nat.test", enums.of_checkup c.nat.test)
      ∷ ("nat.hops", of_int (pos c.nat.hops))
      ∷ ("dht.bootstrap", c.dht.bootstrap)
      ∷ ("dht.port", of_int (pos c.dht.port))
      ∷ ("email.smtp", c.email.smtp)
      ∷ ("email.imap", c.email.imap)
      ∷ ("email.login", c.email.login)
      ∷ ("email.password", c.email.password)
      ∷ ("email.cert", c.email.cert)
      ∷ ("email.key", c.email.key)
      ∷ ("email.ca", c.email.ca)
      ∷ ("relay.server", c.relay.server)
      ∷ ("relay.cert", c.relay.cert)
      ∷ ("relay.key", c.relay.key)
      ∷ ("relay.ca", c.relay.ca)
      ∷ []

  -- the document of `save_config`
  unfoldable pub of_config : Config → Tree
  of_config c = put_all lib (config_fields c) empty

  -- `get<T>(path, default)` for an enumeration with its own stream operator
  abbrev pub enum_or : (String → Option ℤ) → String → ℤ → Tree → ℤ
  enum_or read k d doc = elim (value? k doc) [
    | none ↦ d
    | some v ↦ elim (read v) [ none ↦ d | some z ↦ z ]
  ]

  -- What both readers do; they differ in the default of the bootstrap node and in the network, which
  -- no file has.
  unfoldable pub to_config_with : String → Config → Tree → Result Config
  to_config_with node old doc = do
    pier ← get_string lib "pier" doc
    repo ← get_string lib "repo" doc
    ok (record {
      pier = pier;
      repo = repo;
      log = record {
        folder = string_or lib "log.folder" "" doc;
        level = enum_or enums.to_severity? "log.level" enums.info doc;
      };
      nat = record {
        udp_stun = string_or lib "nat.stun.udp" (string_or lib "nat.stun" stun_server doc) doc;
        tcp_stun = string_or lib "nat.stun.tcp" stun_server doc;
        test = enum_or enums.to_checkup? "nat.test" enums.strict doc;
        hops = uint_or lib 255 "nat.hops" 7 doc;
      };
      dht = record {
        bootstrap = string_or lib "dht.bootstrap" node doc;
        port = uint_or lib 65535 "dht.port" 0 doc;
        network = old.dht.network;
      };
      email = record {
        smtp = string_or lib "email.smtp" "" doc;
        imap = string_or lib "email.imap" "" doc;
        login = string_or lib "email.login" "" doc;
        password = string_or lib "email.password" "" doc;
        cert = string_or lib "email.cert" "" doc;
        key = string_or lib "email.key" "" doc;
        ca = string_or lib "email.ca" "" doc;
      };
      relay = record {
        server = string_or lib "relay.server" "" doc;
        cert = string_or lib "relay.cert" "" doc;
        key = string_or lib "relay.key" "" doc;
        ca = string_or lib "relay.ca" "" doc;
      };
    })
