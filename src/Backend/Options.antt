-- ===== src/Backend/Options.antt =====
-- `make_options` of src/backend/server.cpp: what plexus is given of the settings and of a service. The
-- resolvers and the endpoints are asio's.
pub mod Names
use webpier.Base.{
  ℕ, ℤ, String, ◌<>◌, Bool, true, false, Option, Result, ok, ◌>>=◌, is_empty, if◌then◌else◌,
}
use webpier.Store.Types.{Config, Service}
use webpier.Store.Resolve.{resolve_endpoint, resolve_version}

-- The resolvers of a protocol, without a version and with one; `any` is the unspecified address of a
-- version.
pub record Resolvers (Endpoint : Type 0) : Type 0 where
  pub resolve : String → String → Result Endpoint
  pub resolve_of : Bool → String → String → Result Endpoint

pub record Network (Endpoint : Type 0) : Type 0 where
  pub unset : Endpoint
  pub any : Bool → Endpoint
  pub is_v6 : Endpoint → Bool
  pub udp : Resolvers Endpoint
  pub tcp : Resolvers Endpoint

-- `plexus::location`
pub record Location (Endpoint : Type 0) : Type 0 where
  pub udp : Endpoint
  pub tcp : Endpoint

-- `plexus::rendezvous`
pub data Rendezvous (Endpoint : Type 0) : Type 0 where
  emailer : (smtp imap : Endpoint) (login password cert key ca : String) → Rendezvous Endpoint
  dhtnode : (bootstrap : String) (port network : ℕ) → Rendezvous Endpoint

-- `plexus::ricochet`
pub record Relay (Endpoint : Type 0) : Type 0 where
  pub server : Endpoint
  pub cert : String
  pub key : String
  pub ca : String

-- `plexus::options`
pub record Options (Endpoint : Type 0) : Type 0 where
  pub app : String
  pub repo : String
  pub bind : Location Endpoint
  pub stun : Location Endpoint
  pub hops : ℕ
  pub test : ℤ
  pub proto : ℤ
  pub role : ℤ
  pub relay : Relay Endpoint
  pub udp_route : ℤ
  pub tcp_route : ℤ
  pub rendezvous : Rendezvous Endpoint

-- the constants of src/store/utils.h
abbrev pub stun_client_default_port : String
stun_client_default_port = "0"

abbrev pub stun_server_default_port : String
stun_server_default_port = "3478"

abbrev pub rico_server_default_port : String
rico_server_default_port = "7411"

abbrev pub smtp_server_default_port : String
smtp_server_default_port = "smtps"

abbrev pub imap_server_default_port : String
imap_server_default_port = "imaps"

module _ {Endpoint : Type 0} (net : Network Endpoint) where
  abbrev pub resolve_tcp : String → String → Result Endpoint
  resolve_tcp = resolve_endpoint net.unset net.tcp.resolve

  unfoldable pub make_bind : Service → Result (Location Endpoint)
  make_bind serv = do
    udp ← resolve_endpoint net.unset net.udp.resolve serv.gateway stun_client_default_port
    tcp ← resolve_tcp serv.gateway stun_client_default_port
    ok (record { udp = udp; tcp = tcp })

  unfoldable pub make_stun : Config → Location Endpoint → Result (Location Endpoint)
  make_stun conf bind = do
    udp ←
        resolve_version (net.is_v6 bind.udp) net.any net.udp.resolve_of conf.nat.udp_stun
          stun_server_default_port
    tcp ←
        resolve_version (net.is_v6 bind.tcp) net.any net.tcp.resolve_of conf.nat.tcp_stun
          stun_server_default_port
    ok (record { udp = udp; tcp = tcp })

  unfoldable pub make_relay : Config → Result (Relay Endpoint)
  make_relay conf = do
    server ← resolve_tcp conf.relay.server rico_server_default_port
    ok (record {
      server = server;
      cert = conf.relay.cert;
      key = conf.relay.key;
      ca = conf.relay.ca;
    })

  unfoldable pub make_rendezvous : Config → Service → Result (Rendezvous Endpoint)
  make_rendezvous conf serv =
      let dht = conf.dht in
      let email = conf.email in
      let mailer : Result (Rendezvous Endpoint) = (do
        smtp ← resolve_tcp email.smtp smtp_server_default_port
        imap ← resolve_tcp email.imap imap_server_default_port
        ok (emailer smtp imap email.login email.password email.cert email.key email.ca)) in
      if is_empty serv.rendezvous
      then mailer
      else ok (dhtnode (dht.bootstrap <> ("," <> serv.rendezvous)) dht.port dht.network)

  -- `make_options`; the fields are made in their order
  unfoldable pub make_options : Config → Service → Result (Options Endpoint)
  make_options conf serv = do
    bind ← make_bind serv
    stun ← make_stun conf bind
    relay ← make_relay conf
    rendezvous ← make_rendezvous conf serv
    ok (record {
      app = serv.name;
      repo = conf.repo;
      bind = bind;
      stun = stun;
      hops = conf.nat.hops;
      test = conf.nat.test;
      proto = serv.proto;
      role = serv.role;
      relay = relay;
      udp_route = serv.route;
      tcp_route = serv.route;
      rendezvous = rendezvous;
    })
