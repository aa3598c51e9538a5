-- ===== src/Backend/Options/Names.antt =====
-- Which servers `make_options` of src/backend/server.cpp can be given.
use webpier.Base.{String, ◌<>◌, true, false, none, ◌≡◌, refl, ok, err, is_empty}
use webpier.Store.Types.{Config, Service}
use webpier.Store.Resolve.{is_port, bracketed, cannot_resolve}
use webpier.Store.Resolve.Names.{resolve-eq}
use webpier.Backend.Options.{
  Network, Location, stun_server_default_port, make_bind, make_stun, make_options,
}

module _ {Endpoint : Type 0} (net : Network Endpoint) (host port : String) where
  -- A service whose gateway is an address of v6 gets no options, when the STUN server for udp is given
  -- as `name:port`: the error is the one of the resolver for this text as a name. The resolver refuses
  -- that name, the name before the colon is not empty and not in brackets, and the port is of digits.
  pub make_options-v6_name :
      (conf : Config) (serv : Service) (bind : Location Endpoint) (e : String)
      → make_bind net serv ≡ ok bind
      → net.is_v6 bind.udp ≡ true
      → conf.nat.udp_stun ≡ host <> (":" <> port)
      → net.udp.resolve_of true (host <> (":" <> port)) stun_server_default_port ≡ err e
      → is_empty host ≡ false
      → bracketed host ≡ none
      → is_port port ≡ true
      → make_options net conf serv ≡ err (cannot_resolve (host <> (":" <> port)) e)
  unfolding make_options make_stun
  make_options-v6_name conf serv bind e bound v6 given refused named plain digits =
      let asked =
        (resolve-eq net.unset net.any net.udp.resolve net.udp.resolve_of host port
          stun_server_default_port named plain digits).2 in
      rw (bound, v6, given, asked, refused) refl
